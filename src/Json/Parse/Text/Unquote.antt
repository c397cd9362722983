-- ===== src/Json/Parse/Text/Unquote.antt =====
-- The reader of strings undoes what the printer makes of a text of valid UTF-8.
use lockping_agent.Prelude.{
  Bool, ℕ, zero, suc, ◌/◌, ◌%◌, ◌≤◌, ◌<◌, List, [], ◌∷◌, ◌++◌, some, ◌≡◌, ◌≢◌, refl, ◌||◌, ◌⊎◌, inl,
  inr, arith, All, Bytes, length, length-append, ltb, ◌==◌, if◌then◌else◌, Bool-cases, ltb→lt,
  ==_iff, true, false, append_assoc,
}
use lockping_agent.Utf8.{next_rune, encode_rune, encode_runes}
use lockping_agent.Utf8.RoundTrip.{IsRune, next_rune-encode_rune}
use lockping_agent.Json.Print.{ascii, rune_text}
use lockping_agent.Json.Print as Print
use lockping_agent.Json.Print.Printed.{printed_rune, printed, first_byte}
use lockping_agent.Json.Parse.Text.{
  hex_digit, hex_four, Piece, emit, bad_piece, unicode_escape, escape, plain, piece, string,
}

hex-digit : (v : ℕ) → v < 16 → hex_digit (Print.hex_digit v) ≡ some v
unfolding hex_digit Print.hex_digit
hex-digit v h = ground arith

-- The piece that a text begins with.
first_piece : Bytes → Piece
first_piece [] = bad_piece
first_piece (c ∷ s) = piece c s

hex_four-digits :
    (r : ℕ) (s : Bytes)
    → r < 0x80
    → hex_four (b'0' ∷ b'0' ∷ Print.hex_digit (r / 16) ∷ Print.hex_digit (r % 16) ∷ s) ≡ some (r, s)
unfolding hex_four hex_digit
hex_four-digits r s h = ground (arith, hex-digit (r / 16), hex-digit (r % 16))

control_piece :
    (r : ℕ) (s : Bytes)
    → r < 0x80
    → piece b'\\' (b'u' ∷ b'0' ∷ b'0' ∷ Print.hex_digit (r / 16) ∷ Print.hex_digit (r % 16) ∷ s)
      ≡ emit (encode_rune r) s
unfolding piece escape unicode_escape
control_piece r s h = ground (arith, hex_four-digits r s h)

plain_piece :
    (r : ℕ) (s : Bytes)
    → r < 0x80
    → 0x20 ≤ r
    → r ≢ b'"'
    → r ≢ b'\\'
    → piece r s ≡ emit (encode_rune r) s
unfolding piece plain next_rune
plain_piece r s small shown a b = ground arith

-- The bytes with an escape of two letters.
is_short : ℕ → Bool
is_short r = r == b'"' || r == b'\\' || r == 8 || r == 12 || r == 10 || r == 13 || r == 9

ascii_long :
    (r : ℕ)
    → is_short r ≡ false
    → ascii r ≡ (
        if ltb r 0x20 || r == b'<' || r == b'>' || r == b'&'
        then b'\\' ∷ b'u' ∷ b'0' ∷ b'0' ∷ Print.hex_digit (r / 16) ∷ Print.hex_digit (r % 16) ∷ []
        else r ∷ [])
unfolding is_short ascii
ascii_long r h = ground arith

short_cases :
    (r : ℕ)
    → is_short r ≡ true
    → (r ≡ b'"') ⊎ ((r ≡ b'\\') ⊎ ((r ≡ 8) ⊎ ((r ≡ 12) ⊎ ((r ≡ 10) ⊎ ((r ≡ 13) ⊎ (r ≡ 9))))))
unfolding is_short
short_cases r h = ground arith

long_piece :
    (r : ℕ) (s : Bytes)
    → r < 0x80
    → is_short r ≡ false
    → first_piece (ascii r ++ s) ≡ emit (encode_rune r) s
unfolding first_piece
long_piece r s h long = elim (Bool-cases (ltb r 0x20 || r == b'<' || r == b'>' || r == b'&')) [
  | inl control ↦ rw (ascii_long r long, control) (control_piece r s h)
  | inr shown ↦
      rw (ascii_long r long, shown)
        (unfold is_short in
          plain_piece r s h (ground arith) (λ e. ground arith) (λ e. ground arith))
]

ascii_piece : (r : ℕ) (s : Bytes) → r < 0x80 → first_piece (ascii r ++ s) ≡ emit (encode_rune r) s
unfolding first_piece ascii piece escape encode_rune
ascii_piece r s h = elim (Bool-cases (is_short r)) [
  | inl short ↦ elim (short_cases r short) [
    | inl e ↦ rw e refl
    | inr (inl e) ↦ rw e refl
    | inr (inr (inl e)) ↦ rw e refl
    | inr (inr (inr (inl e))) ↦ rw e refl
    | inr (inr (inr (inr (inl e)))) ↦ rw e refl
    | inr (inr (inr (inr (inr (inl e))))) ↦ rw e refl
    | inr (inr (inr (inr (inr (inr e))))) ↦ rw e refl
  ]
  | inr long ↦ long_piece r s h long
]

beyond_read :
    (r a : ℕ) (s t : Bytes)
    → ltb a 0x80 ≡ false
    → next_rune a t ≡ (some r, s)
    → piece a t ≡ emit (encode_rune r) s
unfolding piece plain
beyond_read r a s t beyond read = ground (arith, read)

beyond_piece :
    (r : ℕ) (s : Bytes)
    → IsRune r
    → 0x80 ≤ r
    → first_piece (encode_rune r ++ s) ≡ emit (encode_rune r) s
unfolding first_piece
beyond_piece r s valid beyond =
    let (a, t, spelled, read) = next_rune-encode_rune r s valid in
    rw spelled (beyond_read r a s t (first_byte r a s t (ground arith) spelled) read)

-- The two separators that are escaped, or the rune itself.
text_piece :
    (r : ℕ) (s : Bytes)
    → IsRune r
    → 0x80 ≤ r
    → first_piece (rune_text (some r) ++ s) ≡ emit (encode_rune r) s
unfolding rune_text
text_piece r s valid beyond = elim (Bool-cases (r == 0x2028)) [
  | inl e ↦
      rw ((==_iff r 0x2028).0 e)
        (unfold first_piece piece escape unicode_escape hex_four hex_digit encode_rune in refl)
  | inr other ↦ elim (Bool-cases (r == 0x2029)) [
    | inl e ↦
        rw ((==_iff r 0x2029).0 e)
          (unfold first_piece piece escape unicode_escape hex_four hex_digit encode_rune in refl)
    | inr other' ↦ rw (other, other') (beyond_piece r s valid beyond)
  ]
]

rune_piece :
    (r : ℕ) (s : Bytes) → IsRune r → first_piece (printed_rune r ++ s) ≡ emit (encode_rune r) s
unfolding printed_rune
rune_piece r s valid = elim (Bool-cases (ltb r 0x80)) [
  | inl small ↦ rw small (ascii_piece r s (ltb→lt r 0x80 small))
  | inr beyond ↦ rw beyond (text_piece r s valid (ground arith))
]

string_emit :
    (f : ℕ) (t x rest u rest' : Bytes)
    → first_piece t ≡ emit x rest
    → string f rest ≡ some (u, rest')
    → string (suc f) t ≡ some (x ++ u, rest')
unfolding string first_piece
string_emit f [] x rest u rest' h k = ground arith
string_emit f (c ∷ t) x rest u rest' h k = rw (h, string) (rw k refl)

-- The printed form of a text, up to the closing quote, is read as the text.
pub string-printed :
    (rs : List ℕ) (f : ℕ) (rest : Bytes)
    → All IsRune rs
    → length rs < f
    → string f (printed rs ++ b'"' ∷ rest) ≡ some (encode_runes rs, rest)
unfolding printed encode_runes
string-printed rs zero rest valid fits = absurd (omega arith)
string-printed [] (suc f) rest _ fits = unfold string piece in refl
string-printed (r ∷ rs) (suc f) rest (valid, valids) fits =
    rw (append_assoc (printed_rune r) (printed rs) (b'"' ∷ rest)) (
      string_emit f _ (encode_rune r) (printed rs ++ b'"' ∷ rest) (encode_runes rs) rest
        (rune_piece r _ valid) (string-printed rs f rest valids (omega arith)))

printed_rune_pos : (r : ℕ) → 0 < length (printed_rune r)
unfolding printed_rune ascii rune_text encode_rune
printed_rune_pos r = ground arith

pub length-printed : (rs : List ℕ) → length rs ≤ length (printed rs)
unfolding printed
length-printed [] = omega arith
length-printed (r ∷ rs) =
    omega
      (arith, length-append (printed_rune r) (printed rs), printed_rune_pos r, length-printed rs)
