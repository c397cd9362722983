-- ===== src/Json/Print/Printed.antt =====
-- The printed form of a text, rune by rune.
use lockping_agent.Prelude.{
  ℕ, zero, suc, ◌≤◌, List, [], ◌∷◌, ◌++◌, some, ◌≡◌, refl, ap, inl, inr, arith, All, Bytes, length,
  length-append, ltb, if◌then◌else◌, Bool-cases, false,
}
use lockping_agent.Utf8.{encode_rune, encode_runes}
use lockping_agent.Utf8.RoundTrip.{IsRune, next_rune-encode_rune, encode_rune_pos}
use lockping_agent.Json.Print.{ascii, rune_text, piece, body, print_string}

-- What is printed for a rune.
unfoldable pub printed_rune : ℕ → Bytes
unfolding ascii rune_text
printed_rune r = if ltb r 0x80 then ascii r else rune_text (some r)

unfoldable pub printed : List ℕ → Bytes
unfolding printed_rune
printed [] = []
printed (r ∷ rs) = printed_rune r ++ printed rs

-- The first byte of a rune beyond ASCII is beyond ASCII.
pub first_byte :
    (r a : ℕ) (s t : Bytes) → ltb r 0x80 ≡ false → encode_rune r ++ s ≡ a ∷ t → ltb a 0x80 ≡ false
unfolding encode_rune
first_byte r a s t beyond h = ground arith

piece-encode_rune :
    (r : ℕ) (s : Bytes)
    → IsRune r
    → (a : ℕ) × (t : Bytes) × (encode_rune r ++ s ≡ a ∷ t) × (piece a t ≡ (printed_rune r, s))
unfolding piece printed_rune
piece-encode_rune r s valid = elim (Bool-cases (ltb r 0x80)) [
  | inl small ↦ (r, s, (unfold encode_rune in rw small refl), rw small refl)
  | inr beyond ↦
      let (a, t, spelled, read) = next_rune-encode_rune r s valid in
      (a, t, spelled, rw (beyond, first_byte r a s t beyond spelled, read) refl)
]

body-encode_runes :
    (rs : List ℕ) (f : ℕ)
    → All IsRune rs
    → length (encode_runes rs) ≤ f
    → body f (encode_runes rs) ≡ printed rs
unfolding body encode_runes printed
body-encode_runes [] zero _ _ = refl
body-encode_runes [] (suc f) _ _ = refl
body-encode_runes (r ∷ rs) zero valid fits =
    absurd (omega (arith, length-append (encode_rune r) (encode_runes rs), encode_rune_pos r))
body-encode_runes (r ∷ rs) (suc f) (valid, valids) fits =
    let (a, t, spelled, made) = piece-encode_rune r (encode_runes rs) valid in
    let size = length-append (encode_rune r) (encode_runes rs) in
    rw (spelled, body, made)
      (ap (λ l. printed_rune r ++ l)
        (body-encode_runes rs f valids (omega (arith, size, encode_rune_pos r))))

-- A text of valid UTF-8 is printed as the forms of its runes, in quotes.
pub print_string-encode_runes :
    (rs : List ℕ) → All IsRune rs → print_string (encode_runes rs) ≡ b'"' ∷ printed rs ++ b'"' ∷ []
unfolding print_string
print_string-encode_runes rs valid =
    ap (λ l. b'"' ∷ l ++ b'"' ∷ []) (body-encode_runes rs _ valid (omega arith))
