-- ===== src/Json/Parse/Text/Valid.antt =====
-- What a string literal is read as is valid UTF-8, whatever bytes it is made of.
use lockping_agent.Prelude.{
  ℕ, zero, suc, ◌<◌, ◌||◌, [], ◌∷◌, ◌++◌, Option, none, some, ◌≡◌, refl, ap, ◌∙◌, sym, inl, inr,
  arith, subst, Bytes, Option-cases, Bool-cases, ◌==◌, ltb,
}
use lockping_agent.Utf8.{next_rune, rune_of, encode_rune, encode_runes, in_range, rune_error}
use lockping_agent.Utf8.RoundTrip.{IsRune, IsText}
use lockping_agent.Json.Parse.Text.{
  hex_digit, hex_four, Piece, close, emit, bad_piece, low_half, unicode_escape, escape, plain,
  piece, string,
}
use lockping_agent.Utf8.Read.{next_rune-IsRune}

hex_digit_small : (c : ℕ) {v : ℕ} → hex_digit c ≡ some v → v < 16
unfolding hex_digit
hex_digit_small c h = ground arith

hex_four_small : (s : Bytes) {r : ℕ} {rest : Bytes} → hex_four s ≡ some (r, rest) → r < 0x10000
unfolding hex_four
hex_four_small [] h = ground arith
hex_four_small (a ∷ []) h = ground arith
hex_four_small (a ∷ b ∷ []) h = ground arith
hex_four_small (a ∷ b ∷ c ∷ []) h = ground arith
hex_four_small (a ∷ b ∷ c ∷ d ∷ s) h = elim (Option-cases (hex_digit a)) [
  | inl bad ↦ absurd (ground (arith, bad))
  | inr (w, hw) ↦ elim (Option-cases (hex_digit b)) [
    | inl bad ↦ absurd (ground (arith, hw, bad))
    | inr (x, hx) ↦ elim (Option-cases (hex_digit c)) [
      | inl bad ↦ absurd (ground (arith, hw, hx, bad))
      | inr (y, hy) ↦ elim (Option-cases (hex_digit d)) [
        | inl bad ↦ absurd (ground (arith, hw, hx, hy, bad))
        | inr (z, hz) ↦ ground (
          arith,
          hw,
          hx,
          hy,
          hz,
          hex_digit_small a hw,
          hex_digit_small b hx,
          hex_digit_small c hy,
          hex_digit_small d hz,
        )
      ]
    ]
  ]
]

-- A piece of text is one rune.
IsRunePiece : Piece → Type 0
IsRunePiece (close _) = Unit {0}
IsRunePiece bad_piece = Unit {0}
IsRunePiece (emit t _) = (r : ℕ) × IsRune r × (encode_rune r ≡ t)

ascii_piece : (c : ℕ) (s : Bytes) → c < 0x80 → IsRunePiece (emit (c ∷ []) s)
unfolding IsRunePiece encode_rune
ascii_piece c s small = (c, inl (omega arith), ground arith)

rune_piece : (r : ℕ) (s : Bytes) → IsRune r → IsRunePiece (emit (encode_rune r) s)
unfolding IsRunePiece
rune_piece r s valid = (r, valid, refl)

low_half-IsRune :
    (r : ℕ) (s : Bytes) {r' : ℕ} {rest : Bytes} → low_half r s ≡ some (r', rest) → IsRune r'
unfolding low_half
low_half-IsRune r [] h = ground arith
low_half-IsRune r (a ∷ []) h = ground arith
low_half-IsRune r (a ∷ b ∷ s) h = ground arith

unicode_escape-IsRunePiece : (s : Bytes) → IsRunePiece (unicode_escape s)
unfolding unicode_escape
unicode_escape-IsRunePiece s = elim (Option-cases (hex_four s)) [
  | inl bad ↦ rw (bad, unicode_escape) (unfold IsRunePiece in tt)
  | inr ((r, rest), read) ↦ elim (Bool-cases (in_range 0xd800 0xdfff r)) [
    | inr plain' ↦
        rw (read, unicode_escape, plain')
          (rune_piece r rest (ground (arith, plain', hex_four_small s read)))
    | inl half ↦ elim (Option-cases (low_half r rest)) [
      | inl alone ↦
          rw (read, unicode_escape, half, alone) (rune_piece rune_error rest (ground arith))
      | inr ((r', rest'), both) ↦
          rw (read, unicode_escape, half, both) (rune_piece r' rest' (low_half-IsRune r rest both))
    ]
  ]
]

escape-IsRunePiece : (s : Bytes) → IsRunePiece (escape s)
unfolding escape
escape-IsRunePiece [] = unfold IsRunePiece in tt
escape-IsRunePiece (c ∷ s) = elim (Bool-cases (c == b'"' || c == b'\\' || c == b'/')) [
  | inl is ↦ rw (is, escape) (ascii_piece c s (ground (arith, is)))
  | inr a ↦ elim (Bool-cases (c == b'b')) [
    | inl is ↦ rw (a, is, escape) (ascii_piece 8 s (omega arith))
    | inr b ↦ elim (Bool-cases (c == b'f')) [
      | inl is ↦ rw (a, b, is, escape) (ascii_piece 12 s (omega arith))
      | inr d ↦ elim (Bool-cases (c == b'n')) [
        | inl is ↦ rw (a, b, d, is, escape) (ascii_piece 10 s (omega arith))
        | inr e ↦ elim (Bool-cases (c == b'r')) [
          | inl is ↦ rw (a, b, d, e, is, escape) (ascii_piece 13 s (omega arith))
          | inr f ↦ elim (Bool-cases (c == b't')) [
            | inl is ↦ rw (a, b, d, e, f, is, escape) (ascii_piece 9 s (omega arith))
            | inr g ↦ elim (Bool-cases (c == b'u')) [
              | inl is ↦ rw (a, b, d, e, f, g, is, escape) (unicode_escape-IsRunePiece s)
              | inr i ↦ rw (a, b, d, e, f, g, i, escape) (unfold IsRunePiece in tt)
            ]
          ]
        ]
      ]
    ]
  ]
]

plain-IsRunePiece : (c : ℕ) (s : Bytes) → IsRunePiece (plain c s)
unfolding plain
plain-IsRunePiece c s =
    rune_piece (rune_of (next_rune c s).0) (next_rune c s).1 (next_rune-IsRune c s)

piece-IsRunePiece : (c : ℕ) (s : Bytes) → IsRunePiece (piece c s)
unfolding piece
piece-IsRunePiece c s = elim (Bool-cases (c == b'"')) [
  | inl is ↦ rw (is, piece) (unfold IsRunePiece in tt)
  | inr a ↦ elim (Bool-cases (ltb c 0x20)) [
    | inl is ↦ rw (a, is, piece) (unfold IsRunePiece in tt)
    | inr b ↦ elim (Bool-cases (c == b'\\')) [
      | inl is ↦ rw (a, b, is, piece) (escape-IsRunePiece s)
      | inr d ↦ rw (a, b, d, piece) (plain-IsRunePiece c s)
    ]
  ]
]

after_piece : Piece → ℕ → Option (Bytes × Bytes)
after_piece (close rest) f = some ([], rest)
after_piece bad_piece f = none
after_piece (emit t rest) f = elim (string f rest) [
  | none ↦ none
  | some (u, rest') ↦ some (t ++ u, rest')
]

string_step : (f c : ℕ) (s : Bytes) → string (suc f) (c ∷ s) ≡ after_piece (piece c s) f
unfolding string after_piece
string_step f c s =
    elim (piece c s)
      as (λ p.
        (elim p as (λ _. Option (Bytes × Bytes)) [
          | close rest ↦ some ([], rest)
          | bad_piece ↦ none
          | emit t rest ↦ elim (string f rest) [
            | none ↦ none
            | some (u, rest') ↦ some (t ++ u, rest')
          ]
        ])
        ≡ after_piece p f) [ close rest ↦ refl | bad_piece ↦ refl | emit t rest ↦ refl ]

text_inj :
    (t t' rest rest' : Bytes)
    → ◌≡◌ {A = Option (Bytes × Bytes)} (some (t, rest)) (some (t', rest'))
    → t ≡ t'
text_inj t t' rest rest' h = cc

rune_first : (r : ℕ) {t u : Bytes} → IsRune r → encode_rune r ≡ t → IsText u → IsText (t ++ u)
unfolding encode_runes
rune_first r {t} valid spelled (rs, valids, same) =
    (r ∷ rs, (valid, valids), ap (λ x. x ++ encode_runes rs) spelled ∙ ap (λ x. t ++ x) same)

piece-IsText :
    (f : ℕ) (p : Piece) {t rest : Bytes}
    → ((s u end' : Bytes) → string f s ≡ some (u, end') → IsText u)
    → IsRunePiece p
    → after_piece p f ≡ some (t, rest)
    → IsText t
unfolding after_piece encode_runes IsRunePiece
piece-IsText f (close s) {t} {rest} ih valid h =
    subst IsText (text_inj [] t s rest h) ([], tt, refl)
piece-IsText f bad_piece ih valid h = absurd (ground arith)
piece-IsText f (emit u s) {t} {rest} ih (r, valid, spelled) h = elim (Option-cases (string f s)) [
  | inl bad ↦ absurd (ground (arith, bad))
  | inr ((u', rest'), read) ↦
      subst IsText (text_inj (u ++ u') t rest' rest (ground (arith, read)))
        (rune_first r valid spelled (ih s u' rest' read))
]

-- The text of a string literal is valid UTF-8.
pub string-IsText : (f : ℕ) (s : Bytes) {t rest : Bytes} → string f s ≡ some (t, rest) → IsText t
string-IsText zero s h = absurd (unfold string in ground arith)
string-IsText (suc f) [] h = absurd (unfold string in ground arith)
string-IsText (suc f) (c ∷ s) h =
    piece-IsText f (piece c s) (λ s' u end' read. string-IsText f s' read) (piece-IsRunePiece c s)
      (sym (string_step f c s) ∙ h)
