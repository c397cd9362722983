-- ===== src/Utf8/RoundTrip.antt =====
-- Reading the runes of an encoded text gives them back.
use lockping_agent.Prelude.{
  ℕ, zero, suc, ◌+◌, ◌/◌, ◌%◌, ◌≤◌, ◌<◌, List, [], ◌∷◌, ◌++◌, Option, some, ◌≡◌, refl, ◌⊎◌, inl,
  inr, arith, ap, All, Bytes, length, length-append, ltb, Bool-cases,
}
use lockping_agent.Utf8.{
  two, three, four, second_of_three, second_of_four, is_continuation, next_rune, rune_of,
  runes_fuel, runes, encode_rune, encode_runes,
}

-- A Unicode scalar value.
abbrev pub IsRune : ℕ → Type 0
IsRune r = (r < 0xd800) ⊎ ((0xdfff < r) × (r ≤ 0x10ffff))

-- A text of valid UTF-8: the encoding of some runes.
abbrev pub IsText : Bytes → Type 0
IsText s = (rs : List ℕ) × All IsRune rs × (encode_runes rs ≡ s)

-- The first byte of an encoded rune, and the others.
pub next_rune-encode_rune :
    (r : ℕ) (s : Bytes)
    → IsRune r
    → (a : ℕ) × (t : Bytes) × (encode_rune r ++ s ≡ a ∷ t) × (next_rune a t ≡ (some r, s))
unfolding next_rune two three four second_of_three second_of_four is_continuation encode_rune
next_rune-encode_rune r s valid = elim (Bool-cases (ltb r 0x80)) [
  | inl one ↦ (r, s, rw one, rw one)
  | inr more ↦ elim (Bool-cases (ltb r 0x800)) [
    | inl two ↦ ((0xc0 + r / 64), ((0x80 + r % 64) ∷ s), rw (more, two), ground arith)
    | inr more2 ↦ elim (Bool-cases (ltb r 0x10000)) [
      | inl three ↦ (
        (0xe0 + r / 4096),
        ((0x80 + r / 64 % 64) ∷ (0x80 + r % 64) ∷ s),
        ground arith,
        ground arith,
      )
      | inr four ↦ (
        (0xf0 + r / 262144),
        ((0x80 + r / 4096 % 64) ∷ (0x80 + r / 64 % 64) ∷ (0x80 + r % 64) ∷ s),
        ground arith,
        ground arith,
      )
    ]
  ]
]

pub encode_rune_pos : (r : ℕ) → 0 < length (encode_rune r)
unfolding encode_rune
encode_rune_pos r = ground arith

runes_fuel-encode_runes :
    (rs : List ℕ) (f : ℕ)
    → All IsRune rs
    → length (encode_runes rs) ≤ f
    → runes_fuel f (encode_runes rs) ≡ rs
unfolding runes_fuel encode_runes
runes_fuel-encode_runes [] zero _ _ = refl
runes_fuel-encode_runes [] (suc f) _ _ = refl
runes_fuel-encode_runes (r ∷ rs) zero valid fits =
    absurd (omega (arith, length-append (encode_rune r) (encode_runes rs), encode_rune_pos r))
runes_fuel-encode_runes (r ∷ rs) (suc f) (valid, valids) fits =
    let (a, t, spelled, read) = next_rune-encode_rune r (encode_runes rs) valid in
    let size = length-append (encode_rune r) (encode_runes rs) in
    rw (spelled, runes_fuel, read)
      (ap (λ l. r ∷ l)
        (runes_fuel-encode_runes rs f valids (omega (arith, size, encode_rune_pos r))))

-- The runes of an encoded text are the runes that were encoded.
pub runes-encode_runes : (rs : List ℕ) → All IsRune rs → runes (encode_runes rs) ≡ rs
unfolding runes
runes-encode_runes rs valid = runes_fuel-encode_runes rs _ valid (omega arith)

-- A scalar value was read, and the rest is no longer than what was left.
abbrev Reads : Bytes → Option ℕ × Bytes → Type 0
Reads s (r, rest) = IsRune (rune_of r) × (length rest ≤ length s)

two_lem : (a : ℕ) (s : Bytes) → 0xc2 ≤ a → a ≤ 0xdf → Reads s (two a s)
unfolding two is_continuation
two_lem a [] lo hi = omega arith
two_lem a (b ∷ s) lo hi = ground arith

three_lem : (a : ℕ) (s : Bytes) → 0xe0 ≤ a → a ≤ 0xef → Reads s (three a s)
unfolding three second_of_three is_continuation
three_lem a [] lo hi = omega arith
three_lem a (b ∷ []) lo hi = omega arith
three_lem a (b ∷ c ∷ s) lo hi = ground arith

four_lem : (a : ℕ) (s : Bytes) → 0xf0 ≤ a → a ≤ 0xf4 → Reads s (four a s)
unfolding four second_of_four is_continuation
four_lem a [] lo hi = omega arith
four_lem a (b ∷ []) lo hi = omega arith
four_lem a (b ∷ c ∷ []) lo hi = omega arith
four_lem a (b ∷ c ∷ d ∷ s) lo hi = ground arith

next_rune_lem : (a : ℕ) (s : Bytes) → Reads s (next_rune a s)
unfolding next_rune
next_rune_lem a s = ground (arith, two_lem a s, three_lem a s, four_lem a s)

runes_fuel-IsRune : (f : ℕ) (s : Bytes) → All IsRune (runes_fuel f s)
unfolding runes_fuel
runes_fuel-IsRune zero s = tt
runes_fuel-IsRune (suc f) [] = tt
runes_fuel-IsRune (suc f) (a ∷ s) = ((next_rune_lem a s).0, runes_fuel-IsRune f (next_rune a s).1)

pub runes-IsRune : (s : Bytes) → All IsRune (runes s)
unfolding runes
runes-IsRune s = runes_fuel-IsRune (length s) s

-- More fuel changes nothing: the fuel is enough to read the whole string.
runes_fuel_enough :
    (f g : ℕ) (s : Bytes) → length s ≤ f → length s ≤ g → runes_fuel f s ≡ runes_fuel g s
unfolding runes_fuel
runes_fuel_enough zero zero s p q = refl
runes_fuel_enough zero (suc g) [] p q = refl
runes_fuel_enough zero (suc g) (a ∷ s) p q = absurd (omega arith)
runes_fuel_enough (suc f) zero [] p q = refl
runes_fuel_enough (suc f) zero (a ∷ s) p q = absurd (omega arith)
runes_fuel_enough (suc f) (suc g) [] p q = refl
runes_fuel_enough (suc f) (suc g) (a ∷ s) p q =
    let shorter = (next_rune_lem a s).1 in
    ap (λ l. rune_of (next_rune a s).0 ∷ l)
      (runes_fuel_enough f g (next_rune a s).1 (omega arith) (omega arith))

pub runes-cons :
    (a : ℕ) (s : Bytes) → runes (a ∷ s) ≡ rune_of (next_rune a s).0 ∷ runes (next_rune a s).1
unfolding runes runes_fuel
runes-cons a s =
    ap (λ l. rune_of (next_rune a s).0 ∷ l)
      (runes_fuel_enough (length s) _ (next_rune a s).1 (next_rune_lem a s).1 (omega arith))

-- A text of ASCII is the encoding of its own bytes.
unfoldable pub IsAscii : Bytes → Type 0
IsAscii s = All (λ c. c < 0x80) s

ascii_runes : (s : Bytes) → All (λ c. c < 0x80) s → All IsRune s × (encode_runes s ≡ s)
unfolding encode_runes encode_rune
ascii_runes [] h = (tt, refl)
ascii_runes (c ∷ s) (small, h) =
    let (valid, same) = ascii_runes s h in ((inl (omega arith), valid), ground (arith, same))

pub IsAscii-IsText : (s : Bytes) → IsAscii s → IsText s
unfolding IsAscii
IsAscii-IsText s h = let (valid, same) = ascii_runes s h in (s, valid, same)
