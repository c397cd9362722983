-- ===== src/Utf8.antt =====
-- UTF-8 as Go's `range` over a string and its conversion `string([]rune)` read and write it.
pub mod RoundTrip
pub mod Space
pub mod Read
use lockping_agent.Prelude.{
  ℕ, zero, suc, ◌+◌, ◌-◌, ◌*◌, ◌/◌, ◌%◌, Bool, ◌&&◌, ◌||◌, List, [], ◌∷◌, ◌++◌, Option, none, some,
  ◌≡◌, refl, Bytes, codes, length, ltb, leb, ◌==◌, if◌then◌else◌,
}

-- `utf8.RuneError`
abbrev pub rune_error : ℕ
rune_error = 0xfffd

abbrev pub in_range : ℕ → ℕ → ℕ → Bool
in_range lo hi b = leb lo b && leb b hi

unfoldable pub is_continuation : ℕ → Bool
is_continuation b = in_range 0x80 0xbf b

-- The bytes that may follow a first byte of three and of four: no overlong forms, no surrogates,
-- nothing above U+10FFFF.
unfoldable pub second_of_three : ℕ → ℕ → Bool
second_of_three a b =
    if a == 0xe0
    then in_range 0xa0 0xbf b
    else if a == 0xed
    then in_range 0x80 0x9f b
    else is_continuation b

unfoldable pub second_of_four : ℕ → ℕ → Bool
second_of_four a b =
    if a == 0xf0
    then in_range 0x90 0xbf b
    else if a == 0xf4
    then in_range 0x80 0x8f b
    else is_continuation b

unfoldable pub two : ℕ → Bytes → Option ℕ × Bytes
two a [] = (none, [])
two a (b ∷ s) =
    if is_continuation b then (some ((a - 0xc0) * 64 + (b - 0x80)), s) else (none, b ∷ s)

unfoldable pub three : ℕ → Bytes → Option ℕ × Bytes
three a (b ∷ c ∷ s) =
    if second_of_three a b && is_continuation c
    then (some ((a - 0xe0) * 4096 + (b - 0x80) * 64 + (c - 0x80)), s)
    else (none, b ∷ c ∷ s)
three a s = (none, s)

unfoldable pub four : ℕ → Bytes → Option ℕ × Bytes
four a (b ∷ c ∷ d ∷ s) =
    if second_of_four a b && (is_continuation c && is_continuation d)
    then (some ((a - 0xf0) * 262144 + (b - 0x80) * 4096 + (c - 0x80) * 64 + (d - 0x80)), s)
    else (none, b ∷ c ∷ d ∷ s)
four a s = (none, s)

-- The rune that begins with byte `a`, and what follows it; `none` is an invalid byte, which is
-- passed over alone.
unfoldable pub next_rune : ℕ → Bytes → Option ℕ × Bytes
next_rune a s =
    if ltb a 0x80
    then (some a, s)
    else if in_range 0xc2 0xdf a
    then two a s
    else if in_range 0xe0 0xef a
    then three a s
    else if in_range 0xf0 0xf4 a
    then four a s
    else (none, s)

abbrev pub rune_of : Option ℕ → ℕ
rune_of none = rune_error
rune_of (some r) = r

runes_fuel : ℕ → Bytes → List ℕ
runes_fuel zero s = []
runes_fuel (suc f) [] = []
runes_fuel (suc f) (a ∷ s) = let (r, rest) = next_rune a s in rune_of r ∷ runes_fuel f rest

-- The runes that `for _, r := range s` goes through; each takes at least one byte.
unfoldable pub runes : Bytes → List ℕ
unfolding runes_fuel next_rune two three four second_of_three second_of_four is_continuation
runes s = runes_fuel (length s) s

-- `utf8.AppendRune`
unfoldable pub encode_rune : ℕ → Bytes
encode_rune r =
    if ltb r 0x80
    then r ∷ []
    else if ltb r 0x800
    then (0xc0 + r / 64) ∷ (0x80 + r % 64) ∷ []
    else if in_range 0xd800 0xdfff r || ltb 0x10ffff r
    then 0xef ∷ 0xbf ∷ 0xbd ∷ []
    else if ltb r 0x10000
    then (0xe0 + r / 4096) ∷ (0x80 + r / 64 % 64) ∷ (0x80 + r % 64) ∷ []
    else (0xf0 + r / 262144) ∷ (0x80 + r / 4096 % 64) ∷ (0x80 + r / 64 % 64) ∷ (0x80 + r % 64) ∷ []

-- `string(rs)`
unfoldable pub encode_runes : List ℕ → Bytes
unfolding encode_rune
encode_runes [] = []
encode_runes (r ∷ rs) = encode_rune r ++ encode_runes rs

runes_mixed :
    runes (0x41 ∷ 0xc3 ∷ 0xa9 ∷ 0xff ∷ 0xe2 ∷ 0x82 ∷ 0xac ∷ 0xe2 ∷ [])
    ≡ 0x41 ∷ 0xe9 ∷ rune_error ∷ 0x20ac ∷ rune_error ∷ []
unfolding runes
runes_mixed = refl
