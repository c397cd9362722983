-- ===== src/Utf8/Space.antt =====
-- `strings.TrimSpace`: white space as `unicode.IsSpace` has it, cut off at both ends.
use lockping_agent.Prelude.{
  ℕ, zero, suc, ◌-◌, Bool, ◌||◌, [], ◌∷◌, ◌++◌, ◌≡◌, refl, Bytes, codes, length, take, ◌==◌,
  if◌then◌else◌,
}
use lockping_agent.Utf8.{
  in_range, next_rune, rune_of, two, three, four, second_of_three, second_of_four, is_continuation,
}

is_space : ℕ → Bool
is_space r =
    in_range 9 13 r
    || r == 32
    || r == 0x85
    || r == 0xa0
    || r == 0x1680
    || in_range 0x2000 0x200a r
    || in_range 0x2028 0x2029 r
    || r == 0x202f
    || r == 0x205f
    || r == 0x3000

-- Each round takes a rune, of one byte at least.
trim_left : ℕ → Bytes → Bytes
trim_left zero s = s
trim_left (suc f) [] = []
trim_left (suc f) (a ∷ s) =
    let (r, rest) = next_rune a s in
    let trimmed = trim_left f rest in if is_space (rune_of r) then trimmed else a ∷ s

trim_right : ℕ → Bytes → Bytes
trim_right zero s = s
trim_right (suc f) [] = []
trim_right (suc f) (a ∷ s) =
    let (r, rest) = next_rune a s in
    let rune = take (suc (length s) - length rest) (a ∷ s) in
    elim (trim_right f rest) [
      | [] ↦ if is_space (rune_of r) then [] else rune
      | b ∷ kept ↦ rune ++ b ∷ kept
    ]

unfoldable pub trim_space : Bytes → Bytes
unfolding trim_left trim_right is_space next_rune two three four second_of_three second_of_four
    is_continuation
trim_space s = let t = trim_left (length s) s in trim_right (length t) t

trim_space_line : trim_space (codes " ab c\n" ++ (0xe2 ∷ 0x80 ∷ 0x83 ∷ [])) ≡ codes "ab c"
unfolding trim_space
trim_space_line = refl
