-- ===== src/Utf8/Read.antt =====
-- The runes that are read from any bytes are valid.
use lockping_agent.Prelude.{
  ℕ, ◌+◌, ◌*◌, ◌<◌, ◌≤◌, ◌-◌, ◌&&◌, [], ◌∷◌, ◌≡◌, ◌⊎◌, inl, inr, arith, Bytes, Bool-cases, true,
  ltb,
}
use lockping_agent.Utf8.{
  next_rune, rune_of, in_range, two, three, four, second_of_three, second_of_four, is_continuation,
}
use lockping_agent.Utf8.RoundTrip.{IsRune}

two-IsRune : (a : ℕ) (s : Bytes) → a ≤ 0xdf → IsRune (rune_of (two a s).0)
unfolding two is_continuation
two-IsRune a [] h = ground arith
two-IsRune a (b ∷ s) h = ground arith

-- The second byte keeps three bytes out of the surrogates.
middle :
    (a b : ℕ)
    → a ≤ 0xef
    → second_of_three a b ≡ true
    → (b ≤ 0xbf) × ((a < 0xed) ⊎ (((a ≡ 0xed) × (b ≤ 0x9f)) ⊎ ((0xed < a) × (0x80 ≤ b))))
unfolding second_of_three is_continuation
middle a b h k = (ground arith, ground arith)

three_small :
    (a b c : ℕ)
    → a ≤ 0xef
    → (b ≤ 0xbf) × ((a < 0xed) ⊎ (((a ≡ 0xed) × (b ≤ 0x9f)) ⊎ ((0xed < a) × (0x80 ≤ b))))
    → c ≤ 0xbf
    → IsRune ((a - 0xe0) * 4096 + (b - 0x80) * 64 + (c - 0x80))
three_small a b c h (k, inl low) l = inl (omega arith)
three_small a b c h (k, inr (inl (is, low))) l = inl (omega arith)
three_small a b c h (k, inr (inr (above, _))) l = inr (omega arith, omega arith)

three-IsRune : (a : ℕ) (s : Bytes) → a ≤ 0xef → IsRune (rune_of (three a s).0)
unfolding three is_continuation
three-IsRune a [] h = ground arith
three-IsRune a (b ∷ []) h = ground arith
three-IsRune a (b ∷ c ∷ s) h = elim (Bool-cases (second_of_three a b && in_range 0x80 0xbf c)) [
  | inr bad ↦ rw (bad, three) (ground arith)
  | inl good ↦ rw (good, three) (three_small a b c h (middle a b h (ground arith)) (ground arith))
]

top :
    (a b : ℕ)
    → 0xf0 ≤ a
    → a ≤ 0xf4
    → second_of_four a b ≡ true
    → ((a ≡ 0xf0) × (0x90 ≤ b) × (b ≤ 0xbf))
      ⊎ (((0xf0 < a) × (a < 0xf4) × (b ≤ 0xbf)) ⊎ ((a ≡ 0xf4) × (b ≤ 0x8f)))
unfolding second_of_four is_continuation
top a b h k l = ground arith

four_small :
    (a b c d : ℕ)
    → ((a ≡ 0xf0) × (0x90 ≤ b) × (b ≤ 0xbf))
      ⊎ (((0xf0 < a) × (a < 0xf4) × (b ≤ 0xbf)) ⊎ ((a ≡ 0xf4) × (b ≤ 0x8f)))
    → c ≤ 0xbf
    → d ≤ 0xbf
    → IsRune ((a - 0xf0) * 262144 + (b - 0x80) * 4096 + (c - 0x80) * 64 + (d - 0x80))
four_small a b c d (inl (is, low, high)) l m = inr (omega arith, omega arith)
four_small a b c d (inr (inl (low, high, k))) l m = inr (omega arith, omega arith)
four_small a b c d (inr (inr (is, k))) l m = inr (omega arith, omega arith)

four-IsRune : (a : ℕ) (s : Bytes) → 0xf0 ≤ a → a ≤ 0xf4 → IsRune (rune_of (four a s).0)
unfolding four is_continuation
four-IsRune a [] h k = ground arith
four-IsRune a (b ∷ []) h k = ground arith
four-IsRune a (b ∷ c ∷ []) h k = ground arith
four-IsRune a (b ∷ c ∷ d ∷ s) h k =
    elim (Bool-cases (second_of_four a b && (in_range 0x80 0xbf c && in_range 0x80 0xbf d))) [
      | inr bad ↦ rw (bad, four) (ground arith)
      | inl good ↦
          rw (good, four)
            (four_small a b c d (top a b h k (ground arith)) (ground arith) (ground arith))
    ]

-- Whatever the bytes are, what is read is a rune.
pub next_rune-IsRune : (a : ℕ) (s : Bytes) → IsRune (rune_of (next_rune a s).0)
unfolding next_rune
next_rune-IsRune a s = elim (Bool-cases (ltb a 0x80)) [
  | inl small ↦ rw (small, next_rune) (inl (ground (arith, small)))
  | inr n ↦ elim (Bool-cases (in_range 0xc2 0xdf a)) [
    | inl is ↦ rw (n, is, next_rune) (two-IsRune a s (ground (arith, is)))
    | inr n' ↦ elim (Bool-cases (in_range 0xe0 0xef a)) [
      | inl is ↦ rw (n, n', is, next_rune) (three-IsRune a s (ground (arith, is)))
      | inr n'' ↦ elim (Bool-cases (in_range 0xf0 0xf4 a)) [
        | inl is ↦
            rw (n, n', n'', is, next_rune)
              (four-IsRune a s (ground (arith, is)) (ground (arith, is)))
        | inr n3 ↦ rw (n, n', n'', n3, next_rune) (inr (omega arith, omega arith))
      ]
    ]
  ]
]
