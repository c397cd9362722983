-- ===== src/Json/Parse/Number.antt =====
-- Number literals, by the grammar.
pub mod Numeral
use lockping_agent.Prelude.{ℕ, ◌||◌, [], ◌∷◌, ◌++◌, Option, none, some, Bytes, ◌==◌, if◌then◌else◌}
use lockping_agent.Utf8.{in_range}

-- Numbers: the literal by the grammar, and what follows it.
digits : Bytes → Bytes × Bytes
digits [] = ([], [])
digits (c ∷ s) =
    let (ds, rest) = digits s in if in_range b'0' b'9' c then (c ∷ ds, rest) else ([], c ∷ s)

-- A leading zero stands alone.
whole : Bytes → Option (Bytes × Bytes)
whole [] = none
whole (c ∷ s) =
    if c == b'0'
    then some (c ∷ [], s)
    else if in_range b'1' b'9' c
    then some (digits (c ∷ s))
    else none

-- `e` followed by at least one digit.
some_digits : Bytes → Bytes → Option (Bytes × Bytes)
some_digits lead s =
    let (ds, rest) = digits s in elim ds [ [] ↦ none | d ∷ ds' ↦ some (lead ++ (d ∷ ds'), rest) ]

fraction : Bytes → Option (Bytes × Bytes)
fraction [] = some ([], [])
fraction (c ∷ s) = if c == b'.' then some_digits (c ∷ []) s else some ([], c ∷ s)

signed : ℕ → Bytes → Option (Bytes × Bytes)
signed e [] = none
signed e (c ∷ s) =
    if c == b'+' || c == b'-' then some_digits (e ∷ c ∷ []) s else some_digits (e ∷ []) (c ∷ s)

exponent : Bytes → Option (Bytes × Bytes)
exponent [] = some ([], [])
exponent (c ∷ s) = if c == b'e' || c == b'E' then signed c s else some ([], c ∷ s)

unsigned : Bytes → Bytes → Option (Bytes × Bytes)
unsigned sign s = elim (whole s) [
  | none ↦ none
  | some (w, r) ↦ elim (fraction r) [
    | none ↦ none
    | some (x, r') ↦ elim (exponent r') [
      | none ↦ none
      | some (y, r'') ↦ some (sign ++ (w ++ (x ++ y)), r'')
    ]
  ]
]

unfoldable pub number : Bytes → Option (Bytes × Bytes)
unfolding unsigned exponent signed fraction some_digits whole digits
number [] = none
number (c ∷ s) = if c == b'-' then unsigned (c ∷ []) s else unsigned [] (c ∷ s)
