-- ===== src/Json/Print/Decimal.antt =====
-- The printed form of a natural number: a numeral, without a leading zero.
use lockping_agent.Prelude.{
  ℕ, zero, suc, ◌*◌, ◌/◌, ◌≤◌, ◌<◌, [], ◌∷◌, inl, inr, arith, All, Bytes, ◌==◌, Bool-cases,
}
use lockping_agent.Json.Print.{digits, print_ℕ}

abbrev pub IsDigit : ℕ → Type 0
IsDigit d = (b'0' ≤ d) × (d ≤ b'9')

-- A zero, or digits of which the first is none.
pub data IsNumeral : Bytes → Type 0 where
  nought : IsNumeral (b'0' ∷ [])
  leading : {c : ℕ} {ds : Bytes} → b'1' ≤ c → c ≤ b'9' → All IsDigit ds → IsNumeral (c ∷ ds)

-- So many digits are enough below this number.
unfoldable pub power_of_ten : ℕ → ℕ
power_of_ten zero = 1
power_of_ten (suc f) = 10 * power_of_ten f

pub below_tenth : (f n : ℕ) → n < power_of_ten (suc f) → n / 10 < power_of_ten f
unfolding power_of_ten
below_tenth f n small = omega arith

digits-IsNumeral :
    (f n : ℕ) (out : Bytes)
    → 0 < n
    → n < power_of_ten f
    → All IsDigit out
    → IsNumeral (digits f n out)
unfolding digits
digits-IsNumeral zero n out pos small h = absurd (unfold power_of_ten in omega arith)
digits-IsNumeral (suc f) n out pos small h = elim (Bool-cases (n / 10 == 0)) [
  | inl last ↦ rw last (leading (ground arith) (ground arith) h)
  | inr more ↦ rw more (
      digits-IsNumeral f (n / 10) _ (ground arith) (below_tenth f n small)
        ((omega arith, omega arith), h))
]

pub print_ℕ-IsNumeral : (n : ℕ) → n < power_of_ten 20 → IsNumeral (print_ℕ n)
print_ℕ-IsNumeral zero small = unfold print_ℕ digits in nought
print_ℕ-IsNumeral (suc n) small =
    unfold print_ℕ in digits-IsNumeral 20 (suc n) [] (omega arith) small tt
