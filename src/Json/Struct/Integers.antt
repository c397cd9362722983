-- ===== src/Json/Struct/Integers.antt =====
-- `ParseInt` of a printed integer.
use lockping_agent.Prelude.{
  ℕ, zero, suc, ◌+◌, ◌-◌, ◌*◌, ◌/◌, ◌%◌, ◌^◌, ◌≤◌, ◌<◌, [], ◌∷◌, some, ◌≡◌, true, refl, ap, ◌∙◌,
  arith, Bytes, ◌==◌, Bool-cases, inl, inr,
}
use lockping_agent.Prelude.Int.{ℤ, pos, negsuc}
use lockping_agent.Utf8.{in_range}
use lockping_agent.Json.Print.{digits, print_ℕ, print_int}
use lockping_agent.Json.Print.Decimal.{
  IsNumeral, nought, leading, power_of_ten, below_tenth, print_ℕ-IsNumeral,
}
use lockping_agent.Json.Struct.{decimal, in_int64, parse_int64}

decimal_digit :
    (m n d : ℕ) (s : Bytes) → d < 10 → m * 10 + d ≡ n → decimal m ((b'0' + d) ∷ s) ≡ decimal n s
unfolding decimal
decimal_digit m n d s small e =
    let same : m * 10 + (b'0' + d - b'0') ≡ n = omega arith in
    let digit : in_range b'0' b'9' (b'0' + d) ≡ true = ground arith in rw (digit, same)

decimal-digits :
    (f n : ℕ) (out : Bytes) → n < power_of_ten f → decimal 0 (digits f n out) ≡ decimal n out
unfolding digits
decimal-digits zero n out small = ap (λ k. decimal k out) (unfold power_of_ten in omega arith)
decimal-digits (suc f) n out small = elim (Bool-cases (n / 10 == 0)) [
  | inl last ↦ rw last (decimal_digit 0 n (n % 10) out (omega arith) (ground arith))
  | inr more ↦ rw more (
      decimal-digits f (n / 10) _ (below_tenth f n small)
      ∙ decimal_digit (n / 10) n (n % 10) out (omega arith) (omega arith))
]

decimal-print_ℕ : (n : ℕ) → n < power_of_ten 20 → decimal 0 (print_ℕ n) ≡ some n
decimal-print_ℕ n small =
    unfold print_ℕ in (decimal-digits 20 n [] small ∙ (unfold decimal in refl))

-- The range of an `int64`.
abbrev pub IsInt64 : ℤ → Type 0
IsInt64 (pos n) = n < 2 ^ 63
IsInt64 (negsuc n) = n < 2 ^ 63

unsigned_int :
    {ds : Bytes} (n : ℕ)
    → IsNumeral ds
    → decimal 0 ds ≡ some n
    → n < 2 ^ 63
    → parse_int64 ds ≡ some (pos n)
unfolding parse_int64 in_int64
unsigned_int n nought h small = unfold decimal in ground arith
unsigned_int n (leading {c} {ds} lo hi _) h small = ground (arith, h)

in_range_of : (n : ℕ) → n < 2 ^ 63 → in_int64 true (suc n) ≡ some (negsuc n)
unfolding in_int64
in_range_of n small = ground arith

negative_int :
    (ds : Bytes) (n : ℕ)
    → decimal 0 ds ≡ some (suc n)
    → n < 2 ^ 63
    → parse_int64 (b'-' ∷ ds) ≡ some (negsuc n)
unfolding parse_int64 in_int64
negative_int ds n h small = rw h (in_range_of n small)

pub enough : (n : ℕ) → n ≤ 2 ^ 63 → n < power_of_ten 20
unfolding power_of_ten
enough n small = omega arith

-- An integer of 64 bits is read back.
pub parse_int64-print_int : (n : ℤ) → IsInt64 n → parse_int64 (print_int n) ≡ some n
unfolding print_int
parse_int64-print_int (pos n) small =
    unsigned_int n (print_ℕ-IsNumeral n (enough n (omega arith)))
      (decimal-print_ℕ n (enough n (omega arith))) small
parse_int64-print_int (negsuc n) small =
    negative_int _ n (decimal-print_ℕ (suc n) (enough (suc n) (omega arith))) small
