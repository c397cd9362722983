-- ===== src/Json/Parse/Number/Numeral.antt =====
-- The reader of numbers takes a printed integer whole.
use lockping_agent.Prelude.{suc, [], ◌∷◌, ◌++◌, some, ◌≡◌, refl, ap, arith, All, Bytes, append-nil}
use lockping_agent.Prelude.Int.{ℤ, pos, negsuc}
use lockping_agent.Json.Print.{print_int}
use lockping_agent.Json.Print.Decimal.{IsDigit, IsNumeral, nought, leading, print_ℕ-IsNumeral}
use lockping_agent.Json.Struct.Integers.{IsInt64, enough}
use lockping_agent.Json.Parse.Number.{digits, whole, fraction, exponent, unsigned, number}

-- What follows a member's value.
pub data IsBreak : Bytes → Type 0 where
  comma : (s : Bytes) → IsBreak (b',' ∷ s)
  brace : (s : Bytes) → IsBreak (b'}' ∷ s)
  line : (s : Bytes) → IsBreak (10 ∷ s)

digits-append : (ds rest : Bytes) → All IsDigit ds → IsBreak rest → digits (ds ++ rest) ≡ (ds, rest)
unfolding digits
digits-append [] rest _ (comma s) = refl
digits-append [] rest _ (brace s) = refl
digits-append [] rest _ (line s) = refl
digits-append (d ∷ ds) rest ((lo, hi), h) b = ground (arith, digits-append ds rest h b)

whole-numeral :
    {ds : Bytes} (rest : Bytes) → IsNumeral ds → IsBreak rest → whole (ds ++ rest) ≡ some (ds, rest)
unfolding whole digits
whole-numeral rest nought b = refl
whole-numeral rest (leading {c} {ds} lo hi h) b = ground (arith, digits-append ds rest h b)

no_fraction : {rest : Bytes} → IsBreak rest → fraction rest ≡ some ([], rest)
unfolding fraction
no_fraction (comma s) = refl
no_fraction (brace s) = refl
no_fraction (line s) = refl

no_exponent : {rest : Bytes} → IsBreak rest → exponent rest ≡ some ([], rest)
unfolding exponent
no_exponent (comma s) = refl
no_exponent (brace s) = refl
no_exponent (line s) = refl

unsigned-numeral :
    {ds : Bytes} (sign rest : Bytes)
    → IsNumeral ds
    → IsBreak rest
    → unsigned sign (ds ++ rest) ≡ some (sign ++ ds, rest)
unfolding unsigned
unsigned-numeral {ds} sign rest n b =
    rw (whole-numeral rest n b, unsigned)
      (rw (no_fraction b) (rw (no_exponent b) (ap (λ t. some (sign ++ t, rest)) (append-nil ds))))

positive :
    {ds : Bytes} (rest : Bytes)
    → IsNumeral ds
    → IsBreak rest
    → number (ds ++ rest) ≡ some (ds, rest)
unfolding number
positive rest nought b = unsigned-numeral [] rest nought b
positive rest (leading {c} {ds} lo hi h) b =
    ground (arith, unsigned-numeral [] rest (leading lo hi h) b)

-- An integer of 64 bits, with what follows a value behind it.
pub number-print_int :
    (n : ℤ) (rest : Bytes)
    → IsInt64 n
    → IsBreak rest
    → number (print_int n ++ rest) ≡ some (print_int n, rest)
unfolding print_int
number-print_int (pos n) rest small b =
    positive rest (print_ℕ-IsNumeral n (enough n (omega arith))) b
number-print_int (negsuc n) rest small b =
    unfold number in
    unsigned-numeral (b'-' ∷ []) rest (print_ℕ-IsNumeral (suc n) (enough (suc n) (omega arith))) b
