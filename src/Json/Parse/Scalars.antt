-- ===== src/Json/Parse/Scalars.antt =====
-- The parser reads back each kind of member's value that the printer writes.
use lockping_agent.Prelude.{
  ℕ, ◌<◌, Bool, true, false, List, [], ◌∷◌, ◌++◌, ◌≡◌, refl, ap, ◌∙◌, arith, All, Bytes, has_prefix,
  length, length-append, append_assoc,
}
use lockping_agent.Prelude.Int.{ℤ, pos, negsuc}
use lockping_agent.Utf8.{encode_runes}
use lockping_agent.Utf8.RoundTrip.{IsRune}
use lockping_agent.Json.{Value, bool, num, str}
use lockping_agent.Json.Print.{print_string, print_int, print_bool}
use lockping_agent.Json.Print.Printed.{printed, print_string-encode_runes}
use lockping_agent.Json.Print.Decimal.{IsNumeral, nought, leading, print_ℕ-IsNumeral}
use lockping_agent.Json.Struct.Integers.{IsInt64, enough}
use lockping_agent.Json.Parse.Text.Unquote.{string-printed, length-printed}
use lockping_agent.Json.Parse.Number.Numeral.{IsBreak, number-print_int}
use lockping_agent.Json.Parse.{
  is_space, skip_space, scalar, literal, number_lead, string_lead, lead_of,
}

-- The text is the value's, whatever may follow a value.
pub Reads : Bytes → Value → Type 0
Reads text v = (rest : Bytes) → IsBreak rest → lead_of (skip_space (text ++ rest)) ≡ scalar v rest

pub Reads-lead :
    (text : Bytes) {v : Value} (rest : Bytes)
    → Reads text v
    → IsBreak rest
    → lead_of (skip_space (text ++ rest)) ≡ scalar v rest
unfolding Reads
Reads-lead text rest h b = h rest b

pub print_bool-Reads : (b : Bool) → Reads (print_bool b) (bool b)
unfolding Reads lead_of skip_space is_space literal
print_bool-Reads true rest b = unfold has_prefix in refl
print_bool-Reads false rest b = unfold has_prefix in refl

string_lead-printed :
    (rs : List ℕ) (rest : Bytes)
    → All IsRune rs
    → string_lead (printed rs ++ b'"' ∷ rest) ≡ scalar (str (encode_runes rs)) rest
unfolding string_lead
string_lead-printed rs rest valid =
    let size = length-append (printed rs) (b'"' ∷ rest) in
    let fits : length rs < length (printed rs ++ b'"' ∷ rest) =
      omega (arith, size, length-printed rs) in
    rw (string-printed rs (length (printed rs ++ b'"' ∷ rest)) rest valid fits, string_lead)

quoted :
    (rs : List ℕ) (rest : Bytes)
    → lead_of (skip_space ((b'"' ∷ printed rs ++ b'"' ∷ []) ++ rest))
      ≡ string_lead (printed rs ++ b'"' ∷ rest)
unfolding lead_of skip_space is_space
quoted rs rest = ap string_lead (append_assoc (printed rs) (b'"' ∷ []) rest)

-- A text of valid UTF-8.
pub print_string-Reads :
    (rs : List ℕ) → All IsRune rs → Reads (print_string (encode_runes rs)) (str (encode_runes rs))
unfolding Reads
print_string-Reads rs valid rest b =
    rw (print_string-encode_runes rs valid) (quoted rs rest ∙ string_lead-printed rs rest valid)

digit_lead :
    {ds : Bytes} (rest : Bytes)
    → IsNumeral ds
    → lead_of (skip_space (ds ++ rest)) ≡ number_lead (ds ++ rest)
unfolding lead_of skip_space is_space
digit_lead rest nought = refl
digit_lead rest (leading {c} {ds} lo hi h) = ground arith

int_lead :
    (n : ℤ) (rest : Bytes)
    → IsInt64 n
    → lead_of (skip_space (print_int n ++ rest)) ≡ number_lead (print_int n ++ rest)
unfolding print_int
int_lead (pos n) rest small = digit_lead rest (print_ℕ-IsNumeral n (enough n (omega arith)))
int_lead (negsuc n) rest small = unfold lead_of skip_space is_space in refl

-- An integer of 64 bits, as its literal.
pub print_int-Reads : (n : ℤ) → IsInt64 n → Reads (print_int n) (num (print_int n))
unfolding Reads number_lead
print_int-Reads n small rest b =
    int_lead n rest small ∙ rw (number-print_int n rest small b, number_lead)
