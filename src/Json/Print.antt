-- ===== src/Json/Print.antt =====
-- The printer of strings and integers, and of an object from its members' texts: what
-- `json.Marshal` does with a struct.
pub mod Printed
pub mod Decimal
use lockping_agent.Prelude.{
  ℕ, zero, suc, ◌+◌, ◌-◌, ◌/◌, ◌%◌, Bool, true, false, ◌||◌, List, [], ◌∷◌, ◌++◌, Option, none,
  some, ◌≡◌, refl, Bytes, codes, length, ltb, ◌==◌, if◌then◌else◌, join,
}
use lockping_agent.Prelude.Int.{ℤ, pos, negsuc}
use lockping_agent.Utf8.{
  next_rune, encode_rune, two, three, four, second_of_three, second_of_four, is_continuation,
}

unfoldable pub hex_digit : ℕ → ℕ
hex_digit v = if ltb v 10 then b'0' + v else b'a' + (v - 10)

-- A byte below 128. (`Marshal` also escapes what HTML would read.)
unfoldable pub ascii : ℕ → Bytes
ascii c =
    if c == b'"' || c == b'\\'
    then b'\\' ∷ c ∷ []
    else if c == 8
    then codes "\\b"
    else if c == 12
    then codes "\\f"
    else if c == 10
    then codes "\\n"
    else if c == 13
    then codes "\\r"
    else if c == 9
    then codes "\\t"
    else if ltb c 0x20 || c == b'<' || c == b'>' || c == b'&'
    then codes "\\u00" ++ (hex_digit (c / 16) ∷ hex_digit (c % 16) ∷ [])
    else c ∷ []

unfoldable pub rune_text : Option ℕ → Bytes
rune_text none = codes "\\ufffd"
rune_text (some r) =
    if r == 0x2028 then codes "\\u2028" else if r == 0x2029 then codes "\\u2029" else encode_rune r

-- The text for what begins with byte `c`, and what follows it.
piece : ℕ → Bytes → Bytes × Bytes
piece c s =
    if ltb c 0x80 then (ascii c, s) else (let (r, rest) = next_rune c s in (rune_text r, rest))

body : ℕ → Bytes → Bytes
body zero s = []
body (suc f) [] = []
body (suc f) (c ∷ s) = let (t, rest) = piece c s in t ++ body f rest

-- Each round takes at least one byte.
unfoldable pub print_string : Bytes → Bytes
unfolding body piece rune_text ascii hex_digit next_rune encode_rune two three four second_of_three
    second_of_four is_continuation
print_string s = b'"' ∷ body (length s) s ++ b'"' ∷ []

unfoldable pub digits : ℕ → ℕ → Bytes → Bytes
digits zero n out = out
digits (suc f) n out =
    let out' = (b'0' + n % 10) ∷ out in
    let rest = digits f (n / 10) out' in if n / 10 == 0 then out' else rest

-- A 64-bit integer has at most 19 digits.
unfoldable pub print_ℕ : ℕ → Bytes
print_ℕ n = digits 20 n []

unfoldable pub print_int : ℤ → Bytes
unfolding print_ℕ digits
print_int (pos n) = print_ℕ n
print_int (negsuc n) = b'-' ∷ print_ℕ (suc n)

abbrev pub print_bool : Bool → Bytes
print_bool true = codes "true"
print_bool false = codes "false"

-- A member: its name, which the struct's tag gives in ASCII, and its value's text.
unfoldable pub member : Bytes → Bytes → Bytes
member name text = b'"' ∷ name ++ (b'"' ∷ b':' ∷ text)

unfoldable pub object : List Bytes → Bytes
unfolding join
object members = b'{' ∷ join members (b',' ∷ []) ++ b'}' ∷ []

-- The forms of `json.MarshalIndent` with two spaces: a member on a line of its own.
unfoldable pub indented_member : Bytes → Bytes → Bytes
indented_member name text = 10 ∷ b' ' ∷ b' ' ∷ b'"' ∷ name ++ (b'"' ∷ b':' ∷ b' ' ∷ text)

-- (An object of no member is `{}`.)
unfoldable pub indented_object : List Bytes → Bytes
unfolding join
indented_object [] = codes "{}"
indented_object (m ∷ members) = b'{' ∷ join (m ∷ members) (b',' ∷ []) ++ (10 ∷ b'}' ∷ [])

print_string_escapes :
    print_string (codes "a\"<\n" ++ (0xff ∷ 0xc3 ∷ 0xa9 ∷ []))
    ≡ codes "\"a\\\"\\u003c\\n\\ufffd" ++ (0xc3 ∷ 0xa9 ∷ b'"' ∷ [])
unfolding print_string
print_string_escapes = refl

print_int_negative : print_int (negsuc 1729) ≡ codes "-1730"
unfolding print_int
print_int_negative = refl
