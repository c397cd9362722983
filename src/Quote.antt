-- ===== src/Quote.antt =====
-- `%q` of a string: `strconv.Quote`. From U+00A1 on every rune but the soft hyphen is taken for
-- printable.
use lockping_agent.Prelude.{
  ℕ, zero, suc, ◌/◌, ◌%◌, ◌||◌, [], ◌∷◌, ◌++◌, Option, none, some, ◌≡◌, refl, Bytes, codes, length,
  ltb, leb, ◌==◌, if◌then◌else◌,
}
use lockping_agent.Utf8.{
  next_rune, encode_rune, two, three, four, second_of_three, second_of_four, is_continuation,
}
use lockping_agent.Json.Print.{hex_digit}

hex_byte : ℕ → Bytes
hex_byte c = codes "\\x" ++ (hex_digit (c / 16) ∷ hex_digit (c % 16) ∷ [])

-- A byte below 128.
ascii : ℕ → Bytes
ascii c =
    if c == b'"' || c == b'\\'
    then b'\\' ∷ c ∷ []
    else if c == 7
    then codes "\\a"
    else if c == 8
    then codes "\\b"
    else if c == 9
    then codes "\\t"
    else if c == 10
    then codes "\\n"
    else if c == 11
    then codes "\\v"
    else if c == 12
    then codes "\\f"
    else if c == 13
    then codes "\\r"
    else if ltb c 0x20 || c == 0x7f
    then hex_byte c
    else c ∷ []

rune_text : ℕ → Option ℕ → Bytes
rune_text c none = hex_byte c
rune_text c (some r) =
    if leb r 0xa0 || r == 0xad
    then codes "\\u00" ++ (hex_digit (r / 16) ∷ hex_digit (r % 16) ∷ [])
    else encode_rune r

piece : ℕ → Bytes → Bytes × Bytes
piece c s =
    if ltb c 0x80 then (ascii c, s) else (let (r, rest) = next_rune c s in (rune_text c r, rest))

-- Each round takes at least one byte.
body : ℕ → Bytes → Bytes
body zero s = []
body (suc f) [] = []
body (suc f) (c ∷ s) = let (t, rest) = piece c s in t ++ body f rest

unfoldable pub quote : Bytes → Bytes
unfolding body piece rune_text ascii hex_byte hex_digit next_rune encode_rune two three four
    second_of_three second_of_four is_continuation
quote s = b'"' ∷ body (length s) s ++ b'"' ∷ []

quoted :
    quote (codes "a\"\n" ++ (0xff ∷ 0xc3 ∷ 0xa9 ∷ []))
    ≡ codes "\"a\\\"\\n\\xff" ++ (0xc3 ∷ 0xa9 ∷ b'"' ∷ [])
unfolding quote
quoted = refl
