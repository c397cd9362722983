-- ===== src/Json/Struct.antt =====
-- How `json.Unmarshal` fills the fields of a struct: which key names a field, and which values it
-- takes. A value of another type leaves the field alone and is reported as an error at the end;
-- `null` changes nothing.
pub mod Integers
use lockping_agent.Prelude.{
  ℕ, ◌+◌, ◌-◌, ◌*◌, ◌^◌, Bool, true, false, ◌&&◌, ◌||◌, [], ◌∷◌, Option, none, some, ◌≡◌, refl,
  Bytes, codes, map, bytes_eq, ltb, leb, ◌==◌, if◌then◌else◌,
}
use lockping_agent.Prelude.Int.{ℤ, pos, sub_ℕ}
use lockping_agent.Utf8.{in_range, runes}
use lockping_agent.Json.{Value, Fields, null, bool, num, str, obj, end, field}

-- `foldRune`: the least rune that differs by case alone; besides ASCII only the long s and the
-- Kelvin sign fold to an ASCII letter.
fold_rune : ℕ → ℕ
fold_rune r =
    if in_range b'a' b'z' r
    then r - 32
    else if r == 0x17f
    then b'S'
    else if r == 0x212a
    then b'K'
    else r

-- A key names a field if the two are equal, or equal up to case.
unfoldable pub names : Bytes → Bytes → Bool
unfolding fold_rune runes bytes_eq
names name key = bytes_eq name key || bytes_eq (map fold_rune name) (map fold_rune (runes key))

-- The digits of an integer literal; `none` for a fraction or an exponent.
decimal : ℕ → Bytes → Option ℕ
decimal n [] = some n
decimal n (c ∷ s) =
    let rest = decimal (n * 10 + (c - b'0')) s in if in_range b'0' b'9' c then rest else none

in_int64 : Bool → ℕ → Option ℤ
in_int64 negative n =
    if negative
    then (if leb n (2 ^ 63) then some (sub_ℕ 0 n) else none)
    else (if ltb n (2 ^ 63) then some (pos n) else none)

-- `strconv.ParseInt(s, 10, 64)` of a number's literal.
unfoldable pub parse_int64 : Bytes → Option ℤ
unfolding decimal in_int64
parse_int64 [] = none
parse_int64 (c ∷ s) =
    if c == b'-'
    then elim (decimal 0 s) [ none ↦ none | some n ↦ in_int64 true n ]
    else elim (decimal 0 (c ∷ s)) [ none ↦ none | some n ↦ in_int64 false n ]

-- Each reader gives the field's new content, from its old one, and whether the types agree.
abbrev pub to_string : Bytes → Value → Bytes × Bool
to_string old null = (old, true)
to_string old (str s) = (s, true)
to_string old _ = (old, false)

unfoldable pub to_int64 : ℤ → Value → ℤ × Bool
unfolding parse_int64
to_int64 old null = (old, true)
to_int64 old (num s) = elim (parse_int64 s) [ none ↦ (old, false) | some n ↦ (n, true) ]
to_int64 old _ = (old, false)

-- A `*bool` field: `null` resets it.
abbrev pub to_bool_ref : Option Bool → Value → Option Bool × Bool
to_bool_ref old null = (none, true)
to_bool_ref old (bool b) = (some b, true)
to_bool_ref old _ = (old, false)

module _ {T : Type 0} (set_field : Bytes → Value → T → T × Bool) where
  -- The members in their order; a later one with the same name wins.
  unfoldable pub fill : Fields → T → T × Bool
  fill end t = (t, true)
  fill (field key v rest) t =
      let (t', fine) = set_field key v t in let (t'', fine') = fill rest t' in (t'', fine && fine')

  -- The struct and whether there was no error.
  unfoldable pub fill_value : Value → T → T × Bool
  unfolding fill
  fill_value null t = (t, true)
  fill_value (obj members) t = fill members t
  fill_value _ t = (t, false)

fold_names : (names (codes "kind") (codes "Kind") ≡ true) × (names (codes "ts") (codes "t") ≡ false)
unfolding names
fold_names = (refl, refl)
