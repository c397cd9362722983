-- ===== src/Json/Parse.antt =====
-- The parser. Each round of a loop takes at least one byte, so twice the length of the text
-- is given as fuel; `depth` counts how many brackets may still be opened (`maxNestingDepth`).
pub mod Text
pub mod Number
pub mod Scalars
pub mod Members
pub mod Leads
pub mod Clean
pub mod Texts
use lockping_agent.Prelude.{
  ℕ, zero, suc, ◌+◌, ◌-◌, ◌*◌, Bool, true, false, ◌&&◌, ◌||◌, [], ◌∷◌, ◌++◌, Option, none, some,
  ◌≡◌, refl, Bytes, codes, length, ltb, ◌==◌, if◌then◌else◌, has_prefix, drop,
}
use lockping_agent.Utf8.{
  rune_error, next_rune, rune_of, encode_rune, in_range, two, three, four, second_of_three,
  second_of_four, is_continuation,
}
use lockping_agent.Json.{
  Value, Items, Fields, null, bool, num, str, arr, obj, nil, cons, end, field,
}
use mathlib.Core.Option
use lockping_agent.Json.Parse.Text.{string}
use lockping_agent.Json.Parse.Number.{number}

is_space : ℕ → Bool
is_space c = c == b' ' || c == 9 || c == 10 || c == 13

pub skip_space : Bytes → Bytes
skip_space [] = []
skip_space (c ∷ s) = let rest = skip_space s in if is_space c then rest else c ∷ s

-- The beginning of a value: a whole scalar, or an opening bracket.
pub data Lead : Type 0 where
  open_obj : Bytes → Lead
  open_arr : Bytes → Lead
  scalar : Value → Bytes → Lead
  bad_lead : Lead

literal : Bytes → Value → Bytes → Lead
literal word v s = if has_prefix s word then scalar v (drop (length word) s) else bad_lead

number_lead : Bytes → Lead
number_lead s = elim (number s) [ none ↦ bad_lead | some (n, rest) ↦ scalar (num n) rest ]

string_lead : Bytes → Lead
string_lead s = elim (string (length s) s) [
  | none ↦ bad_lead
  | some (t, rest) ↦ scalar (str t) rest
]

pub lead_of : Bytes → Lead
lead_of [] = bad_lead
lead_of (c ∷ s) =
    if c == b'{'
    then open_obj s
    else if c == b'['
    then open_arr s
    else if c == b'"'
    then string_lead s
    else if c == b't'
    then literal (codes "true") (bool true) (c ∷ s)
    else if c == b'f'
    then literal (codes "false") (bool false) (c ∷ s)
    else if c == b'n'
    then literal (codes "null") null (c ∷ s)
    else number_lead (c ∷ s)

-- What stands behind an element: a comma, the closing bracket, or a fault.
pub data Next : Type 0 where
  more : Bytes → Next
  done : Bytes → Next
  stop : Next

next : ℕ → Bytes → Next
next bracket [] = stop
next bracket (c ∷ s) = if c == b',' then more s else if c == bracket then done s else stop

-- An empty pair of brackets.
closes : ℕ → Bytes → Option Bytes
closes bracket [] = none
closes bracket (c ∷ s) = if c == bracket then some s else none

colon : Bytes → Bytes → Option (Bytes × Bytes)
colon key [] = none
colon key (c ∷ s) = if c == b':' then some (key, s) else none

-- A key and its colon.
key_of : Bytes → Option (Bytes × Bytes)
key_of [] = none
key_of (c ∷ s) =
    if c == b'"'
    then elim (string (length s) s) [ none ↦ none | some (key, rest) ↦ colon key (skip_space rest) ]
    else none

mutual
  value : ℕ → ℕ → Bytes → Option (Value × Bytes)
  value zero depth s = none
  value (suc f) depth s = elim (lead_of (skip_space s)) [
    | bad_lead ↦ none
    | scalar v rest ↦ some (v, rest)
    | open_arr rest ↦ elim (closes b']' (skip_space rest)) [
      | some rest' ↦ if ltb 0 depth then some (arr nil, rest') else none
      | none ↦ elim depth [
        | zero ↦ none
        | suc d ↦ elim (items f d rest) [ none ↦ none | some (xs, rest') ↦ some (arr xs, rest') ]
      ]
    ]
    | open_obj rest ↦ elim (closes b'}' (skip_space rest)) [
      | some rest' ↦ if ltb 0 depth then some (obj end, rest') else none
      | none ↦ elim depth [
        | zero ↦ none
        | suc d ↦ elim (fields f d rest) [ none ↦ none | some (xs, rest') ↦ some (obj xs, rest') ]
      ]
    ]
  ]

  items : ℕ → ℕ → Bytes → Option (Items × Bytes)
  items zero depth s = none
  items (suc f) depth s = elim (value f depth s) [
    | none ↦ none
    | some (v, rest) ↦ elim (next b']' (skip_space rest)) [
      | stop ↦ none
      | done rest' ↦ some (cons v nil, rest')
      | more rest' ↦ elim (items f depth rest') [
        | none ↦ none
        | some (xs, rest'') ↦ some (cons v xs, rest'')
      ]
    ]
  ]

  fields : ℕ → ℕ → Bytes → Option (Fields × Bytes)
  fields zero depth s = none
  fields (suc f) depth s = elim (key_of (skip_space s)) [
    | none ↦ none
    | some (key, rest₀) ↦ elim (value f depth rest₀) [
      | none ↦ none
      | some (v, rest) ↦ elim (next b'}' (skip_space rest)) [
        | stop ↦ none
        | done rest' ↦ some (field key v end, rest')
        | more rest' ↦ elim (fields f depth rest') [
          | none ↦ none
          | some (xs, rest'') ↦ some (field key v xs, rest'')
        ]
      ]
    ]
  ]

abbrev max_nesting : ℕ
max_nesting = 10000

all_read : Option (Value × Bytes) → Option Value
all_read none = none
all_read (some (v, rest)) = elim (skip_space rest) [ [] ↦ some v | _ ∷ _ ↦ none ]

-- The value of a whole document; `none` is a syntax error.
unfoldable pub parse : Bytes → Option Value
unfolding all_read value items fields key_of colon closes next lead_of string_lead number_lead
    literal number string skip_space is_space next_rune encode_rune has_prefix two three four
    second_of_three second_of_four is_continuation
parse s = all_read (value (length s + length s + 1) max_nesting s)

first_read : Option (Value × Bytes) → Option Value
first_read none = none
first_read (some (v, rest)) = some v

-- `json.NewDecoder(r).Decode`: the first value, whatever follows it.
unfoldable pub parse_first : Bytes → Option Value
unfolding first_read value items fields key_of colon closes next lead_of string_lead number_lead
    literal number string skip_space is_space next_rune encode_rune has_prefix two three four
    second_of_three second_of_four is_continuation
parse_first s = first_read (value (length s + length s + 1) max_nesting s)

parse_nested :
    parse (codes " {\"a\" : [1, -2.5e3, true], \"b\\u00e9\":{}} ")
    ≡ some (
        obj (
          field
            (codes "a")
            (arr (cons (num (codes "1")) (cons (num (codes "-2.5e3")) (cons (bool true) nil))))
            (field (b'b' ∷ 0xc3 ∷ 0xa9 ∷ []) (obj end) end)))
unfolding parse
parse_nested = refl

parse_refused : (parse (codes "{\"a\":1,}") ≡ none) × (parse (codes "01") ≡ none)
unfolding parse
parse_refused = (refl, refl)
