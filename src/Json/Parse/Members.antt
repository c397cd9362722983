-- ===== src/Json/Parse/Members.antt =====
-- The parser reads back an object that was printed from its members.
pub mod Indented
pub mod Names
use lockping_agent.Prelude.{
  ℕ, zero, suc, ◌+◌, ◌≤◌, ◌<◌, List, [], ◌∷◌, ◌++◌, some, none, ◌≡◌, refl, ap, ◌∙◌, sym, arith, All,
  Bytes, length, length-append, append_assoc, join,
}
use lockping_agent.Utf8.{encode_runes}
use lockping_agent.Utf8.RoundTrip.{IsRune}
use lockping_agent.Json.{Value, Fields, obj, field, end}
use lockping_agent.Json.Print.{member, object}
use lockping_agent.Json.Print.Printed.{printed}
use lockping_agent.Json.Parse.Text.{string}
use lockping_agent.Json.Parse.Text.Unquote.{string-printed}
use lockping_agent.Json.Parse.Number.Numeral.{IsBreak, comma, brace}
use lockping_agent.Json.Parse.Scalars.{Reads, Reads-lead}
use lockping_agent.Json.Parse.{
  is_space, skip_space, lead_of, scalar, closes, more, done, stop, next, colon, key_of, value,
  fields, parse, all_read, max_nesting,
}

-- A name that is printed as it is, and is its own text.
abbrev pub IsPlain : Bytes → Type 0
IsPlain name = All IsRune name × (printed name ≡ name) × (encode_runes name ≡ name)

-- The members' texts with the names and values that they stand for.
pub data Prints : List Bytes → List (Bytes × Value) → Type 0 where
  none_left : Prints [] []
  one_more :
      (name text : Bytes) {v : Value} {ms : List Bytes} {ps : List (Bytes × Value)}
      → IsPlain name
      → Reads text v
      → Prints ms ps
      → Prints (member name text ∷ ms) ((name, v) ∷ ps)

unfoldable pub to_fields : List (Bytes × Value) → Fields
to_fields [] = end
to_fields ((name, v) ∷ ps) = field name v (to_fields ps)

pub Prints-append :
    {ms ms' : List Bytes} {ps ps' : List (Bytes × Value)}
    → Prints ms ps
    → Prints ms' ps'
    → Prints (ms ++ ms') (ps ++ ps')
Prints-append none_left h = h
Prints-append (one_more name text p r k) h = one_more name text p r (Prints-append k h)

value-scalar :
    (f d : ℕ) (s : Bytes) {v : Value} {rest : Bytes}
    → lead_of (skip_space s) ≡ scalar v rest
    → value (suc f) d s ≡ some (v, rest)
unfolding value
value-scalar f d s h = rw (h, value)

-- The text of a member, taken apart.
member_text :
    (name text tail : Bytes)
    → member name text ++ tail ≡ b'"' ∷ (name ++ (b'"' ∷ b':' ∷ (text ++ tail)))
unfolding member
member_text name text tail = ap (λ l. b'"' ∷ l) (append_assoc name (b'"' ∷ b':' ∷ text) tail)

name_read :
    (name after : Bytes)
    → IsPlain name
    → string (length (name ++ b'"' ∷ after)) (name ++ b'"' ∷ after) ≡ some (name, after)
name_read name after (valid, shown, own) =
    let size = length-append name (b'"' ∷ after) in
    let fits : length name < length (name ++ b'"' ∷ after) = omega (arith, size) in
    let read = string-printed name (length (name ++ b'"' ∷ after)) after valid fits in
    ap (λ l. string (length (name ++ b'"' ∷ after)) (l ++ b'"' ∷ after)) (sym shown)
    ∙ read
    ∙ ap (λ l. some (l, after)) own

key_of-member :
    (name after : Bytes)
    → IsPlain name
    → key_of (skip_space (b'"' ∷ (name ++ (b'"' ∷ b':' ∷ after)))) ≡ some (name, after)
unfolding key_of skip_space is_space colon
key_of-member name after plain = rw (name_read name (b':' ∷ after) plain, key_of) refl

-- A member that a comma or the closing bracket follows.
fields-member :
    (f d : ℕ) (name text tail : Bytes) (v : Value)
    → IsPlain name
    → Reads text v
    → IsBreak tail
    → fields (suc (suc f)) d (member name text ++ tail) ≡ elim (next b'}' (skip_space tail)) [
      | stop ↦ none
      | done rest' ↦ some (field name v end, rest')
      | more rest' ↦ elim (fields (suc f) d rest') [
        | none ↦ none
        | some (xs, rest'') ↦ some (field name v xs, rest'')
      ]
    ]
unfolding fields
fields-member f d name text tail v plain reads b =
    let key = key_of-member name (text ++ tail) plain in
    let read = value-scalar f d (text ++ tail) (Reads-lead text tail reads b) in
    rw (member_text name text tail) (rw (key, fields) (rw read refl))

-- The members behind the opening bracket, up to the closing one.
fields-join :
    (f d : ℕ) (rest : Bytes) {m : Bytes} {ms : List Bytes} {ps : List (Bytes × Value)}
    → Prints (m ∷ ms) ps
    → length ms + 2 ≤ f
    → fields f d (join (m ∷ ms) (b',' ∷ []) ++ b'}' ∷ rest) ≡ some (to_fields ps, rest)
unfolding join next to_fields skip_space is_space
fields-join zero d rest h fits = absurd (omega arith)
fields-join (suc zero) d rest h fits = absurd (omega arith)
fields-join (suc (suc f)) d rest (one_more name text {v} plain reads none_left) fits =
    fields-member f d name text (b'}' ∷ rest) v plain reads (brace rest)
fields-join (suc (suc f)) d rest
      (one_more name text {v} plain reads
        (one_more name' text' {v = v'} {ms} {ps} plain' reads' more'))
      fits =
    let after = join (member name' text' ∷ ms) (b',' ∷ []) ++ b'}' ∷ rest in
    ap (fields (suc (suc f)) d) (
      append_assoc (member name text) (b',' ∷ join (member name' text' ∷ ms) (b',' ∷ []))
        (b'}' ∷ rest))
    ∙ fields-member f d name text (b',' ∷ after) v plain reads (comma after)
    ∙ rw (fields-join (suc f) d rest (one_more name' text' plain' reads' more') (omega arith))

join_size : (m : Bytes) (ms : List Bytes) → length ms ≤ length (join (m ∷ ms) (b',' ∷ []))
unfolding join
join_size m [] = omega arith
join_size m (q ∷ ms) =
    omega (arith, length-append m (b',' ∷ join (q ∷ ms) (b',' ∷ [])), join_size q ms)

not_empty :
    (name text : Bytes) (ms : List Bytes) (rest : Bytes)
    → closes b'}' (skip_space (join (member name text ∷ ms) (b',' ∷ []) ++ rest)) ≡ none
unfolding closes skip_space is_space join member
not_empty name text [] rest = refl
not_empty name text (m ∷ ms) rest = refl

-- One level of an object whose members are read.
value-obj :
    (f d : ℕ) (s : Bytes) {xs : Fields}
    → closes b'}' (skip_space s) ≡ none
    → fields f d s ≡ some (xs, [])
    → value (suc f) (suc d) (b'{' ∷ s) ≡ some (obj xs, [])
unfolding value lead_of skip_space is_space
value-obj f d s shut read = rw (shut, value) (rw read refl)

whole :
    (s : Bytes) {v : Value}
    → value (suc (length s + length s)) max_nesting s ≡ some (v, [])
    → parse s ≡ some v
unfolding parse all_read skip_space
whole s {v} h =
    let fuel : length s + length s + 1 ≡ suc (length s + length s) = omega arith in
    ap (λ n. all_read (value n max_nesting s)) fuel ∙ ap all_read h

-- An object of at least one member is parsed as its names and values, in their order.
pub parse-object :
    {m : Bytes} {ms : List Bytes} {ps : List (Bytes × Value)}
    → Prints (m ∷ ms) ps
    → parse (object (m ∷ ms)) ≡ some (obj (to_fields ps))
unfolding object
parse-object {ms = ms} (one_more name text {v} {ps = ps} plain reads more') =
    let m = member name text in
    let s = join (m ∷ ms) (b',' ∷ []) ++ b'}' ∷ [] in
    let size = length-append (join (m ∷ ms) (b',' ∷ [])) (b'}' ∷ []) in
    let fits : length ms + 2 ≤ length (b'{' ∷ s) + length (b'{' ∷ s) =
      omega (arith, size, join_size m ms) in
    whole (b'{' ∷ s) (
      value-obj (length (b'{' ∷ s) + length (b'{' ∷ s)) 9999 s (not_empty name text ms (b'}' ∷ []))
        (fields-join _ 9999 [] (one_more name text plain reads more') fits))
