-- ===== src/Json/Parse/Members/Indented.antt =====
-- The parser reads back an object that was printed with its members on lines of their own.
use lockping_agent.Prelude.{
  ℕ, zero, suc, ◌+◌, ◌≤◌, List, [], ◌∷◌, ◌++◌, some, none, ◌≡◌, refl, ap, ◌∙◌, arith, Bytes, length,
  length-append, append_assoc, join,
}
use lockping_agent.Json.{Value, obj, field, end}
use lockping_agent.Json.Print.{indented_member, indented_object}
use lockping_agent.Json.Parse.Number.Numeral.{IsBreak, comma, line}
use lockping_agent.Json.Parse.Scalars.{Reads, Reads-lead}
use lockping_agent.Json.Parse.Members.{
  IsPlain, to_fields, value-scalar, name_read, value-obj, whole, join_size,
}
use lockping_agent.Json.Parse.{
  is_space, skip_space, lead_of, scalar, closes, more, done, stop, next, colon, key_of, fields,
  parse,
}

-- The members' texts with the names and values that they stand for.
pub data Indents : List Bytes → List (Bytes × Value) → Type 0 where
  none_left : Indents [] []
  one_more :
      (name text : Bytes) {v : Value} {ms : List Bytes} {ps : List (Bytes × Value)}
      → IsPlain name
      → Reads text v
      → Indents ms ps
      → Indents (indented_member name text ∷ ms) ((name, v) ∷ ps)

-- The text of a member, taken apart.
member_text :
    (name text tail : Bytes)
    → indented_member name text ++ tail
      ≡ 10 ∷ b' ' ∷ b' ' ∷ b'"' ∷ (name ++ (b'"' ∷ b':' ∷ b' ' ∷ (text ++ tail)))
unfolding indented_member
member_text name text tail =
    ap (λ l. 10 ∷ b' ' ∷ b' ' ∷ b'"' ∷ l) (append_assoc name (b'"' ∷ b':' ∷ b' ' ∷ text) tail)

key_of-indented_member :
    (name after : Bytes)
    → IsPlain name
    → key_of (skip_space (10 ∷ b' ' ∷ b' ' ∷ b'"' ∷ (name ++ (b'"' ∷ b':' ∷ after))))
      ≡ some (name, after)
unfolding key_of skip_space is_space colon
key_of-indented_member name after plain = rw (name_read name (b':' ∷ after) plain, key_of) refl

spaced :
    (text tail : Bytes) {v : Value}
    → Reads text v
    → IsBreak tail
    → lead_of (skip_space (b' ' ∷ (text ++ tail))) ≡ scalar v tail
unfolding skip_space is_space
spaced text tail reads b = Reads-lead text tail reads b

-- A member that a comma or a line end follows.
fields-indented_member :
    (f d : ℕ) (name text tail : Bytes) (v : Value)
    → IsPlain name
    → Reads text v
    → IsBreak tail
    → fields (suc (suc f)) d (indented_member name text ++ tail)
      ≡ elim (next b'}' (skip_space tail)) [
        | stop ↦ none
        | done rest' ↦ some (field name v end, rest')
        | more rest' ↦ elim (fields (suc f) d rest') [
          | none ↦ none
          | some (xs, rest'') ↦ some (field name v xs, rest'')
        ]
      ]
unfolding fields
fields-indented_member f d name text tail v plain reads b =
    let key = key_of-indented_member name (b' ' ∷ (text ++ tail)) plain in
    let read = value-scalar f d (b' ' ∷ (text ++ tail)) (spaced text tail reads b) in
    rw (member_text name text tail) (rw (key, fields) (rw read refl))

-- The members behind the opening bracket, up to the closing one.
fields-join :
    (f d : ℕ) (rest : Bytes) {m : Bytes} {ms : List Bytes} {ps : List (Bytes × Value)}
    → Indents (m ∷ ms) ps
    → length ms + 2 ≤ f
    → fields f d (join (m ∷ ms) (b',' ∷ []) ++ (10 ∷ b'}' ∷ rest)) ≡ some (to_fields ps, rest)
unfolding join next to_fields skip_space is_space
fields-join zero d rest h fits = absurd (omega arith)
fields-join (suc zero) d rest h fits = absurd (omega arith)
fields-join (suc (suc f)) d rest (one_more name text {v} plain reads none_left) fits =
    fields-indented_member f d name text (10 ∷ b'}' ∷ rest) v plain reads (line (b'}' ∷ rest))
fields-join (suc (suc f)) d rest
      (one_more name text {v} plain reads
        (one_more name' text' {v = v'} {ms} {ps} plain' reads' more'))
      fits =
    let after = join (indented_member name' text' ∷ ms) (b',' ∷ []) ++ (10 ∷ b'}' ∷ rest) in
    ap (fields (suc (suc f)) d) (
      append_assoc (indented_member name text)
        (b',' ∷ join (indented_member name' text' ∷ ms) (b',' ∷ [])) (10 ∷ b'}' ∷ rest))
    ∙ fields-indented_member f d name text (b',' ∷ after) v plain reads (comma after)
    ∙ rw (fields-join (suc f) d rest (one_more name' text' plain' reads' more') (omega arith))

not_empty :
    (name text : Bytes) (ms : List Bytes) (rest : Bytes)
    → closes b'}' (skip_space (join (indented_member name text ∷ ms) (b',' ∷ []) ++ rest)) ≡ none
unfolding closes skip_space is_space join indented_member
not_empty name text [] rest = refl
not_empty name text (m ∷ ms) rest = refl

-- An object of at least one member is parsed as its names and values, in their order.
pub parse-indented_object :
    {m : Bytes} {ms : List Bytes} {ps : List (Bytes × Value)}
    → Indents (m ∷ ms) ps
    → parse (indented_object (m ∷ ms)) ≡ some (obj (to_fields ps))
unfolding indented_object
parse-indented_object {ms = ms} (one_more name text {v} {ps = ps} plain reads more') =
    let m = indented_member name text in
    let s = join (m ∷ ms) (b',' ∷ []) ++ (10 ∷ b'}' ∷ []) in
    let size = length-append (join (m ∷ ms) (b',' ∷ [])) (10 ∷ b'}' ∷ []) in
    let fits : length ms + 2 ≤ length (b'{' ∷ s) + length (b'{' ∷ s) =
      omega (arith, size, join_size m ms) in
    whole (b'{' ∷ s) (
      value-obj (length (b'{' ∷ s) + length (b'{' ∷ s)) 9999 s
        (not_empty name text ms (10 ∷ b'}' ∷ []))
        (fields-join _ 9999 [] (one_more name text plain reads more') fits))
