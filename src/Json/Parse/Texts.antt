-- ===== src/Json/Parse/Texts.antt =====
-- The texts of a document's members are valid UTF-8, whatever bytes the document is made of.
use lockping_agent.Prelude.{
  ℕ, zero, suc, ◌+◌, [], ◌∷◌, Option, none, some, ◌≡◌, refl, sym, arith, subst, inl, inr, Bytes,
  length, ltb, if◌then◌else◌, Option-cases, Bool-cases,
}
use lockping_agent.Json.{Value, Fields, nil, arr, obj, end, field}
use lockping_agent.Json.Parse.{
  skip_space, Lead, open_obj, open_arr, scalar, bad_lead, lead_of, closes, Next, more, done, stop,
  next, key_of, value, items, fields, parse, all_read, max_nesting,
}
use lockping_agent.Json.Parse.Leads.{IsLead, lead_of-IsLead}
use lockping_agent.Json.Parse.Clean.{
  IsClean, AreClean, IsDoc, IsScalar-IsDoc, IsDoc-IsClean, IsRead, AreRead,
}

-- What `value` does behind the lead.
after_lead : Lead → ℕ → ℕ → Option (Value × Bytes)
after_lead bad_lead f depth = none
after_lead (scalar v rest) f depth = some (v, rest)
after_lead (open_arr rest) f depth = elim (closes b']' (skip_space rest)) [
  | some rest' ↦ if ltb 0 depth then some (arr nil, rest') else none
  | none ↦ elim depth [
    | zero ↦ none
    | suc d ↦ elim (items f d rest) [ none ↦ none | some (xs, rest') ↦ some (arr xs, rest') ]
  ]
]
after_lead (open_obj rest) f depth = elim (closes b'}' (skip_space rest)) [
  | some rest' ↦ if ltb 0 depth then some (obj end, rest') else none
  | none ↦ elim depth [
    | zero ↦ none
    | suc d ↦ elim (fields f d rest) [ none ↦ none | some (xs, rest') ↦ some (obj xs, rest') ]
  ]
]

value_step :
    (f depth : ℕ) (s : Bytes) → value (suc f) depth s ≡ after_lead (lead_of (skip_space s)) f depth
unfolding value after_lead
value_step f depth s =
    elim (lead_of (skip_space s))
      as (λ p.
        (elim p as (λ _. Option (Value × Bytes)) [
          | bad_lead ↦ none
          | scalar v rest ↦ some (v, rest)
          | open_arr rest ↦ elim (closes b']' (skip_space rest)) [
            | some rest' ↦ if ltb 0 depth then some (arr nil, rest') else none
            | none ↦ elim depth [
              | zero ↦ none
              | suc d ↦ elim (items f d rest) [
                | none ↦ none
                | some (xs, rest') ↦ some (arr xs, rest')
              ]
            ]
          ]
          | open_obj rest ↦ elim (closes b'}' (skip_space rest)) [
            | some rest' ↦ if ltb 0 depth then some (obj end, rest') else none
            | none ↦ elim depth [
              | zero ↦ none
              | suc d ↦ elim (fields f d rest) [
                | none ↦ none
                | some (xs, rest') ↦ some (obj xs, rest')
              ]
            ]
          ]
        ])
        ≡ after_lead p f depth) [
          | bad_lead ↦ refl
          | scalar v rest ↦ refl
          | open_arr rest ↦ refl
          | open_obj rest ↦ refl
        ]

array_items :
    (rest : Bytes) (f depth : ℕ)
    → IsRead (elim depth [
      | zero ↦ none
      | suc d ↦ elim (items f d rest) [ none ↦ none | some (xs, rest') ↦ some (arr xs, rest') ]
    ])
unfolding IsDoc
array_items rest f zero = tt
array_items rest f (suc d) = elim (Option-cases (items f d rest)) [
  | inl bad ↦ rw bad tt
  | inr (_, read) ↦ rw read tt
]

array-IsRead : (rest : Bytes) (f depth : ℕ) → IsRead (after_lead (open_arr rest) f depth)
unfolding after_lead IsDoc
array-IsRead rest f depth = elim (Option-cases (closes b']' (skip_space rest))) [
  | inr (rest', shut) ↦ elim (Bool-cases (ltb 0 depth)) [
    | inl room ↦ rw (shut, room, after_lead) tt
    | inr none' ↦ rw (shut, none', after_lead) tt
  ]
  | inl open' ↦ rw (open', after_lead) (array_items rest f depth)
]

object_fields :
    (rest : Bytes) (f depth : ℕ)
    → ((d : ℕ) (t : Bytes) → AreRead (fields f d t))
    → IsRead (elim depth [
      | zero ↦ none
      | suc d ↦ elim (fields f d rest) [ none ↦ none | some (xs, rest') ↦ some (obj xs, rest') ]
    ])
unfolding IsDoc
object_fields rest f zero ih = tt
object_fields rest f (suc d) ih = elim (Option-cases (fields f d rest)) [
  | inl bad ↦ rw bad tt
  | inr (_, read) ↦ rw read (subst AreRead read (ih d rest))
]

object-IsRead :
    (rest : Bytes) (f depth : ℕ)
    → ((d : ℕ) (t : Bytes) → AreRead (fields f d t))
    → IsRead (after_lead (open_obj rest) f depth)
unfolding after_lead IsDoc
object-IsRead rest f depth ih = elim (Option-cases (closes b'}' (skip_space rest))) [
  | inr (rest', shut) ↦ elim (Bool-cases (ltb 0 depth)) [
    | inl room ↦ rw (shut, room, after_lead) (unfold AreClean in tt)
    | inr none' ↦ rw (shut, none', after_lead) tt
  ]
  | inl open' ↦ rw (open', after_lead) (object_fields rest f depth ih)
]

lead-IsRead :
    (p : Lead) (f depth : ℕ)
    → ((d : ℕ) (t : Bytes) → AreRead (fields f d t))
    → IsLead p
    → IsRead (after_lead p f depth)
lead-IsRead bad_lead f depth ih h = unfold after_lead in tt
lead-IsRead (scalar v rest) f depth ih h = unfold after_lead in unfold IsLead in IsScalar-IsDoc v h
lead-IsRead (open_arr rest) f depth ih h = array-IsRead rest f depth
lead-IsRead (open_obj rest) f depth ih h = object-IsRead rest f depth ih

value-IsRead :
    (f depth : ℕ) (s : Bytes)
    → ((d : ℕ) (t : Bytes) → AreRead (fields f d t))
    → IsRead (value (suc f) depth s)
value-IsRead f depth s ih =
    subst IsRead (sym (value_step f depth s))
      (lead-IsRead (lead_of (skip_space s)) f depth ih (lead_of-IsLead (skip_space s)))

field_clean :
    (key : Bytes) (v : Value) (r : Option (Fields × Bytes))
    → IsClean v
    → AreRead r
    → AreRead (elim r [ none ↦ none | some (xs, rest'') ↦ some (field key v xs, rest'') ])
unfolding AreClean
field_clean key v none clean h = tt
field_clean key v (some (xs, rest)) clean h = (clean, h)

next_read :
    (n : Next) (key : Bytes) (v : Value) (f depth : ℕ)
    → IsClean v
    → ((d : ℕ) (t : Bytes) → AreRead (fields f d t))
    → AreRead (elim n [
      | stop ↦ none
      | done rest' ↦ some (field key v end, rest')
      | more rest' ↦ elim (fields f depth rest') [
        | none ↦ none
        | some (xs, rest'') ↦ some (field key v xs, rest'')
      ]
    ])
next_read stop key v f depth clean rests = tt
next_read (done rest) key v f depth clean rests = unfold AreClean in (clean, tt)
next_read (more rest) key v f depth clean rests =
    field_clean key v (fields f depth rest) clean (rests depth rest)

fields_step :
    (f depth : ℕ) (s : Bytes)
    → ((d : ℕ) (t : Bytes) → IsRead (value f d t))
    → ((d : ℕ) (t : Bytes) → AreRead (fields f d t))
    → AreRead (fields (suc f) depth s)
unfolding fields
fields_step f depth s values rests = elim (Option-cases (key_of (skip_space s))) [
  | inl bad ↦ rw (bad, fields) tt
  | inr ((key, rest₀), named) ↦ elim (Option-cases (value f depth rest₀)) [
    | inl bad ↦ rw (named, fields, bad) tt
    | inr ((v, rest), read) ↦
        let clean = IsDoc-IsClean v (subst IsRead read (values depth rest₀)) in
        rw (named, fields, read) (next_read (next b'}' (skip_space rest)) key v f depth clean rests)
  ]
]

all-IsRead_at :
    (f : ℕ)
    → ((d : ℕ) (t : Bytes) → IsRead (value f d t)) × ((d : ℕ) (t : Bytes) → AreRead (fields f d t))
all-IsRead_at zero = (λ d t. unfold value in tt, λ d t. unfold fields in tt)
all-IsRead_at (suc f) =
    let (values, rests) = all-IsRead_at f in
    (λ d t. value-IsRead f d t rests, λ d t. fields_step f d t values rests)

some_inj : (v v' : Value) → some v ≡ some v' → v ≡ v'
some_inj v v' h = cc

IsDoc-read : (r : Option (Value × Bytes)) {v : Value} → IsRead r → all_read r ≡ some v → IsDoc v
unfolding all_read
IsDoc-read none h e = absurd (ground arith)
IsDoc-read (some (v', rest)) {v} h e =
    elim (skip_space rest)
        as (λ l.
          (elim l as (λ _. Option Value) [ [] ↦ some v' | _ ∷ _ ↦ none ]) ≡ some v → IsDoc v) [
            | [] ↦ λ same. subst IsDoc (some_inj v' v same) h
            | _ ∷ _ ↦ λ same. absurd (ground arith)
          ]
      e

-- Every text that is a member's value in a parsed object is valid UTF-8.
pub parse-AreClean : (s : Bytes) {xs : Fields} → parse s ≡ some (obj xs) → AreClean xs
unfolding parse IsDoc
parse-AreClean s h =
    IsDoc-read (value (length s + length s + 1) max_nesting s)
      ((all-IsRead_at (length s + length s + 1)).0 max_nesting s) h
