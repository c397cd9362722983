-- ===== src/Json/Parse/Leads.antt =====
-- A scalar text at the beginning of a value is valid UTF-8.
use lockping_agent.Prelude.{
  true, false, [], ◌∷◌, inl, inr, Bytes, codes, length, ◌==◌, has_prefix, Option-cases, Bool-cases,
}
use lockping_agent.Utf8.RoundTrip.{IsText}
use lockping_agent.Json.{Value, null, bool, str, arr, obj}
use lockping_agent.Json.Parse.Text.{string}
use lockping_agent.Json.Parse.Text.Valid.{string-IsText}
use lockping_agent.Json.Parse.Number.{number}
use lockping_agent.Json.Parse.{Lead, scalar, literal, number_lead, string_lead, lead_of}

-- A value that is no bracket; a text is valid.
unfoldable pub IsScalar : Value → Type 0
IsScalar (str s) = IsText s
IsScalar (arr _) = ⊥
IsScalar (obj _) = ⊥
IsScalar _ = Unit {0}

unfoldable pub IsLead : Lead → Type 0
IsLead (scalar v _) = IsScalar v
IsLead _ = Unit {0}

literal-IsLead : (word : Bytes) (v : Value) (s : Bytes) → IsScalar v → IsLead (literal word v s)
unfolding literal IsLead
literal-IsLead word v s h = elim (Bool-cases (has_prefix s word)) [
  | inl is ↦ rw (is, literal) h
  | inr no' ↦ rw (no', literal) tt
]

number_lead-IsLead : (s : Bytes) → IsLead (number_lead s)
unfolding number_lead IsLead IsScalar
number_lead-IsLead s = elim (Option-cases (number s)) [
  | inl bad ↦ rw (bad, number_lead) tt
  | inr (_, read) ↦ rw (read, number_lead) tt
]

string_lead-IsLead : (s : Bytes) → IsLead (string_lead s)
unfolding string_lead IsLead IsScalar
string_lead-IsLead s = elim (Option-cases (string (length s) s)) [
  | inl bad ↦ rw (bad, string_lead) tt
  | inr (_, read) ↦ rw (read, string_lead) (string-IsText (length s) s read)
]

pub lead_of-IsLead : (s : Bytes) → IsLead (lead_of s)
unfolding lead_of IsLead IsScalar
lead_of-IsLead [] = tt
lead_of-IsLead (c ∷ s) = elim (Bool-cases (c == b'{')) [
  | inl is ↦ rw (is, lead_of) tt
  | inr a ↦ elim (Bool-cases (c == b'[')) [
    | inl is ↦ rw (a, is, lead_of) tt
    | inr b ↦ elim (Bool-cases (c == b'"')) [
      | inl is ↦ rw (a, b, is, lead_of) (string_lead-IsLead s)
      | inr d ↦ elim (Bool-cases (c == b't')) [
        | inl is ↦ rw (a, b, d, is, lead_of) (literal-IsLead (codes "true") (bool true) (c ∷ s) tt)
        | inr e ↦ elim (Bool-cases (c == b'f')) [
          | inl is ↦
              rw (a, b, d, e, is, lead_of) (literal-IsLead (codes "false") (bool false) (c ∷ s) tt)
          | inr f ↦ elim (Bool-cases (c == b'n')) [
            | inl is ↦
                rw (a, b, d, e, f, is, lead_of) (literal-IsLead (codes "null") null (c ∷ s) tt)
            | inr g ↦ rw (a, b, d, e, f, g, lead_of) (number_lead-IsLead (c ∷ s))
          ]
        ]
      ]
    ]
  ]
]
