-- ===== src/Identity/File.antt =====
-- The text of agent.json: how `create` of internal/identity/identity.go writes the struct, and how
-- `Load` reads it.
use lockping_agent.Prelude.{
  Bool, true, List, [], ◌∷◌, ◌++◌, Option, none, some, ◌≡◌, refl, arith, subst, append-nil, Bytes,
  codes, bytes_eq, bytes_eq_iff, if◌then◌else◌, Bool-cases, inl, inr,
}
use lockping_agent.Utf8.RoundTrip.{IsText}
use lockping_agent.Json.{Value, str}
use lockping_agent.Json.Parse.{parse}
use lockping_agent.Json.Parse.Scalars.{Reads, print_string-Reads}
use lockping_agent.Json.Parse.Members.{to_fields}
use lockping_agent.Json.Parse.Members.Names.{is_name, is_name-IsPlain}
use lockping_agent.Json.Parse.Members.Indented.{Indents, none_left, one_more, parse-indented_object}
use lockping_agent.Json.Print.{print_string, indented_member, indented_object}
use lockping_agent.Json.Struct.{names, to_string, fill_value, fill}

-- A key that the file lacks is the empty text.
pub record IdentityFile : Type 0 where
  pub agent_id : Bytes
  pub box_pub : Bytes
  pub box_priv : Bytes

unfoldable pub set_field : Bytes → Value → IdentityFile → IdentityFile × Bool
set_field key v f =
    if names (codes "agent_id") key
    then (let (x, fine) = to_string f.agent_id v in (record f { agent_id = x }, fine))
    else if names (codes "box_pub") key
    then (let (x, fine) = to_string f.box_pub v in (record f { box_pub = x }, fine))
    else if names (codes "box_priv") key
    then (let (x, fine) = to_string f.box_priv v in (record f { box_priv = x }, fine))
    else (f, true)

abbrev pub empty_file : IdentityFile
empty_file = record { agent_id = []; box_pub = []; box_priv = [] }

-- `json.Unmarshal` into the struct; `none` is an error.
unfoldable pub unmarshal : Bytes → Option IdentityFile
unfolding set_field
unmarshal s = elim (parse s) [
  | none ↦ none
  | some v ↦ let (f, fine) = fill_value set_field v empty_file in if fine then some f else none
]

-- `omitempty`
key_member : Bytes → Bytes → List Bytes
key_member name s = if bytes_eq s [] then [] else indented_member name (print_string s) ∷ []

-- `json.MarshalIndent` of the struct.
unfoldable pub marshal : IdentityFile → Bytes
unfolding key_member
marshal f = indented_object (
    indented_member (codes "agent_id") (print_string f.agent_id)
    ∷ (key_member (codes "box_pub") f.box_pub ++ key_member (codes "box_priv") f.box_priv))

abbrev key_pair : Bytes → Bytes → List (Bytes × Value)
key_pair name s = if bytes_eq s [] then [] else (name, str s) ∷ []

text-Reads : {s : Bytes} → IsText s → Reads (print_string s) (str s)
text-Reads {s} (rs, valid, spelled) =
    subst (λ t. Reads (print_string t) (str t)) spelled (print_string-Reads rs valid)

key_member-Indents :
    (name s : Bytes) {ms : List Bytes} {ps : List (Bytes × Value)}
    → is_name name ≡ true
    → IsText s
    → Indents ms ps
    → Indents (key_member name s ++ ms) (key_pair name s ++ ps)
unfolding key_member
key_member-Indents name s plain spelled rest = elim (Bool-cases (bytes_eq s [])) [
  | inl empty ↦ rw empty rest
  | inr filled ↦ rw filled (one_more name _ (is_name-IsPlain name plain) (text-Reads spelled) rest)
]

-- Every member that is written sets its field, and a key that is left out is empty.
fill-pairs :
    (f : IdentityFile)
    → fill set_field
        (to_fields (
          (codes "agent_id", str f.agent_id)
          ∷ (key_pair (codes "box_pub") f.box_pub
              ++ (key_pair (codes "box_priv") f.box_priv ++ []))))
        empty_file
      ≡ (f, true)
unfolding fill set_field names to_fields
fill-pairs f = elim (Bool-cases (bytes_eq f.box_pub [])) [
  | inl e ↦ elim (Bool-cases (bytes_eq f.box_priv [])) [
    | inl e' ↦ ground (arith, e, e', bytes_eq_iff f.box_pub [], bytes_eq_iff f.box_priv [])
    | inr n' ↦ ground (arith, e, n', bytes_eq_iff f.box_pub [])
  ]
  | inr n ↦ elim (Bool-cases (bytes_eq f.box_priv [])) [
    | inl e' ↦ ground (arith, n, e', bytes_eq_iff f.box_priv [])
    | inr n' ↦ ground (arith, n, n')
  ]
]

-- The struct of a row of members, as it is read.
unmarshal-members :
    {m : Bytes} {ms : List Bytes} {ps : List (Bytes × Value)} {f : IdentityFile}
    → Indents (m ∷ ms) ps
    → fill set_field (to_fields ps) empty_file ≡ (f, true)
    → unmarshal (indented_object (m ∷ ms)) ≡ some f
unfolding unmarshal fill_value
unmarshal-members printed fills = rw (parse-indented_object printed, unmarshal) (rw fills refl)

-- What is written is read as the struct that was written, where its texts are valid UTF-8.
pub unmarshal-marshal :
    (f : IdentityFile)
    → IsText f.agent_id
    → IsText f.box_pub
    → IsText f.box_priv
    → unmarshal (marshal f) ≡ some f
unfolding marshal is_name
unmarshal-marshal f id pub_key priv_key =
    let members =
      one_more (codes "agent_id") _ (is_name-IsPlain (codes "agent_id") refl) (text-Reads id) (
        key_member-Indents (codes "box_pub") f.box_pub refl pub_key
          (key_member-Indents (codes "box_priv") f.box_priv refl priv_key none_left)) in
    subst
      (λ l.
        unmarshal (
          indented_object (
            indented_member (codes "agent_id") (print_string f.agent_id)
            ∷ (key_member (codes "box_pub") f.box_pub ++ l)))
        ≡ some f)
      (append-nil (key_member (codes "box_priv") f.box_priv))
      (unmarshal-members members (fill-pairs f))
