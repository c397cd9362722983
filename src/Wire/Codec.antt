-- ===== src/Wire/Codec.antt =====
-- internal/wire/wire.go: `Decode` and `Encode`.
pub mod Members
pub mod RoundTrip
use lockping_agent.Prelude.{
  zero, suc, Bool, true, List, [], ◌∷◌, ◌++◌, Option, none, some, ◌≡◌, refl, Bytes, codes, bytes_eq,
  if◌then◌else◌, Result, ok,
}
use lockping_agent.Prelude.Int.{ℤ, pos, negsuc}
use lockping_agent.Json.{Value}
use lockping_agent.Json.Parse.{parse}
use lockping_agent.Json.Print.{print_string, print_int, print_bool, member, object}
use lockping_agent.Json.Struct.{names, to_string, to_int64, to_bool_ref, fill_value}
use lockping_agent.Wire.{Payload, empty_payload, kind_lock}

pub set_field : Bytes → Value → Payload → Payload × Bool
set_field key v p =
    if names (codes "kind") key
    then (let (x, fine) = to_string p.kind v in (record p { kind = x }, fine))
    else if names (codes "nonce") key
    then (let (x, fine) = to_string p.nonce v in (record p { nonce = x }, fine))
    else if names (codes "ts") key
    then (let (x, fine) = to_int64 p.ts v in (record p { ts = x }, fine))
    else if names (codes "locked") key
    then (let (x, fine) = to_bool_ref p.locked v in (record p { locked = x }, fine))
    else if names (codes "machine") key
    then (let (x, fine) = to_string p.machine v in (record p { machine = x }, fine))
    else if names (codes "os") key
    then (let (x, fine) = to_string p.os v in (record p { os = x }, fine))
    else if names (codes "ok") key
    then (let (x, fine) = to_bool_ref p.ok v in (record p { ok = x }, fine))
    else if names (codes "error") key
    then (let (x, fine) = to_string p.error v in (record p { error = x }, fine))
    else if names (codes "pub_key") key
    then (let (x, fine) = to_string p.pub_key v in (record p { pub_key = x }, fine))
    else if names (codes "mac") key
    then (let (x, fine) = to_string p.mac v in (record p { mac = x }, fine))
    else (p, true)

-- `none`: an error, of the syntax or of a field's type; no caller reads the payload then.
unfoldable pub decode : Bytes → Option Payload
unfolding set_field
decode s = elim (parse s) [
  | none ↦ none
  | some v ↦ let (p, fine) = fill_value set_field v empty_payload in if fine then some p else none
]

-- `omitempty`
pub string_member : Bytes → Bytes → List Bytes
string_member name s = if bytes_eq s [] then [] else member name (print_string s) ∷ []

pub int_member : Bytes → ℤ → List Bytes
int_member name (pos n) = elim n [ zero ↦ [] | suc m ↦ member name (print_int (pos (suc m))) ∷ [] ]
int_member name (negsuc n) = member name (print_int (negsuc n)) ∷ []

pub bool_member : Bytes → Option Bool → List Bytes
bool_member name none = []
bool_member name (some b) = member name (print_bool b) ∷ []

-- Marshalling this struct never fails, so the result is always `ok`.
unfoldable pub encode : Payload → Result Bytes
unfolding string_member int_member bool_member
encode p = ok (
    object (
      member (codes "kind") (print_string p.kind)
      ∷ (string_member (codes "nonce") p.nonce
          ++ (int_member (codes "ts") p.ts
              ++ (bool_member (codes "locked") p.locked
                  ++ (string_member (codes "machine") p.machine
                      ++ (string_member (codes "os") p.os
                          ++ (bool_member (codes "ok") p.ok
                              ++ (string_member (codes "error") p.error
                                  ++ (string_member (codes "pub_key") p.pub_key
                                      ++ string_member (codes "mac") p.mac))))))))))

abbrev lock_command : Payload
lock_command = record empty_payload { kind = kind_lock; nonce = codes "n1"; ts = pos 1750000000 }

encode_lock :
    encode lock_command ≡ ok (codes "{\"kind\":\"lock\",\"nonce\":\"n1\",\"ts\":1750000000}")
unfolding encode object member print_string print_int bytes_eq
encode_lock = refl

decode_lock :
    decode (codes "{\"kind\":\"lock\",\"nonce\":\"n1\",\"ts\":1750000000}") ≡ some lock_command
unfolding decode parse fill_value names to_int64
decode_lock = refl

decode_bad_type : decode (codes "{\"kind\":\"lock\",\"ts\":\"now\"}") ≡ none
unfolding decode parse fill_value names to_int64
decode_bad_type = refl
