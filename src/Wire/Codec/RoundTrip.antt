-- ===== src/Wire/Codec/RoundTrip.antt =====
-- `Decode` of internal/wire/wire.go undoes `Encode`.
use lockping_agent.Utf8.RoundTrip.{IsText}
use lockping_agent.Json.Parse.Members.Names.{is_name}
use lockping_agent.Prelude.{
  zero, suc, Bool, true, List, [], ◌∷◌, ◌++◌, Option, some, none, ◌≡◌, refl, ap, sym, arith, Bytes,
  codes, subst, bytes_eq, bytes_eq_iff, Bool-cases, inl, inr, ok,
}
use lockping_agent.Prelude.Int.{ℤ, pos, negsuc}
use lockping_agent.Json.{Value, num, str}
use lockping_agent.Json.Print.{print_int, object}
use lockping_agent.Json.Struct.{names, to_int64, fill, fill_value}
use lockping_agent.Json.Struct.Integers.{IsInt64, parse_int64-print_int}
use lockping_agent.Json.Parse.Members.{Prints, Prints-append, to_fields, parse-object}
use lockping_agent.Wire.{Payload, empty_payload}
use lockping_agent.Wire.Codec.{set_field, encode, decode}
use lockping_agent.Wire.Codec.Members.{
  string_pair, int_pair, bool_pair, text-Prints, string_member-Prints, int_member-Prints,
  bool_member-Prints,
}

-- The members, one after the other, turn one payload into another.
data Fills : Payload → List (Bytes × Value) → Payload → Type 0 where
  filled : {p : Payload} → Fills p [] p
  set_one :
      {p r : Payload} (name : Bytes) (v : Value) {ps : List (Bytes × Value)} (q : Payload)
      → set_field name v p ≡ (q, true)
      → Fills q ps r
      → Fills p ((name, v) ∷ ps) r

Fills-fill :
    {p q : Payload} {ps : List (Bytes × Value)}
    → Fills p ps q
    → fill set_field (to_fields ps) p ≡ (q, true)
unfolding fill to_fields
Fills-fill filled = refl
Fills-fill (set_one name v q h k) = ground (arith, h, Fills-fill k)

Fills-append :
    {p q r : Payload} {xs ys : List (Bytes × Value)}
    → Fills p xs q
    → Fills q ys r
    → Fills p (xs ++ ys) r
Fills-append filled k = k
Fills-append (set_one name v q h more') k = set_one name v q h (Fills-append more' k)

-- A field that is left out where it is empty.
string_filled :
    (p : Payload) (name s : Bytes) (put : Payload → Bytes → Payload)
    → set_field name (str s) p ≡ (put p s, true)
    → put p [] ≡ p
    → Fills p (string_pair name s) (put p s)
string_filled p name s put h keeps = elim (Bool-cases (bytes_eq s [])) [
  | inl empty ↦
      rw (empty, (bytes_eq_iff s []).0 empty) (subst (λ q. Fills p [] q) (sym keeps) filled)
  | inr some' ↦ rw some' (set_one name (str s) (put p s) h filled)
]

-- The payload of a row of members, as `Decode` reads it.
decode-members :
    {m : Bytes} {ms : List Bytes} {ps : List (Bytes × Value)} {p : Payload}
    → Prints (m ∷ ms) ps
    → Fills empty_payload ps p
    → decode (object (m ∷ ms)) ≡ some p
unfolding decode fill_value
decode-members printed fills = rw (parse-object printed, decode) (rw (Fills-fill fills) refl)

-- The texts are valid UTF-8, and the time is within 64 bits.
pub record IsPortable (p : Payload) : Type 0 where
  pub kind : IsText p.kind
  pub nonce : IsText p.nonce
  pub ts : IsInt64 p.ts
  pub machine : IsText p.machine
  pub os : IsText p.os
  pub error : IsText p.error
  pub pub_key : IsText p.pub_key
  pub mac : IsText p.mac

read_int : (old n : ℤ) → IsInt64 n → to_int64 old (num (print_int n)) ≡ (n, true)
unfolding to_int64
read_int old n small = rw (parse_int64-print_int n small, to_int64)

set_ts :
    (p : Payload) (n : ℤ)
    → IsInt64 n
    → set_field (codes "ts") (num (print_int n)) p ≡ (record p { ts = n }, true)
unfolding set_field names
set_ts p n small = ap (λ x. (record p { ts = x.0 }, x.1)) (read_int p.ts n small)

int_filled :
    (p : Payload) (n : ℤ)
    → IsInt64 n
    → p.ts ≡ pos 0
    → Fills p (int_pair (codes "ts") n) (record p { ts = n })
int_filled p (pos zero) small none_yet = rw (← none_yet) filled
int_filled p (pos (suc n)) small none_yet = set_one _ _ _ (set_ts p (pos (suc n)) small) filled
int_filled p (negsuc n) small none_yet = set_one _ _ _ (set_ts p (negsuc n) small) filled

locked_filled :
    (p : Payload) (b : Option Bool)
    → p.locked ≡ none
    → Fills p (bool_pair (codes "locked") b) (record p { locked = b })
unfolding set_field names
locked_filled p none none_yet = rw (← none_yet) filled
locked_filled p (some b) none_yet = set_one _ _ _ refl filled

ok_filled :
    (p : Payload) (b : Option Bool)
    → p.ok ≡ none
    → Fills p (bool_pair (codes "ok") b) (record p { ok = b })
unfolding set_field names
ok_filled p none none_yet = rw (← none_yet) filled
ok_filled p (some b) none_yet = set_one _ _ _ refl filled

-- Every member that is written sets its field.
all_filled :
    (p : Payload)
    → IsInt64 p.ts
    → Fills empty_payload
        ((codes "kind", str p.kind)
          ∷ (string_pair (codes "nonce") p.nonce
              ++ (int_pair (codes "ts") p.ts
                  ++ (bool_pair (codes "locked") p.locked
                      ++ (string_pair (codes "machine") p.machine
                          ++ (string_pair (codes "os") p.os
                              ++ (bool_pair (codes "ok") p.ok
                                  ++ (string_pair (codes "error") p.error
                                      ++ (string_pair (codes "pub_key") p.pub_key
                                          ++ string_pair (codes "mac") p.mac)))))))))
        p
unfolding set_field names
all_filled p small =
    let a = record empty_payload { kind = p.kind } in
    let b = record a { nonce = p.nonce } in
    let c = record b { ts = p.ts } in
    let d = record c { locked = p.locked } in
    let e = record d { machine = p.machine } in
    let f = record e { os = p.os } in
    let g = record f { ok = p.ok } in
    let i = record g { error = p.error } in
    let j = record i { pub_key = p.pub_key } in
    set_one _ _ a refl (
      Fills-append
        (string_filled a (codes "nonce") p.nonce (λ t v. record t { nonce = v }) refl refl)
        (Fills-append (int_filled b p.ts small refl) (
          Fills-append (locked_filled c p.locked refl) (
            Fills-append
              (string_filled d (codes "machine") p.machine (λ t v. record t { machine = v }) refl
                refl)
              (Fills-append
                (string_filled e (codes "os") p.os (λ t v. record t { os = v }) refl refl)
                (Fills-append (ok_filled f p.ok refl) (
                  Fills-append
                    (string_filled g (codes "error") p.error (λ t v. record t { error = v }) refl
                      refl)
                    (Fills-append
                      (string_filled i (codes "pub_key") p.pub_key (λ t v. record t { pub_key = v })
                        refl refl)
                      (string_filled j (codes "mac") p.mac (λ t v. record t { mac = v }) refl
                        refl)))))))))

-- What Encode writes of a payload, Decode reads back, where the payload's texts are valid UTF-8 and
-- its time is an integer of 64 bits.
pub decode-encode :
    (p : Payload) → IsPortable p → (text : Bytes) × (encode p ≡ ok text) × (decode text ≡ some p)
unfolding encode is_name
decode-encode p h = (
  _,
  refl,
  decode-members
      (text-Prints refl h.kind (
        Prints-append (string_member-Prints (codes "nonce") p.nonce refl h.nonce) (
          Prints-append (int_member-Prints (codes "ts") p.ts refl h.ts) (
            Prints-append (bool_member-Prints (codes "locked") p.locked refl) (
              Prints-append (string_member-Prints (codes "machine") p.machine refl h.machine) (
                Prints-append (string_member-Prints (codes "os") p.os refl h.os) (
                  Prints-append (bool_member-Prints (codes "ok") p.ok refl) (
                    Prints-append (string_member-Prints (codes "error") p.error refl h.error) (
                      Prints-append
                        (string_member-Prints (codes "pub_key") p.pub_key refl h.pub_key)
                        (string_member-Prints (codes "mac") p.mac refl h.mac))))))))))
      (all_filled p h.ts),
)
