-- ===== src/Identity/Valid.antt =====
-- The id of a start (internal/identity/identity.go) is valid UTF-8.
use lockping_agent.Prelude.{
  ℕ, zero, suc, take, drop, All-append, ◌<◌, true, [], ◌∷◌, ◌++◌, some, ◌≡◌, refl, ap, ◌∙◌, arith,
  subst, inl, inr, Bytes, codes, Result, ok, err, Option-cases, Bool-cases, AllBytes, All, join,
}
use lockping_agent.Utf8.{encode_runes}
use lockping_agent.Utf8.RoundTrip.{IsText, IsAscii, IsAscii-IsText}
use lockping_agent.Json.{Value, Fields, null, bool, num, str, arr, obj, end, field}
use lockping_agent.Json.Parse.{parse}
use lockping_agent.Json.Parse.Clean.{IsClean, AreClean}
use lockping_agent.Json.Parse.Texts.{parse-AreClean}
use lockping_agent.Json.Struct.{names, to_string, fill, fill_value}
use lockping_agent.Identity.Uuid.{hex, uuid, new_uuid, change_at, with_version, with_variant}
use lockping_agent.Identity.File.{IdentityFile, set_field, empty_file, unmarshal}

to_string-IsText : (old : Bytes) (v : Value) → IsText old → IsClean v → IsText (to_string old v).0
unfolding IsClean
to_string-IsText old null h k = h
to_string-IsText old (bool b) h k = h
to_string-IsText old (num n) h k = h
to_string-IsText old (str s) h k = k
to_string-IsText old (arr xs) h k = h
to_string-IsText old (obj xs) h k = h

set_field-IsText :
    (key : Bytes) (v : Value) (f : IdentityFile)
    → IsClean v
    → IsText f.agent_id
    → IsText (set_field key v f).0.agent_id
unfolding set_field
set_field-IsText key v f clean h = elim (Bool-cases (names (codes "agent_id") key)) [
  | inl is ↦ rw (is, set_field) (to_string-IsText f.agent_id v h clean)
  | inr a ↦ elim (Bool-cases (names (codes "box_pub") key)) [
    | inl is ↦ rw (a, is, set_field) h
    | inr b ↦ elim (Bool-cases (names (codes "box_priv") key)) [
      | inl is ↦ rw (a, b, is, set_field) h
      | inr d ↦ rw (a, b, d, set_field) h
    ]
  ]
]

fill-IsText :
    (xs : Fields) (f : IdentityFile)
    → AreClean xs
    → IsText f.agent_id
    → IsText (fill set_field xs f).0.agent_id
unfolding fill AreClean
fill-IsText end f h k = k
fill-IsText (field key v xs) f (clean, h) k =
    fill-IsText xs (set_field key v f).0 h (set_field-IsText key v f clean k)

value-IsText :
    (v : Value) {f : IdentityFile}
    → ((xs : Fields) → v ≡ obj xs → AreClean xs)
    → fill_value set_field v empty_file ≡ (f, true)
    → IsText f.agent_id
unfolding fill_value encode_runes
value-IsText null h e = subst IsText (ap (λ x. x.0.agent_id) e) ([], tt, refl)
value-IsText (obj xs) h e =
    subst IsText (ap (λ x. x.0.agent_id) e) (fill-IsText xs empty_file (h xs refl) ([], tt, refl))
value-IsText (bool b) h e = absurd (ground arith)
value-IsText (num n) h e = absurd (ground arith)
value-IsText (str s) h e = absurd (ground arith)
value-IsText (arr xs) h e = absurd (ground arith)

-- Whatever bytes the file holds, the id that is read from it is valid UTF-8.
pub unmarshal-IsText : (s : Bytes) {f : IdentityFile} → unmarshal s ≡ some f → IsText f.agent_id
unfolding unmarshal
unmarshal-IsText s {f} h = elim (Option-cases (parse s)) [
  | inl bad ↦ absurd (ground (arith, bad))
  | inr (v, read) ↦
      value-IsText v {f = f} (λ xs is. parse-AreClean s (read ∙ ap some is)) (ground (arith, read))
]

-- The new id.
hex-IsAscii : (s : Bytes) → AllBytes s → All (λ c. c < 0x80) (hex s)
unfolding hex
hex-IsAscii [] h = tt
hex-IsAscii (b ∷ s) (h, hs) = (ground arith, (ground arith, hex-IsAscii s hs))

all-take : (n : ℕ) (s : Bytes) → AllBytes s → AllBytes (take n s)
all-take zero s h = tt
all-take (suc n) [] h = tt
all-take (suc n) (b ∷ s) (h, hs) = (h, all-take n s hs)

all-drop : (n : ℕ) (s : Bytes) → AllBytes s → AllBytes (drop n s)
all-drop zero s h = h
all-drop (suc n) [] h = tt
all-drop (suc n) (b ∷ s) (h, hs) = all-drop n s hs

all-change_at :
    (i : ℕ) (f : ℕ → ℕ) (s : Bytes)
    → ((b : ℕ) → f b < 256)
    → AllBytes s
    → AllBytes (change_at i f s)
unfolding change_at
all-change_at i f [] small h = tt
all-change_at zero f (b ∷ s) small (h, hs) = (small b, hs)
all-change_at (suc i) f (b ∷ s) small (h, hs) = (h, all-change_at i f s small hs)

group : (n k : ℕ) (s : Bytes) → AllBytes s → All (λ c. c < 0x80) (hex (take n (drop k s)))
group n k s h = hex-IsAscii (take n (drop k s)) (all-take n (drop k s) (all-drop k s h))

dashed :
    (s t : Bytes)
    → All (λ c. c < 0x80) s
    → All (λ c. c < 0x80) t
    → All (λ c. c < 0x80) (s ++ b'-' ∷ t)
dashed s t h k = All-append (λ c. c < 0x80) s (b'-' ∷ t) h (omega arith, k)

uuid-IsText : (s : Bytes) → AllBytes s → IsText (uuid s)
unfolding uuid join IsAscii
uuid-IsText s h = IsAscii-IsText (uuid s) (
    dashed (hex (take 4 s)) _ (hex-IsAscii (take 4 s) (all-take 4 s h)) (
      dashed (hex (take 2 (drop 4 s))) _ (group 2 4 s h) (
        dashed (hex (take 2 (drop 6 s))) _ (group 2 6 s h)
          (dashed (hex (take 2 (drop 8 s))) _ (group 2 8 s h) (group 6 10 s h)))))

result_inj : (s t : Bytes) → ok s ≡ ok t → s ≡ t
result_inj s t h = cc

-- The random bytes are bytes.
pub new_uuid-IsText :
    (random : Result Bytes) {id : Bytes}
    → ((b : Bytes) → random ≡ ok b → AllBytes b)
    → new_uuid random ≡ ok id
    → IsText id
unfolding new_uuid
new_uuid-IsText (err e) bytes h = absurd (ground arith)
new_uuid-IsText (ok b) {id} bytes h =
    let b' = change_at 6 with_version b in
    subst IsText (result_inj _ id h) (
      uuid-IsText (change_at 8 with_variant b') (
        all-change_at 8 with_variant b' (λ x. omega arith)
          (all-change_at 6 with_version b (λ x. omega arith) (bytes b refl))))
