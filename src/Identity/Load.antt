-- ===== src/Identity/Load.antt =====
-- What a start does with agent.json (`Load` and `create` of internal/identity/identity.go).
use lockping_agent.Prelude.{
  ◌||◌, [], ◌≡◌, ◌≢◌, ◌⊎◌, inl, inr, refl, ap, sym, ◌∙◌, arith, Bytes, bytes_eq, bytes_eq_iff, ok,
  err, Result-cases, Bool-cases,
}
use lockping_agent.Secure.Crypto.{Crypto}
use lockping_agent.Secure.Keys.{Keys, generate_keys}
use lockping_agent.Prelude.{some, Option-cases}
use lockping_agent.Identity.File.{IdentityFile, marshal, unmarshal}
use lockping_agent.Identity.{
  Identity, AgentJson, missing, unreadable, text, Outside, decode, chosen_id, file_of, save, create,
  load_file, load, corrupt_error,
}

-- The file needs keys: there is none yet, or it has an id and lacks a key.
abbrev pub LacksKeys : AgentJson → Type 0
LacksKeys file =
    (file ≡ missing)
    ⊎ ((s : Bytes) × (f : IdentityFile) × (file ≡ text s)
        × (unmarshal s ≡ some f)
        × (f.agent_id ≢ [])
        × ((f.box_pub ≡ []) ⊎ (f.box_priv ≡ [])))

pub err≢ok : (e : Bytes) (i : Identity) → err e ≢ ok i
err≢ok e i h = ground arith

module _ (c : Crypto) where
  -- What a start does with a file that is there: it refuses it, reads it, or adds keys.
  pub file_cases :
      (file : AgentJson) (f : IdentityFile) (path : Bytes) (o : Outside)
      → ((e : Bytes) × (load_file c file f path o ≡ (file, err e)))
        ⊎ (((f.agent_id ≢ []) × (load_file c file f path o ≡ (file, decode f)))
            ⊎ ((f.agent_id ≢ [])
                × ((f.box_pub ≡ []) ⊎ (f.box_priv ≡ []))
                × (load_file c file f path o ≡ create c file path f.agent_id o)))
  unfolding load_file
  file_cases file f path o = elim (Bool-cases (bytes_eq f.agent_id [])) [
    | inl nameless ↦ inl (corrupt_error path, rw nameless refl)
    | inr named ↦
        let filled : f.agent_id ≢ [] = λ e. ground (arith, bytes_eq_iff f.agent_id []) in
        elim (Bool-cases (bytes_eq f.box_pub [] || bytes_eq f.box_priv [])) [
          | inr whole ↦ inr (inl (filled, rw (named, whole) refl))
          | inl lacking ↦ inr (
              inr (
                filled,
                ground (arith, bytes_eq_iff f.box_pub [], bytes_eq_iff f.box_priv []),
                rw (named, lacking) refl,
              ))
        ]
  ]

  pub struct_taken :
      (s path : Bytes) (f : IdentityFile) (o : Outside)
      → unmarshal s ≡ some f
      → load c (text s) path o ≡ load_file c (text s) f path o
  unfolding load
  struct_taken s path f o read = rw (read, load)

  -- A text is no struct, or is taken as one.
  pub text_cases :
      (s path : Bytes) (o : Outside)
      → (load c (text s) path o ≡ (text s, err (corrupt_error path)))
        ⊎ ((f : IdentityFile) × (unmarshal s ≡ some f)
            × (load c (text s) path o ≡ load_file c (text s) f path o))
  unfolding load
  text_cases s path o = elim (Option-cases (unmarshal s)) [
    | inl bad ↦ inl (rw (bad, load))
    | inr (f, read) ↦ inr (f, read, struct_taken s path f o read)
  ]

  -- The file is written only where it lacks keys; otherwise it is left as it was, a text that
  -- cannot be read as an identity too.
  pub load-LacksKeys :
      (file : AgentJson) (path : Bytes) (o : Outside)
      → ((load c file path o).0 ≡ file) ⊎ LacksKeys file
  load-LacksKeys missing path o = inr (inl refl)
  load-LacksKeys (unreadable e) path o = inl (unfold load in refl)
  load-LacksKeys (text s) path o = elim (text_cases s path o) [
    | inl bad ↦ inl (ap (λ x. x.0) bad)
    | inr (f, read, taken) ↦ elim (file_cases (text s) f path o) [
      | inl (e, same) ↦ inl (ap (λ x. x.0) (taken ∙ same))
      | inr (inl (_, same)) ↦ inl (ap (λ x. x.0) (taken ∙ same))
      | inr (inr (named, lacking, _)) ↦ inr (inr (s, f, refl, read, named, lacking))
    ]
  ]

  save_ok :
      (file : AgentJson) (path id : Bytes) (keys : Keys) (o : Outside) {i : Identity}
      → (save file path id keys o).1 ≡ ok i
      → (save file path id keys o ≡ (text (marshal (file_of id keys)), ok i))
        × (i.agent_id ≡ id)
        × (i.keys ≡ keys)
  unfolding save
  save_ok file path id keys o h = (ground arith, ground arith, ground arith)

  pub create_ok :
      (file : AgentJson) (path keep_id : Bytes) (o : Outside) {i : Identity}
      → (create c file path keep_id o).1 ≡ ok i
      → (create c file path keep_id o ≡ (text (marshal (file_of i.agent_id i.keys)), ok i))
        × (chosen_id keep_id o.uuid_random ≡ ok i.agent_id)
        × (generate_keys c o.key_random ≡ ok i.keys)
  unfolding create
  create_ok file path keep_id o {i} h = elim (Result-cases (chosen_id keep_id o.uuid_random)) [
    | inr (e, failed') ↦ ground arith
    | inl (id, chosen) ↦ elim (Result-cases (generate_keys c o.key_random)) [
      | inr (e, failed') ↦ ground arith
      | inl (keys, made) ↦
          let saved : (save file path id keys o).1 ≡ ok i = ground arith in
          let (whole, same_id, same_keys) = save_ok file path id keys o saved in
          let same_file : file_of id keys ≡ file_of i.agent_id i.keys =
            rw (same_id, same_keys) refl in
          (
            rw (chosen, create) (rw made (whole ∙ ap (λ f. (text (marshal f), ok i)) same_file)),
            chosen ∙ ap ok (sym same_id),
            made ∙ ap ok (sym same_keys),
          )
    ]
  ]
