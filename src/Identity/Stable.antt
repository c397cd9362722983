-- ===== src/Identity/Stable.antt =====
-- The agent's id and keys across starts (`Load` of internal/identity/identity.go).
use lockping_agent.Identity.Valid.{unmarshal-IsText, new_uuid-IsText}
use lockping_agent.Utf8.{encode_runes}
use lockping_agent.Prelude.{subst}
use lockping_agent.Prelude.{
  [], ◌≡◌, ◌≢◌, inl, inr, refl, ap, sym, ◌∙◌, arith, Bytes, AllBytes, length, bytes_eq,
  bytes_eq_iff, Result, ok, err, Bool-cases,
}
use lockping_agent.Identity.Uuid.{new_uuid_filled}
use lockping_agent.Secure.Crypto.{Crypto}
use lockping_agent.Base64
use lockping_agent.Secure.Keys.{
  invalid_key, encode_key, Keys, generate_keys, decode_key, decode_key-encode_key,
}
use lockping_agent.Utf8.RoundTrip.{IsText, IsAscii-IsText}
use lockping_agent.Base64.{std, encode}
use lockping_agent.Base64.Ascii.{encode-IsAscii}
use lockping_agent.Prelude.{some}
use lockping_agent.Identity.File.{IdentityFile, marshal, unmarshal, unmarshal-marshal}
use lockping_agent.Identity.{
  Identity, AgentJson, missing, unreadable, text, Outside, decode, chosen_id, file_of, create,
  load_file, load,
}
use lockping_agent.Identity.Load.{err≢ok, file_cases, text_cases, create_ok, struct_taken}

key_text : (k : Bytes) → IsText (encode_key k)
unfolding encode_key
key_text k = IsAscii-IsText (encode std k) (encode-IsAscii k)

same_ok : (s t : Bytes) → ok s ≡ ok t → s ≡ t
same_ok s t h = cc

empty-IsText : IsText []
unfolding encode_runes
empty-IsText = ([], tt, refl)

-- The random bytes are bytes.
abbrev pub HasBytes : Outside → Type 0
HasBytes o = (b : Bytes) → o.uuid_random ≡ ok b → AllBytes b

module _ (c : Crypto) where
  chosen_kept :
      (keep_id : Bytes) (random : Result Bytes) {id : Bytes}
      → keep_id ≢ []
      → chosen_id keep_id random ≡ ok id
      → id ≡ keep_id
  unfolding chosen_id
  chosen_kept keep_id random named h = ground (arith, bytes_eq_iff keep_id [])

  decode-agent_id : (f : IdentityFile) {i : Identity} → decode f ≡ ok i → i.agent_id ≡ f.agent_id
  unfolding decode
  decode-agent_id f h = ground arith

  -- A start that succeeds on a file with an id has this id, whether or not it adds keys.
  pub load-agent_id :
      (s path : Bytes) (o : Outside) {f : IdentityFile} {i : Identity}
      → unmarshal s ≡ some f
      → (load c (text s) path o).1 ≡ ok i
      → i.agent_id ≡ f.agent_id
  load-agent_id s path o {f} {i} read h =
      let taken = struct_taken c s path f o read in
      elim (file_cases c (text s) f path o) [
        | inl (e, same) ↦ absurd (err≢ok e i (sym (ap (λ x. x.1) (taken ∙ same)) ∙ h))
        | inr (inl (_, same)) ↦ decode-agent_id f (sym (ap (λ x. x.1) (taken ∙ same)) ∙ h)
        | inr (inr (named, _, same)) ↦
            let (_, chosen, _) =
              create_ok c (text s) path f.agent_id o (sym (ap (λ x. x.1) (taken ∙ same)) ∙ h) in
            chosen_kept f.agent_id o.uuid_random named chosen
      ]

  abbrev pub IsKey : Bytes → Type 0
  IsKey k = AllBytes k × (length k ≡ 32)

  decode-file_of :
      (i : Identity)
      → IsKey i.keys.pub_key
      → IsKey i.keys.priv_key
      → decode (file_of i.agent_id i.keys) ≡ ok i
  unfolding decode
  decode-file_of i (pub_bytes, pub_size) (priv_bytes, priv_size) =
      rw
        (
          decode_key-encode_key i.keys.pub_key pub_bytes pub_size,
          decode_key-encode_key i.keys.priv_key priv_bytes priv_size,
          decode,
        )
        refl

  empty_key : decode_key [] ≡ err invalid_key
  unfolding decode_key Base64.decode
  empty_key = refl

  decoded_filled :
      (f : IdentityFile) {i : Identity} → decode f ≡ ok i → (f.box_pub ≢ []) × (f.box_priv ≢ [])
  unfolding decode
  decoded_filled f h = (
    λ empty. ground (arith, ap decode_key empty ∙ empty_key),
    λ empty. ground (arith, ap decode_key empty ∙ empty_key),
  )

  load_whole :
      (s path : Bytes) (f : IdentityFile) (i : Identity) (o : Outside)
      → unmarshal s ≡ some f
      → f.agent_id ≢ []
      → decode f ≡ ok i
      → load c (text s) path o ≡ (text s, ok i)
  unfolding load load_file
  load_whole s path f i o read named same =
      let (pub_filled, priv_filled) = decoded_filled f same in
      rw (read, load)
        (ground (
          arith,
          bytes_eq_iff f.agent_id [],
          bytes_eq_iff f.box_pub [],
          bytes_eq_iff f.box_priv [],
        ))

  chosen_filled :
      (keep_id : Bytes) (random : Result Bytes) {id : Bytes}
      → chosen_id keep_id random ≡ ok id
      → id ≢ []
  unfolding chosen_id
  chosen_filled keep_id random {id} h empty = elim (Bool-cases (bytes_eq keep_id [])) [
    | inl fresh ↦ new_uuid_filled random {s = id} (ground arith) empty
    | inr kept ↦ ground (arith, bytes_eq_iff keep_id [])
  ]

  -- The random bytes make keys of 32 bytes.
  abbrev pub MakesKeys : Outside → Type 0
  MakesKeys o =
      (keys : Keys)
      → generate_keys c o.key_random ≡ ok keys
      → IsKey keys.pub_key × IsKey keys.priv_key

  chosen-IsText :
      (keep_id : Bytes) (o : Outside) {id : Bytes}
      → HasBytes o
      → IsText keep_id
      → chosen_id keep_id o.uuid_random ≡ ok id
      → IsText id
  unfolding chosen_id
  chosen-IsText keep_id o {id} bytes valid h = elim (Bool-cases (bytes_eq keep_id [])) [
    | inl fresh ↦ new_uuid-IsText o.uuid_random {id = id} bytes (ground (arith, fresh))
    | inr kept ↦ subst IsText (same_ok keep_id id (ground (arith, kept))) valid
  ]

  -- What was written is read as the struct that was written.
  file_read :
      (id : Bytes) (keys : Keys)
      → IsText id
      → unmarshal (marshal (file_of id keys)) ≡ some (file_of id keys)
  file_read id keys valid =
      unmarshal-marshal (file_of id keys) valid (key_text keys.pub_key) (key_text keys.priv_key)

  created_again :
      (file : AgentJson) (path keep_id : Bytes) (o o' : Outside) {i : Identity}
      → MakesKeys o
      → HasBytes o
      → IsText keep_id
      → (create c file path keep_id o).1 ≡ ok i
      → load c (create c file path keep_id o).0 path o' ≡ ((create c file path keep_id o).0, ok i)
  created_again file path keep_id o o' {i} fit bytes valid h =
      let (whole, chosen, made) = create_ok c file path keep_id o h in
      let (pub_key, priv_key) = fit i.keys made in
      rw whole (
        load_whole (marshal (file_of i.agent_id i.keys)) path (file_of i.agent_id i.keys) i o'
          (file_read i.agent_id i.keys (chosen-IsText keep_id o bytes valid chosen))
          (chosen_filled keep_id o.uuid_random chosen) (decode-file_of i pub_key priv_key))

  -- A start that succeeds, by reading the file, by creating it, or by adding keys to it, leaves a
  -- text from which every later start has the same id and the same keys, and which it leaves as it
  -- is, given that the source of randomness gives bytes, which made keys of 32 bytes.
  pub load_again :
      (file : AgentJson) (path : Bytes) (o o' : Outside) {i : Identity}
      → MakesKeys o
      → HasBytes o
      → (load c file path o).1 ≡ ok i
      → load c (load c file path o).0 path o' ≡ ((load c file path o).0, ok i)
  load_again missing path o o' fit bytes h =
      unfold load in created_again missing path [] o o' fit bytes empty-IsText h
  load_again (unreadable e) path o o' fit bytes h = unfold load in ground arith
  load_again (text s) path o o' {i} fit bytes h = elim (text_cases c s path o) [
    | inl bad ↦ absurd (err≢ok _ i (sym (ap (λ x. x.1) bad) ∙ h))
    | inr (f, read, taken) ↦ elim (file_cases c (text s) f path o) [
      | inl (e, same) ↦ absurd (err≢ok e i (sym (ap (λ x. x.1) (taken ∙ same)) ∙ h))
      | inr (inl (named, same)) ↦
          rw (taken, same)
            (load_whole s path f i o' read named (sym (ap (λ x. x.1) (taken ∙ same)) ∙ h))
      | inr (inr (named, _, same)) ↦
          rw (taken, same)
            (created_again (text s) path f.agent_id o o' fit bytes (unmarshal-IsText s read)
              (sym (ap (λ x. x.1) (taken ∙ same)) ∙ h))
    ]
  ]
