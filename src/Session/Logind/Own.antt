-- ===== src/Session/Logind/Own.antt =====
-- Whose session internal/session/logind_linux.go resolves.
use lockping_agent.Prelude.{
  ℕ, zero, suc, List, [], ◌∷◌, ◌++◌, some, ◌≡◌, refl, ◌∙◌, ◌⊎◌, inl, inr, arith, Bytes, ◌==◌,
  ==_iff, All, All-append, get_elem?, ok, Result-cases, Bool-cases, subst, bytes_eq,
}
use lockping_agent.Prelude.Maps.{Map, lookup, insert, lookup-insert, lookup-insert_self}
use lockping_agent.Session.Pick.{Candidate}
use lockping_agent.Session.Pick.Best.{pick_candidate-IsBest}
use lockping_agent.Session.Logind.{ListedSession, Bus, candidate, collect, session_path, lock}

abbrev In : ListedSession → List ListedSession → Type 0
In l [] = ⊥
In l (l' ∷ ls) = (l ≡ l') ⊎ In l ls

some_inj : (c d : Candidate) → some c ≡ some d → c ≡ d
some_inj c d h = cc

-- The candidate's session has a path.
abbrev Known : Map Bytes → Candidate → Type 0
Known paths c = (path : Bytes) × (lookup c.id paths ≡ some path)

module _ {S : Type 0} (bus : Bus S) (uid : ℕ) where
  -- The path of a session of the user, among those that logind lists.
  abbrev pub IsOwn : List ListedSession → Bytes → Type 0
  IsOwn listed path = (l : ListedSession) × In l listed × (l.uid ≡ uid) × (l.path ≡ path)

  record Resolves (listed : List ListedSession) (paths : Map Bytes) (cands : List Candidate)
      : Type 0 where
    own : (id path : Bytes) → lookup id paths ≡ some path → IsOwn listed path
    known : All (Known paths) cands

  insert-Known :
      (k v : Bytes) (paths : Map Bytes) (c : Candidate) → Known paths c → Known (insert k v paths) c
  insert-Known k v paths c (path, found) = elim (Bool-cases (bytes_eq k c.id)) [
    | inl same ↦ (v, lookup-insert k c.id v paths ∙ rw same)
    | inr other ↦ (path, lookup-insert k c.id v paths ∙ rw other found)
  ]

  all-Known :
      (k v : Bytes) (paths : Map Bytes) (cands : List Candidate)
      → All (Known paths) cands
      → All (Known (insert k v paths)) cands
  all-Known k v paths [] h = tt
  all-Known k v paths (c ∷ cands) (h, hs) =
      (insert-Known k v paths c h, all-Known k v paths cands hs)

  added :
      (s : S) (all : List ListedSession) (paths : Map Bytes) (cands : List Candidate)
      (l : ListedSession)
      → In l all
      → l.uid ≡ uid
      → Resolves all paths cands
      → Resolves all (insert l.id l.path paths) (cands ++ candidate bus uid s l ∷ [])
  unfolding candidate
  added s all paths cands l listed owned h = record {
    own = λ id path found. elim (Bool-cases (bytes_eq l.id id)) [
      | inl same ↦ (l, listed, owned, ground (arith, lookup-insert l.id id l.path paths))
      | inr other ↦ h.own id path (ground (arith, lookup-insert l.id id l.path paths))
    ];
    known =
        All-append (Known (insert l.id l.path paths)) cands _
          (all-Known l.id l.path paths cands h.known)
          ((l.path, lookup-insert_self l.id l.path paths), tt);
  }

  collect-Resolves :
      (s : S) (all : List ListedSession) (paths : Map Bytes) (cands : List Candidate)
      (listed : List ListedSession)
      → ((l : ListedSession) → In l listed → In l all)
      → Resolves all paths cands
      → Resolves all
          (collect bus uid s paths cands listed).0
          (collect bus uid s paths cands listed).1
  unfolding collect
  collect-Resolves s all paths cands [] into h = h
  collect-Resolves s all paths cands (l ∷ listed) into h = elim (Bool-cases (l.uid == uid)) [
    | inr other ↦
        rw (other, collect) (collect-Resolves s all paths cands listed (λ l' i. into l' (inr i)) h)
    | inl own ↦
        let owned = (==_iff l.uid uid).0 own in
        rw (own, collect)
          (collect-Resolves s all (insert l.id l.path paths) (cands ++ candidate bus uid s l ∷ [])
            listed (λ l' i. into l' (inr i))
            (added s all paths cands l (into l (inl refl)) owned h))
  ]

  picked-Known :
      (paths : Map Bytes) (cands : List Candidate) (i : ℕ) {c : Candidate}
      → All (Known paths) cands
      → get_elem? cands i ≡ some c
      → Known paths c
  picked-Known paths [] i h found = cc
  picked-Known paths (c ∷ cands) zero {c = d} (h, _) found =
      subst (Known paths) (some_inj c d found) h
  picked-Known paths (c ∷ cands) (suc i) (_, hs) found = picked-Known paths cands i hs found

  resolved :
      (s : S) {path : Bytes}
      → session_path bus uid s ≡ ok path
      → (listed : List ListedSession) × (bus.list_sessions s ≡ ok listed) × IsOwn listed path
  unfolding session_path
  resolved s {path} h = elim (Result-cases (bus.list_sessions s)) [
    | inr (e, failed) ↦ absurd (ground (arith, failed))
    | inl (listed, are) ↦
        let r =
          collect-Resolves s listed [] [] listed (λ l i. i)
            (record {
              own = λ id path found. absurd (unfold lookup in ground arith);
              known = tt;
            }) in
        elim (pick_candidate-IsBest (collect bus uid s [] [] listed).1) [
          | inl (none', _) ↦ absurd (ground (arith, are, none'))
          | inr (i, c, picked, best) ↦
              let (path', found) = picked-Known _ _ i r.known best.found in
              let same : path' ≡ path = ground (arith, are, picked, found) in
              (listed, are, subst (IsOwn listed) same (r.own c.id path' found))
        ]
  ]

  -- The lock goes to a session of the user, one of those that logind lists, or nothing is locked.
  pub lock-IsOwn :
      (s : S)
      → ((lock bus uid s).0 ≡ s)
        ⊎ ((listed : List ListedSession) × (path : Bytes) × (bus.list_sessions s ≡ ok listed)
            × IsOwn listed path
            × ((lock bus uid s).0 ≡ (bus.lock s path).0))
  unfolding lock
  lock-IsOwn s = elim (Result-cases (session_path bus uid s)) [
    | inr (e, failed) ↦ inl (rw (failed, lock) refl)
    | inl (path, found) ↦
        let (listed, are, own) = resolved s found in
        inr (listed, path, are, own, ground (arith, found))
  ]
