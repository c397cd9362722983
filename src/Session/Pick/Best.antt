-- ===== src/Session/Pick/Best.antt =====
-- The session that `pickCandidate` of internal/session/pick.go picks.
use lockping_agent.Prelude.{
  ℕ, zero, suc, ◌≤◌, ◌<◌, Bool, true, false, ◌&&◌, List, [], ◌∷◌, ◌++◌, none, some, ◌≡◌, refl, sym,
  ap, ◌∙◌, ◌⊎◌, inl, inr, arith, length, length-append, get_elem?, append_assoc, append-nil,
  if◌then◌else◌, Bool-cases,
}
use lockping_agent.Prelude.Int.{ℤ, pos, negsuc, ltb_ℤ}
use lockping_agent.Session.Pick.{Candidate, is_lockable, score, pick_loop, chosen, pick_candidate}

get_elem?-snoc :
    (xs : List Candidate) (c d : Candidate) (j : ℕ)
    → get_elem? (xs ++ c ∷ []) j ≡ some d
    → (get_elem? xs j ≡ some d) ⊎ ((j ≡ length xs) × (d ≡ c))
get_elem?-snoc [] c d zero h = inr (refl, cc)
get_elem?-snoc [] c d (suc j) h = cc
get_elem?-snoc (x ∷ xs) c d zero h = inl h
get_elem?-snoc (x ∷ xs) c d (suc j) h = elim (get_elem?-snoc xs c d j h) [
  | inl old ↦ inl old
  | inr (e, new) ↦ inr (ap suc e, new)
]

get_elem?-lt :
    (xs : List Candidate) (d : Candidate) (j : ℕ) → get_elem? xs j ≡ some d → j < length xs
get_elem?-lt [] d j h = cc
get_elem?-lt (x ∷ xs) d zero h = omega arith
get_elem?-lt (x ∷ xs) d (suc j) h = omega (arith, get_elem?-lt xs d j h)

get_elem?-snoc_old :
    (xs : List Candidate) (c d : Candidate) (j : ℕ)
    → get_elem? xs j ≡ some d
    → get_elem? (xs ++ c ∷ []) j ≡ some d
get_elem?-snoc_old [] c d j h = cc
get_elem?-snoc_old (x ∷ xs) c d zero h = h
get_elem?-snoc_old (x ∷ xs) c d (suc j) h = get_elem?-snoc_old xs c d j h

get_elem?-snoc_new :
    (xs : List Candidate) (c : Candidate) → get_elem? (xs ++ c ∷ []) (length xs) ≡ some c
get_elem?-snoc_new [] c = refl
get_elem?-snoc_new (x ∷ xs) c = get_elem?-snoc_new xs c

-- No candidate can be locked.
abbrev pub NoneLockable : List Candidate → Type 0
NoneLockable cands = (j : ℕ) (d : Candidate) → get_elem? cands j ≡ some d → is_lockable d ≡ false

-- The candidate at `i` can be locked, no lockable one scores higher, and those before it score less.
pub record IsBest (cands : List Candidate) (i : ℕ) (c : Candidate) : Type 0 where
  pub found : get_elem? cands i ≡ some c
  pub lockable : is_lockable c ≡ true
  pub most :
      (j : ℕ) (d : Candidate)
      → get_elem? cands j ≡ some d
      → is_lockable d ≡ true
      → (score d ≤ score c) × (j < i → score d < score c)

-- What the two variables of the loop say of the candidates passed.
abbrev Tracks : List Candidate → ℤ → ℤ → Type 0
Tracks past best best_score =
    (NoneLockable past × (best ≡ negsuc 0) × (best_score ≡ negsuc 0))
    ⊎ ((i : ℕ) × (c : Candidate) × (best ≡ pos i) × (best_score ≡ pos (score c)) × IsBest past i c)

NoneLockable-snoc :
    (past : List Candidate) (c : Candidate)
    → NoneLockable past
    → is_lockable c ≡ false
    → NoneLockable (past ++ c ∷ [])
NoneLockable-snoc past c h k j d at = elim (get_elem?-snoc past c d j at) [
  | inl old ↦ h j d old
  | inr (_, e) ↦ rw e k
]

first-IsBest :
    (past : List Candidate) (c : Candidate)
    → NoneLockable past
    → is_lockable c ≡ true
    → IsBest (past ++ c ∷ []) (length past) c
first-IsBest past c h k = record {
  found = get_elem?-snoc_new past c;
  lockable = k;
  most = λ j d at lock. elim (get_elem?-snoc past c d j at) [
    | inl old ↦ absurd (true≢false (sym lock ∙ h j d old))
    | inr (e, same) ↦ (omega (arith, ap score same), λ lt. absurd (omega arith))
  ];
}
  where
    true≢false : true ≡ false → ⊥
    true≢false e = cc

better-IsBest :
    (past : List Candidate) (i : ℕ) (b c : Candidate)
    → IsBest past i b
    → is_lockable c ≡ true
    → score b < score c
    → IsBest (past ++ c ∷ []) (length past) c
better-IsBest past i b c h k lt = record {
  found = get_elem?-snoc_new past c;
  lockable = k;
  most = λ j d at lock. elim (get_elem?-snoc past c d j at) [
    | inl old ↦
        (omega (arith, (h.most j d old lock).0), λ _. omega (arith, (h.most j d old lock).0))
    | inr (e, same) ↦ (omega (arith, ap score same), λ lt'. absurd (omega arith))
  ];
}

same-IsBest :
    (past : List Candidate) (i : ℕ) (b c : Candidate)
    → IsBest past i b
    → (is_lockable c ≡ true → score c ≤ score b)
    → IsBest (past ++ c ∷ []) i b
same-IsBest past i b c h k = record {
  found = get_elem?-snoc_old past c b i h.found;
  lockable = h.lockable;
  most = λ j d at lock. elim (get_elem?-snoc past c d j at) [
    | inl old ↦ h.most j d old lock
    | inr (e, same) ↦
        let low = k (sym (ap is_lockable same) ∙ lock) in
        (
          omega (arith, ap score same, low),
          λ lt. absurd (omega (arith, get_elem?-lt past b i h.found)),
        )
  ];
}

abbrev better : Candidate → ℤ → Bool
better c best_score = is_lockable c && ltb_ℤ best_score (pos (score c))

abbrev next_best : ℕ → Candidate → ℤ → ℤ → ℤ
next_best i c best best_score = if better c best_score then pos i else best

abbrev next_score : Candidate → ℤ → ℤ
next_score c best_score = if better c best_score then pos (score c) else best_score

-- One round of the loop.
Tracks-snoc :
    (past : List Candidate) (best best_score : ℤ) (c : Candidate)
    → Tracks past best best_score
    → Tracks (past ++ c ∷ []) (next_best (length past) c best best_score) (next_score c best_score)
Tracks-snoc past best best_score c (inl (h, e, e')) = elim (Bool-cases (is_lockable c)) [
  | inl k ↦ inr (
    length past,
    c,
    rw (k, e') (ground arith),
    rw (k, e') (ground arith),
    first-IsBest past c h k,
  )
  | inr k ↦ inl (NoneLockable-snoc past c h k, rw k e, rw k e')
]
Tracks-snoc past best best_score c (inr (i, b, e, e', h)) =
    elim (Bool-cases (better c best_score)) [
      | inl k ↦ inr (
        length past,
        c,
        rw k refl,
        rw k refl,
        better-IsBest past i b c h (ground arith) (ground arith),
      )
      | inr k ↦ inr (i, b, rw k e, rw k e', same-IsBest past i b c h (λ lock. ground arith))
    ]

pick_loop-Tracks :
    (past cands : List Candidate) (best best_score : ℤ)
    → Tracks past best best_score
    → (best_score' : ℤ) × Tracks
        (past ++ cands)
        (pick_loop (length past) best best_score cands)
        best_score'
unfolding pick_loop
pick_loop-Tracks past [] best best_score h = (best_score, rw append-nil h)
pick_loop-Tracks past (c ∷ cands) best best_score h =
    let next = Tracks-snoc past best best_score c h in
    let size : length (past ++ c ∷ []) ≡ suc (length past) =
      omega (arith, length-append past (c ∷ [])) in
    rw (← append_assoc past (c ∷ []) cands, ← size)
      (pick_loop-Tracks (past ++ c ∷ []) cands _ _ next)

-- The choice is the first among the lockable candidates with the highest score; there is none
-- exactly if no candidate can be locked.
pub pick_candidate-IsBest :
    (cands : List Candidate)
    → ((pick_candidate cands ≡ none) × NoneLockable cands)
      ⊎ ((i : ℕ) × (c : Candidate) × (pick_candidate cands ≡ some c) × IsBest cands i c)
unfolding pick_candidate chosen
pick_candidate-IsBest cands =
    let (best_score, tracked) =
      pick_loop-Tracks [] cands (negsuc 0) (negsuc 0) (inl (λ j d h. cc, refl, refl)) in
    elim tracked [
      | inl (none', e, _) ↦ inl (rw e, none')
      | inr (i, c, e, _, best) ↦ inr (i, c, rw e best.found, best)
    ]
