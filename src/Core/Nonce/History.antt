-- ===== src/Core/Nonce/History.antt =====
-- The nonce cache against its specification: the whole history of accepted nonces, never pruned.
use lockping_agent.Prelude.{
  Bool, true, false, not, ◌&&◌, ◌||◌, List, [], ◌∷◌, none, some, ◌≡◌, refl, arith, Bytes, bytes_eq,
  if◌then◌else◌, inl, inr, Option-cases, ◌∙◌, sym, ap,
}
use lockping_agent.Prelude.Int.{ℤ, ◌-ℤ◌, ltb_ℤ, ◌≤ℤ◌, -ℤ_parts}
use lockping_agent.Prelude.Maps.{Map, lookup, insert}
use lockping_agent.Core.Nonce.{NonceCache, new_nonce_cache, prune, add}

-- The nonce was recorded, and not more than `ttl` ago.
unfoldable pub recent : ℤ → ℤ → Bytes → Map ℤ → Bool
recent ttl now k [] = false
recent ttl now k ((j, t) ∷ m) = (bytes_eq j k && not (ltb_ℤ ttl (now -ℤ t))) || recent ttl now k m

-- The specification of `add`: a nonce is new if the history has no recent one like it.
unfoldable pub spec_add : ℤ → Map ℤ → Bytes → ℤ → Map ℤ × Bool
spec_add ttl history nonce now =
    if recent ttl now nonce history then (history, false) else ((nonce, now) ∷ history, true)

later :
    (ttl now now' t : ℤ) → now ≤ℤ now' → ltb_ℤ ttl (now -ℤ t) ≡ true → ltb_ℤ ttl (now' -ℤ t) ≡ true
later ttl now now' t le h = ground (arith, -ℤ_parts now t, -ℤ_parts now' t)

pub recent-prune :
    (ttl now now' : ℤ) (k : Bytes) (m : Map ℤ)
    → now ≤ℤ now'
    → recent ttl now' k (prune ttl now m) ≡ recent ttl now' k m
unfolding recent prune
recent-prune ttl now now' k [] le = refl
recent-prune ttl now now' k ((j, t) ∷ m) le =
    ground (arith, later ttl now now' t le, recent-prune ttl now now' k m le)

pub lookup-prune-none :
    (ttl now : ℤ) (k : Bytes) (m : Map ℤ)
    → lookup k (prune ttl now m) ≡ none
    → recent ttl now k m ≡ false
unfolding recent prune lookup
lookup-prune-none ttl now k [] h = refl
lookup-prune-none ttl now k ((j, t) ∷ m) h = ground (arith, lookup-prune-none ttl now k m)

pub lookup-prune-some :
    (ttl now : ℤ) (k : Bytes) (m : Map ℤ) (t : ℤ)
    → lookup k (prune ttl now m) ≡ some t
    → recent ttl now k m ≡ true
unfolding recent prune lookup
lookup-prune-some ttl now k [] t h = ground arith
lookup-prune-some ttl now k ((j, u) ∷ m) t h = ground (arith, lookup-prune-some ttl now k m t)

recent-insert :
    (ttl now : ℤ) (k j : Bytes) (t : ℤ) (m : Map ℤ)
    → lookup k m ≡ none
    → recent ttl now j (insert k t m)
      ≡ ((bytes_eq k j && not (ltb_ℤ ttl (now -ℤ t))) || recent ttl now j m)
unfolding recent insert lookup
recent-insert ttl now k j t [] h = refl
recent-insert ttl now k j t ((i, u) ∷ m) h = ground (arith, recent-insert ttl now k j t m)

-- The cache and the history answer alike from now on.
abbrev Agrees : ℤ → ℤ → Map ℤ → Map ℤ → Type 0
Agrees ttl now m history =
    (now' : ℤ) (k : Bytes) → now ≤ℤ now' → recent ttl now' k m ≡ recent ttl now' k history

Agrees-prune :
    (ttl now now' : ℤ) (m h : Map ℤ)
    → now ≤ℤ now'
    → Agrees ttl now m h
    → Agrees ttl now' (prune ttl now' m) h
Agrees-prune ttl now now' m h le agrees now'' k le' =
    recent-prune ttl now' now'' k m le' ∙ agrees now'' k (omega arith)

Agrees-insert :
    (ttl now : ℤ) (nonce : Bytes) (m h : Map ℤ)
    → lookup nonce m ≡ none
    → Agrees ttl now m h
    → Agrees ttl now (insert nonce now m) ((nonce, now) ∷ h)
unfolding recent
Agrees-insert ttl now nonce m h absent agrees now' k le =
    rw (recent-insert ttl now' nonce k now m absent, agrees now' k le)

abbrev cache : ℤ → Map ℤ → NonceCache
cache ttl m = record { ttl = ttl; seen = m }

-- One `add` answers as the specification does, and the two still agree.
add-spec_add :
    (ttl : ℤ) (m h : Map ℤ) (nonce : Bytes) (now now' : ℤ)
    → now ≤ℤ now'
    → Agrees ttl now m h
    → (m' h' : Map ℤ) × (fresh : Bool) × (add (cache ttl m) nonce now' ≡ (cache ttl m', fresh))
      × (spec_add ttl h nonce now' ≡ (h', fresh))
      × Agrees ttl now' m' h'
unfolding add spec_add
add-spec_add ttl m h nonce now now' le agrees =
    elim (Option-cases (lookup nonce (prune ttl now' m))) [
      | inl absent ↦
          let unseen : recent ttl now' nonce h ≡ false =
            sym (agrees now' nonce le) ∙ lookup-prune-none ttl now' nonce m absent in
          (
            insert nonce now' (prune ttl now' m),
            (nonce, now') ∷ h,
            true,
            rw (absent, add),
            rw (unseen, spec_add),
            Agrees-insert ttl now' nonce (prune ttl now' m) h absent
                (Agrees-prune ttl now now' m h le agrees),
          )
      | inr (t, present) ↦
          let seen : recent ttl now' nonce h ≡ true =
            sym (agrees now' nonce le) ∙ lookup-prune-some ttl now' nonce m t present in
          (
            prune ttl now' m,
            h,
            false,
            rw (present, add),
            rw (seen, spec_add),
            Agrees-prune ttl now now' m h le agrees,
          )
    ]

-- The readings do not go back.
abbrev pub Rising : ℤ → List (Bytes × ℤ) → Type 0
Rising now [] = Unit
Rising now ((_, t) ∷ adds) = (now ≤ℤ t) × Rising t adds

-- The answers to a sequence of calls.
unfoldable pub run_adds : NonceCache → List (Bytes × ℤ) → List Bool
run_adds n [] = []
run_adds n ((nonce, now) ∷ adds) = let (n', fresh) = add n nonce now in fresh ∷ run_adds n' adds

unfoldable pub run_spec : ℤ → Map ℤ → List (Bytes × ℤ) → List Bool
run_spec ttl h [] = []
run_spec ttl h ((nonce, now) ∷ adds) =
    let (h', fresh) = spec_add ttl h nonce now in fresh ∷ run_spec ttl h' adds

run_adds-Agrees :
    (ttl : ℤ) (m h : Map ℤ) (now : ℤ) (adds : List (Bytes × ℤ))
    → Agrees ttl now m h
    → Rising now adds
    → run_adds (cache ttl m) adds ≡ run_spec ttl h adds
unfolding run_adds run_spec
run_adds-Agrees ttl m h now [] agrees _ = refl
run_adds-Agrees ttl m h now ((nonce, t) ∷ adds) agrees (le, rising) =
    let (m', h', fresh, one, two, agrees') = add-spec_add ttl m h nonce now t le agrees in
    rw (one, two) (ap (λ l. fresh ∷ l) (run_adds-Agrees ttl m' h' t adds agrees' rising))

-- Over calls at readings that do not go back, the pruned cache gives the answers of a history
-- that forgets nothing: a nonce is refused exactly if the same nonce was accepted at most `ttl`
-- before.
pub run_adds-run_spec :
    (ttl start : ℤ) (adds : List (Bytes × ℤ))
    → Rising start adds
    → run_adds (new_nonce_cache ttl) adds ≡ run_spec ttl [] adds
unfolding new_nonce_cache
run_adds-run_spec ttl start adds = run_adds-Agrees ttl [] [] start adds (λ _ _ _. refl)
