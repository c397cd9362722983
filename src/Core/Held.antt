-- ===== src/Core/Held.antt =====
-- What `checkFreshness` of internal/core/core.go leaves in the nonce cache.
use lockping_agent.Prelude.{
  ◌*◌, true, false, [], ◌∷◌, none, some, ◌≡◌, ◌≢◌, refl, ◌⊎◌, inl, inr, arith, Bytes, bytes_eq_iff,
  Bool-cases, Option-cases,
}
use lockping_agent.Prelude.Int.{ℤ, pos, ◌+ℤ◌, ◌≤ℤ◌, +ℤ_parts, -ℤ_parts, int_laws}
use lockping_agent.Prelude.Maps.{Map, lookup, lookup-insert, lookup-insert_self}
use lockping_agent.Wire.{Payload}
use lockping_agent.Core.Nonce.{NonceCache, prune, add}
use lockping_agent.Core.Handle.{
  Core, max_skew, unix, is_stale, check_freshness, stale_timestamp, replayed_nonce,
}

-- The timestamp lies at most `max_skew` before and after the reading.
abbrev pub IsFresh : ℤ → ℤ → Type 0
IsFresh now ts = (now ≤ℤ unix ts +ℤ pos max_skew) × (unix ts ≤ℤ now +ℤ pos max_skew)

pub is_stale-IsFresh : (now ts : ℤ) → is_stale now ts ≡ false → IsFresh now ts
unfolding is_stale
is_stale-IsFresh now ts h =
    ground (
      arith,
      -ℤ_parts now (unix ts),
      +ℤ_parts (unix ts) (pos max_skew),
      +ℤ_parts now (pos max_skew),
    )

pub IsFresh-is_stale : (now ts : ℤ) → IsFresh now ts → is_stale now ts ≡ false
unfolding is_stale
IsFresh-is_stale now ts h =
    ground (
      arith,
      -ℤ_parts now (unix ts),
      +ℤ_parts (unix ts) (pos max_skew),
      +ℤ_parts now (pos max_skew),
    )

-- The nonce is in the cache, and no reading up to the deadline finds it too old.
pub record Holds (deadline : ℤ) (nonce : Bytes) (n : NonceCache) : Type 0 where
  pub since : ℤ
  pub held : lookup nonce n.seen ≡ some since
  pub young : deadline ≤ℤ since +ℤ n.ttl

lookup-prune_keep :
    (ttl now t deadline : ℤ) (k : Bytes) (m : Map ℤ)
    → now ≤ℤ deadline
    → deadline ≤ℤ t +ℤ ttl
    → lookup k m ≡ some t
    → lookup k (prune ttl now m) ≡ some t
unfolding lookup prune
lookup-prune_keep ttl now t deadline k [] le young h = h
lookup-prune_keep ttl now t deadline k ((j, u) ∷ m) le young h = ground (
  arith,
  lookup-prune_keep ttl now t deadline k m le young,
  +ℤ_parts t ttl,
  -ℤ_parts now t,
  bytes_eq_iff j k,
)

-- A call of `add` up to the deadline keeps the nonce, and refuses it.
add-Holds :
    (deadline now : ℤ) (nonce other : Bytes) (n : NonceCache)
    → now ≤ℤ deadline
    → Holds deadline nonce n
    → Holds deadline nonce (add n other now).0
unfolding add
add-Holds deadline now nonce other n le h =
    let kept = lookup-prune_keep n.ttl now h.since deadline nonce n.seen le h.young h.held in
    elim (Option-cases (lookup other (prune n.ttl now n.seen))) [
      | inl absent ↦
          rw (absent, add)
            (record {
              since = h.since;
              held = ground (
                arith,
                lookup-insert other nonce now (prune n.ttl now n.seen),
                bytes_eq_iff other nonce,
              );
              young = h.young;
            })
      | inr (_, present) ↦
          rw (present, add) (record { since = h.since; held = kept; young = h.young })
    ]

add_refuses :
    (deadline now : ℤ) (nonce : Bytes) (n : NonceCache)
    → now ≤ℤ deadline
    → Holds deadline nonce n
    → (add n nonce now).1 ≡ false
unfolding add
add_refuses deadline now nonce n le h =
    rw (lookup-prune_keep n.ttl now h.since deadline nonce n.seen le h.young h.held, add)

add-Holds_self :
    (deadline now : ℤ) (nonce : Bytes) (n : NonceCache)
    → deadline ≤ℤ now +ℤ n.ttl
    → (add n nonce now).1 ≡ true
    → Holds deadline nonce (add n nonce now).0
unfolding add
add-Holds_self deadline now nonce n young new =
    elim (Option-cases (lookup nonce (prune n.ttl now n.seen))) [
      | inl absent ↦
          rw (absent, add)
            (record {
              since = now;
              held = lookup-insert_self nonce now (prune n.ttl now n.seen);
              young = young;
            })
      | inr (_, present) ↦ ground (arith)
    ]

-- What an accepted lock command has passed.
pub record Passed (c : Core) (now now' : ℤ) (p : Payload) : Type 0 where
  pub named : p.nonce ≢ []
  pub fresh : IsFresh now p.ts
  pub unseen : (add c.nonces p.nonce now').1 ≡ true
  pub stored : (check_freshness c now now' p).0.nonces ≡ (add c.nonces p.nonce now').0

pub accepted-Passed :
    (c : Core) (now now' : ℤ) (p : Payload)
    → (check_freshness c now now' p).1 ≡ none
    → Passed c now now' p
unfolding check_freshness
accepted-Passed c now now' p h = record {
  named = ground (arith, bytes_eq_iff p.nonce []);
  fresh = is_stale-IsFresh now p.ts (ground arith);
  unseen = ground arith;
  stored = ground arith;
}

-- After a lock command was accepted, its nonce is held until its timestamp has gone stale.
pub accepted-Holds :
    (c : Core) (now now' : ℤ) (p : Payload)
    → c.nonces.ttl ≡ pos (2 * max_skew)
    → now ≤ℤ now'
    → (check_freshness c now now' p).1 ≡ none
    → Holds (unix p.ts +ℤ pos max_skew) p.nonce (check_freshness c now now' p).0.nonces
accepted-Holds c now now' p ttl le h =
    let passed = accepted-Passed c now now' p h in
    rw passed.stored (
      add-Holds_self _ now' p.nonce c.nonces (rw ttl (omega (int_laws, passed.fresh)))
        passed.unseen)

check_freshness-nonces :
    (c : Core) (now now' : ℤ) (p : Payload)
    → ((check_freshness c now now' p).0.nonces ≡ c.nonces)
      ⊎ ((check_freshness c now now' p).0.nonces ≡ (add c.nonces p.nonce now').0)
unfolding check_freshness
check_freshness-nonces c now now' p = ground arith

pub check_freshness-Holds :
    (deadline : ℤ) (nonce : Bytes) (c : Core) (now now' : ℤ) (p : Payload)
    → now' ≤ℤ deadline
    → Holds deadline nonce c.nonces
    → Holds deadline nonce (check_freshness c now now' p).0.nonces
check_freshness-Holds deadline nonce c now now' p le h =
    elim (check_freshness-nonces c now now' p) [
      | inl same ↦ rw same h
      | inr added ↦ rw added (add-Holds deadline now' nonce p.nonce c.nonces le h)
    ]

pub check_held :
    (deadline : ℤ) (c : Core) (now now' : ℤ) (p : Payload)
    → p.nonce ≢ []
    → now' ≤ℤ deadline
    → Holds deadline p.nonce c.nonces
    → (e : Bytes) × ((e ≡ stale_timestamp) ⊎ (e ≡ replayed_nonce))
      × ((check_freshness c now now' p).1 ≡ some e)
unfolding check_freshness
check_held deadline c now now' p named le h =
    let refused = add_refuses deadline now' p.nonce c.nonces le h in
    elim (Bool-cases (is_stale now p.ts)) [
      | inl stale ↦ (stale_timestamp, inl refl, ground (arith, bytes_eq_iff p.nonce []))
      | inr fresh ↦ (replayed_nonce, inr refl, ground (arith, bytes_eq_iff p.nonce []))
    ]
