-- ===== src/Core/Replay.antt =====
-- The replay protection of docs/protocol.md § 3, as internal/core enforces it.
use lockping_agent.Prelude.{
  ◌*◌, true, false, All, List, [], ◌∷◌, none, some, ◌≡◌, ◌≢◌, refl, ap, ◌⊎◌, inl, inr, arith, Bytes,
  bytes_eq, bytes_eq_iff,
}
use lockping_agent.Prelude.Int.{ℤ, pos, ◌+ℤ◌, ◌≤ℤ◌, ◌<ℤ◌, +ℤ_parts, -ℤ_parts}
use lockping_agent.Wire.{Payload, kind_lock}
use lockping_agent.Session.{Controller}
use lockping_agent.Core.Held.{
  Holds, accepted-Passed, accepted-Holds, check_freshness-Holds, check_held,
}
use lockping_agent.Core.Nonce.{NonceCache}
use lockping_agent.Core.Handle.{
  Core, max_skew, unix, is_stale, check_freshness, lock, lock_result, handle, stale_timestamp,
  replayed_nonce,
}

late_is_stale : (now ts : ℤ) → unix ts +ℤ pos max_skew <ℤ now → is_stale now ts ≡ true
unfolding is_stale
late_is_stale now ts h = ground (arith, -ℤ_parts now (unix ts), +ℤ_parts (unix ts) (pos max_skew))

check_late :
    (c : Core) (now now' : ℤ) (p : Payload)
    → p.nonce ≢ []
    → is_stale now p.ts ≡ true
    → (check_freshness c now now' p).1 ≡ some stale_timestamp
unfolding check_freshness
check_late c now now' p named stale = ground (arith, bytes_eq_iff p.nonce [])

Holds-le :
    (deadline earlier : ℤ) (nonce : Bytes) (n : NonceCache)
    → earlier ≤ℤ deadline
    → Holds deadline nonce n
    → Holds earlier nonce n
Holds-le deadline earlier nonce n le h = record {
  since = h.since;
  held = h.held;
  young = omega arith;
}

-- One call of `handle`: the clock's two readings and the payload.
pub record Call : Type 0 where
  pub now : ℤ
  pub now' : ℤ
  pub payload : Payload

-- The command is answered by a failed result, and the session is left alone.
abbrev pub Refused : {S : Type 0} → Controller S → Core → S → ℤ → ℤ → Payload → Type 0
Refused sess c s now now' p =
    (e : Bytes) × ((e ≡ stale_timestamp) ⊎ (e ≡ replayed_nonce))
    × ((handle sess c s now now' p).1 ≡ some (lock_result p.nonce false e))
    × ((handle sess c s now now' p).0.1 ≡ s)

module _ {S : Type 0} (sess : Controller S) where
  -- The state after a sequence of calls.
  unfoldable pub run : Core → S → List Call → Core × S
  run c s [] = (c, s)
  run c s (call ∷ calls) =
      let ((c', s'), _) = handle sess c s call.now call.now' call.payload in run c' s' calls

  pub handle-lock :
      (c : Core) (s : S) (now now' : ℤ) (p : Payload)
      → p.kind ≡ kind_lock
      → handle sess c s now now' p
        ≡ ((lock sess c s now now' p).0, some (lock sess c s now now' p).1)
  unfolding handle bytes_eq
  handle-lock c s now now' p kind = rw (kind, handle)

  lock_refused :
      (c : Core) (s : S) (now now' : ℤ) (p : Payload) (e : Bytes)
      → (check_freshness c now now' p).1 ≡ some e
      → ((lock sess c s now now' p).1 ≡ lock_result p.nonce false e)
        × ((lock sess c s now now' p).0.1 ≡ s)
  unfolding lock
  lock_refused c s now now' p e h = ground arith

  lock-core :
      (c : Core) (s : S) (now now' : ℤ) (p : Payload)
      → (lock sess c s now now' p).0.0 ≡ (check_freshness c now now' p).0
  unfolding lock
  lock-core c s now now' p = ground arith

  handle-core :
      (c : Core) (s : S) (now now' : ℤ) (p : Payload)
      → ((handle sess c s now now' p).0.0 ≡ c)
        ⊎ ((handle sess c s now now' p).0.0 ≡ (check_freshness c now now' p).0)
  unfolding handle lock
  handle-core c s now now' p = ground arith

  handle-Holds :
      (deadline : ℤ) (nonce : Bytes) (c : Core) (s : S) (now now' : ℤ) (p : Payload)
      → now' ≤ℤ deadline
      → Holds deadline nonce c.nonces
      → Holds deadline nonce (handle sess c s now now' p).0.0.nonces
  handle-Holds deadline nonce c s now now' p le h = elim (handle-core c s now now' p) [
    | inl same ↦ rw same h
    | inr checked ↦ rw checked (check_freshness-Holds deadline nonce c now now' p le h)
  ]

  run-Holds :
      (deadline : ℤ) (nonce : Bytes) (c : Core) (s : S) (calls : List Call)
      → All (λ call. call.now' ≤ℤ deadline) calls
      → Holds deadline nonce c.nonces
      → Holds deadline nonce (run c s calls).0.nonces
  unfolding run
  run-Holds deadline nonce c s [] _ h = h
  run-Holds deadline nonce c s (call ∷ calls) (le, les) h =
      run-Holds deadline nonce (handle sess c s call.now call.now' call.payload).0.0
        (handle sess c s call.now call.now' call.payload).0.1 calls les
        (handle-Holds deadline nonce c s call.now call.now' call.payload le h)

  -- A held nonce is refused, whatever else the command says, and the session is left alone.
  held-Refused :
      (deadline : ℤ) (c : Core) (s : S) (now now' : ℤ) (p : Payload)
      → p.kind ≡ kind_lock
      → p.nonce ≢ []
      → now' ≤ℤ deadline
      → Holds deadline p.nonce c.nonces
      → Refused sess c s now now' p
  held-Refused deadline c s now now' p kind named le h =
      let held = check_held deadline c now now' p named le h in
      let refused = lock_refused c s now now' p held.0 held.2 in
      rw (handle-lock c s now now' p kind) (held.0, held.1, ap some refused.0, refused.1)

  accepted_core_Holds :
      (c : Core) (s : S) (now now' : ℤ) (p : Payload) (deadline : ℤ)
      → c.nonces.ttl ≡ pos (2 * max_skew)
      → now ≤ℤ now'
      → p.kind ≡ kind_lock
      → (check_freshness c now now' p).1 ≡ none
      → deadline ≤ℤ unix p.ts +ℤ pos max_skew
      → Holds deadline p.nonce (handle sess c s now now' p).0.0.nonces
  accepted_core_Holds c s now now' p deadline ttl le kind through early =
      rw (handle-lock c s now now' p kind, lock-core c s now now' p)
        (Holds-le _ deadline p.nonce _ early (accepted-Holds c now now' p ttl le through))

  late-Refused :
      (c : Core) (s : S) (now now' : ℤ) (p : Payload)
      → p.kind ≡ kind_lock
      → p.nonce ≢ []
      → unix p.ts +ℤ pos max_skew <ℤ now
      → Refused sess c s now now' p
  late-Refused c s now now' p kind named late =
      let stale = check_late c now now' p named (late_is_stale now p.ts late) in
      let refused = lock_refused c s now now' p stale_timestamp stale in
      rw (handle-lock c s now now' p kind) (stale_timestamp, inl refl, ap some refused.0, refused.1)

  -- A lock command that was let through to the session is not let through again, where the nonces
  -- are kept for 60 seconds. Take the command `p`, whose second reading is not before its first, any
  -- calls after it, and a lock command `q` with its nonce and timestamp, such as `p` sent once more,
  -- where no second reading of the calls in between is after the second reading for `q`. Then `q`
  -- gets the result `false` with a stale timestamp or a replayed nonce, and the session is left
  -- alone. The two readings for `q` must not straddle the end of the timestamp's 30 seconds: the
  -- second is not after it, or the first is.
  pub replay-Refused :
      (c : Core) (s : S) (now now' : ℤ) (p : Payload) (calls : List Call) (later later' : ℤ)
      (q : Payload)
      → c.nonces.ttl ≡ pos (2 * max_skew)
      → now ≤ℤ now'
      → p.kind ≡ kind_lock
      → (check_freshness c now now' p).1 ≡ none
      → All (λ call. call.now' ≤ℤ later') calls
      → q.kind ≡ kind_lock
      → q.nonce ≡ p.nonce
      → q.ts ≡ p.ts
      → (later' ≤ℤ unix p.ts +ℤ pos max_skew) ⊎ (unix p.ts +ℤ pos max_skew <ℤ later)
      → let after = run c s (record { now = now; now' = now'; payload = p } ∷ calls) in
        Refused sess after.0 after.1 later later' q
  unfolding run
  replay-Refused c s now now' p calls later later' q ttl le kind through rising kind' nonce ts
        side =
      let first = handle sess c s now now' p in
      let named : q.nonce ≢ [] = rw nonce (accepted-Passed c now now' p through).named in
      elim side [
        | inl early ↦
            let held : Holds later' p.nonce first.0.0.nonces =
              accepted_core_Holds c s now now' p later' ttl le kind through early in
            held-Refused later' _ _ later later' q kind' named (omega arith)
              (rw nonce (run-Holds later' p.nonce first.0.0 first.0.1 calls rising held))
        | inr late ↦ late-Refused _ _ later later' q kind' named (rw ts late)
      ]
