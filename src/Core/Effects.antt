-- ===== src/Core/Effects.antt =====
-- What `Handle` does to the session and answers, on every branch.
use lockping_agent.Prelude.{
  ◌*◌, true, false, All, [], ◌∷◌, none, some, ◌≡◌, ◌≢◌, refl, ap, ◌∙◌, ◌⊎◌, inl, inr, ◌↔◌, arith,
  Bytes, bytes_eq, bytes_eq_iff, Bool-cases, Option-cases,
}
use lockping_agent.Prelude.Int.{ℤ, pos, ◌+ℤ◌, ◌-ℤ◌, ◌≤ℤ◌, ◌<ℤ◌, int_laws, +ℤ_parts, -ℤ_parts, ltb_ℤ}
use lockping_agent.Prelude.Maps.{Map, lookup, insert}
use lockping_agent.Wire.{Payload, kind_lock, kind_status_request}
use lockping_agent.Session.{Controller}
use lockping_agent.Core.Nonce.{NonceCache, prune, add}
use lockping_agent.Core.Nonce.History.{recent, lookup-prune-none, lookup-prune-some}
use lockping_agent.Core.Held.{IsFresh, IsFresh-is_stale, accepted-Passed}
use lockping_agent.Core.Handle.{
  Core, new, max_skew, unix, check_freshness, status, lock, lock_result, handle,
}

add-recent :
    (n : NonceCache) (nonce : Bytes) (now : ℤ)
    → ((add n nonce now).1 ≡ true) ↔ (recent n.ttl now nonce n.seen ≡ false)
unfolding add
add-recent n nonce now = elim (Option-cases (lookup nonce (prune n.ttl now n.seen))) [
  | inl absent ↦
      let unseen = lookup-prune-none n.ttl now nonce n.seen absent in
      ((λ _. unseen), λ _. rw (absent, add))
  | inr (t, present) ↦
      let seen = lookup-prune-some n.ttl now nonce n.seen t present in
      ((λ h. ground arith), λ h. ground arith)
]

-- A lock command is let through exactly if it has a nonce, its timestamp is at most 30 seconds
-- from the first reading, and the cache has no such nonce from within its window before the second.
pub accepted_iff :
    (c : Core) (now now' : ℤ) (p : Payload)
    → ((check_freshness c now now' p).1 ≡ none) ↔ (
        (p.nonce ≢ [])
        × IsFresh now p.ts
        × (recent c.nonces.ttl now' p.nonce c.nonces.seen ≡ false))
unfolding check_freshness
accepted_iff c now now' p = (
  λ through.
      let passed = accepted-Passed c now now' p through in
      (passed.named, passed.fresh, (add-recent c.nonces p.nonce now').0 passed.unseen),
  λ (named, fresh, unseen). ground (
    arith,
    bytes_eq_iff p.nonce [],
    IsFresh-is_stale now p.ts fresh,
    (add-recent c.nonces p.nonce now').1 unseen,
  ),
)

-- Every entry that a cache holds after a call is from within the window before the call's reading.
abbrev pub AllYoung : ℤ → ℤ → Map ℤ → Type 0
AllYoung ttl now = All (λ (entry : Bytes × ℤ). now ≤ℤ entry.1 +ℤ ttl)

prune-AllYoung : (ttl now : ℤ) (m : Map ℤ) → AllYoung ttl now (prune ttl now m)
unfolding prune
prune-AllYoung ttl now [] = tt
prune-AllYoung ttl now ((k, t) ∷ m) = elim (Bool-cases (ltb_ℤ ttl (now -ℤ t))) [
  | inl old ↦ rw old (prune-AllYoung ttl now m)
  | inr young ↦ rw young (ground (arith, -ℤ_parts now t, +ℤ_parts t ttl), prune-AllYoung ttl now m)
]

insert-AllYoung :
    (ttl now : ℤ) (k : Bytes) (m : Map ℤ)
    → pos 0 ≤ℤ ttl
    → AllYoung ttl now m
    → AllYoung ttl now (insert k now m)
unfolding insert
insert-AllYoung ttl now k [] le young = (omega (arith, +ℤ_parts now ttl), tt)
insert-AllYoung ttl now k ((j, t) ∷ m) le (y, young) = elim (Bool-cases (bytes_eq j k)) [
  | inl same ↦ rw same (omega (arith, +ℤ_parts now ttl), young)
  | inr other ↦ rw other (y, insert-AllYoung ttl now k m le young)
]

-- Old nonces are forgotten: after any call of `add`, also one that refuses, the cache holds only
-- entries at most `ttl` old, so it cannot grow without bound.
pub add-AllYoung :
    (n : NonceCache) (nonce : Bytes) (now : ℤ)
    → pos 0 ≤ℤ n.ttl
    → AllYoung n.ttl now (add n nonce now).0.seen
unfolding add
add-AllYoung n nonce now le =
    let kept = prune-AllYoung n.ttl now n.seen in
    elim (Option-cases (lookup nonce (prune n.ttl now n.seen))) [
      | inl absent ↦ rw (absent, add) (insert-AllYoung n.ttl now nonce _ le kept)
      | inr (_, present) ↦ rw (present, add) kept
    ]

recent_of_new :
    (machine os_name : Bytes) (now : ℤ) (nonce : Bytes)
    → recent (new machine os_name).nonces.ttl now nonce (new machine os_name).nonces.seen ≡ false
unfolding new recent
recent_of_new machine os_name now nonce = refl

abbrev one_entry : Bytes → ℤ → NonceCache
one_entry nonce now = record { ttl = pos (2 * max_skew); seen = (nonce, now) ∷ [] }

add_to_new :
    (machine os_name : Bytes) (now : ℤ) (nonce : Bytes)
    → (add (new machine os_name).nonces nonce now).0 ≡ one_entry nonce now
unfolding new add prune lookup insert
add_to_new machine os_name now nonce = refl

dropped :
    (now now' : ℤ) (nonce : Bytes)
    → now +ℤ pos (2 * max_skew) <ℤ now'
    → recent (one_entry nonce now).ttl now' nonce (one_entry nonce now).seen ≡ false
unfolding recent
dropped now now' nonce old =
    ground (arith, -ℤ_parts now' now, +ℤ_parts now (pos (2 * max_skew)), bytes_eq_iff nonce nonce)

-- The end of the window is not safe. A command that is taken at the first instant at which its
-- timestamp counts as fresh is taken again at the last such instant, if the clock moves on
-- between the two readings of that second call: by then the cache has dropped the nonce.
pub replay_at_the_edge :
    (machine os_name : Bytes) (p : Payload)
    → p.nonce ≢ []
    → let begin = unix p.ts -ℤ pos max_skew in
      let end = unix p.ts +ℤ pos max_skew in
      let c = new machine os_name in
      ((check_freshness c begin begin p).1 ≡ none)
      × ((check_freshness (check_freshness c begin begin p).0 end (end +ℤ pos 1) p).1 ≡ none)
replay_at_the_edge machine os_name p named =
    let begin = unix p.ts -ℤ pos max_skew in
    let end = unix p.ts +ℤ pos max_skew in
    let first =
      (accepted_iff (new machine os_name) begin begin p).1
        (named, (omega int_laws, omega int_laws), recent_of_new machine os_name begin p.nonce) in
    let stored = (accepted-Passed _ begin begin p first).stored in
    (
      first,
      (accepted_iff _ end (end +ℤ pos 1) p).1 (
        named,
        (omega int_laws, omega int_laws),
        rw (stored, add_to_new machine os_name begin p.nonce)
            (dropped begin (end +ℤ pos 1) p.nonce (omega int_laws)),
      ),
    )

module _ {S : Type 0} (sess : Controller S) where
  -- A status request changes nothing, and is answered by the session's state at the reading, or
  -- by the error that reading the state gave.
  pub handle-status :
      (c : Core) (s : S) (now now' : ℤ) (p : Payload)
      → p.kind ≡ kind_status_request
      → handle sess c s now now' p ≡ ((c, s), some (status sess c s now))
  unfolding handle bytes_eq
  handle-status c s now now' p kind = rw (kind, handle)

  lock_kind :
      (c : Core) (s : S) (now now' : ℤ) (p : Payload)
      → p.kind ≡ kind_lock
      → handle sess c s now now' p
        ≡ ((lock sess c s now now' p).0, some (lock sess c s now now' p).1)
  unfolding handle
  lock_kind c s now now' p kind =
      ground (arith, bytes_eq_iff p.kind kind_status_request, bytes_eq_iff p.kind kind_lock)

  lock_through :
      (c : Core) (s : S) (now now' : ℤ) (p : Payload)
      → (check_freshness c now now' p).1 ≡ none
      → (sess.lock s).1 ≡ none
      → lock sess c s now now' p
        ≡ (((check_freshness c now now' p).0, (sess.lock s).0), lock_result p.nonce true [])
  unfolding lock
  lock_through c s now now' p fresh locked = rw (fresh, lock) (rw locked refl)

  -- A lock command that is let through, where the session can be locked.
  pub handle-lock :
      (c : Core) (s : S) (now now' : ℤ) (p : Payload)
      → p.kind ≡ kind_lock
      → (check_freshness c now now' p).1 ≡ none
      → (sess.lock s).1 ≡ none
      → handle sess c s now now' p
        ≡ (((check_freshness c now now' p).0, (sess.lock s).0), some (lock_result p.nonce true []))
  handle-lock c s now now' p kind fresh locked =
      lock_kind c s now now' p kind
      ∙ ap (λ r. (r.0, some r.1)) (lock_through c s now now' p fresh locked)

  -- A payload of any other kind than a status request and a lock command is dropped.
  handle_unknown :
      (c : Core) (s : S) (now now' : ℤ) (p : Payload)
      → p.kind ≢ kind_status_request
      → p.kind ≢ kind_lock
      → handle sess c s now now' p ≡ ((c, s), none)
  unfolding handle
  handle_unknown c s now now' p h k =
      ground (arith, bytes_eq_iff p.kind kind_status_request, bytes_eq_iff p.kind kind_lock)

  -- The session is locked only by a lock command that was let through: any other payload leaves
  -- it as it was. Such a command calls the session's `lock` once, and its outcome is the result.
  pub handle_session :
      (c : Core) (s : S) (now now' : ℤ) (p : Payload)
      → ((handle sess c s now now' p).0.1 ≡ s)
        ⊎ ((p.kind ≡ kind_lock)
            × ((check_freshness c now now' p).1 ≡ none)
            × ((handle sess c s now now' p).0.1 ≡ (sess.lock s).0)
            × ((handle sess c s now now' p).1
                ≡ some (elim (sess.lock s).1 [
                  | some e ↦ lock_result p.nonce false e
                  | none ↦ lock_result p.nonce true []
                ])))
  unfolding handle lock
  handle_session c s now now' p =
      ground (arith, bytes_eq_iff p.kind kind_status_request, bytes_eq_iff p.kind kind_lock)
