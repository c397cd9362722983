-- ===== src/Core/Handle.antt =====
-- internal/core/core.go: `Handle` and what it calls.
use lockping_agent.Prelude.{
  ℕ, ◌*◌, ◌/◌, Bool, true, false, ◌||◌, [], Option, none, some, Bytes, codes, bytes_eq, ok, err,
  if◌then◌else◌,
}
use lockping_agent.Prelude.Int.{ℤ, pos, negsuc, ◌-ℤ◌, scale, sub_ℕ, ltb_ℤ}
use lockping_agent.Wire.{
  Payload, empty_payload, bool_ref, kind_status_request, kind_status, kind_lock, kind_lock_result,
}
use lockping_agent.Session.{Controller}
use lockping_agent.Core.Nonce.{NonceCache, new_nonce_cache, add}

abbrev pub second : ℕ
second = 1000000000

abbrev pub max_skew : ℕ
max_skew = 30 * second

-- `time.Unix(sec, 0)`
unfoldable pub unix : ℤ → ℤ
unix sec = scale second sec

pub record Core : Type 0 where
  pub machine : Bytes
  pub os_name : Bytes
  pub nonces : NonceCache

unfoldable pub new : Bytes → Bytes → Core
unfolding new_nonce_cache
new machine os_name = record {
  machine = machine;
  os_name = os_name;
  nonces = new_nonce_cache (pos (2 * max_skew));
}

abbrev pub missing_nonce : Bytes
missing_nonce = codes "lock rejected: missing nonce"

abbrev pub stale_timestamp : Bytes
stale_timestamp = codes "lock rejected: stale timestamp"

abbrev pub replayed_nonce : Bytes
replayed_nonce = codes "lock rejected: replayed nonce"

-- `t.Unix()`: whole seconds, rounded down.
unfoldable pub seconds : ℤ → ℤ
seconds (pos n) = pos (n / second)
seconds (negsuc n) = negsuc (n / second)

-- `age > maxSkew || age < -maxSkew`
unfoldable pub is_stale : ℤ → ℤ → Bool
is_stale now ts =
    let age = now -ℤ unix ts in ltb_ℤ (pos max_skew) age || ltb_ℤ age (sub_ℕ 0 max_skew)

-- `now` is the reading for the age, `now'` the one for the nonce cache.
unfoldable pub check_freshness : Core → ℤ → ℤ → Payload → Core × Option Bytes
check_freshness c now now' p =
    if bytes_eq p.nonce []
    then (c, some missing_nonce)
    else if is_stale now p.ts
    then (c, some stale_timestamp)
    else let (nonces, fresh) = add c.nonces p.nonce now' in
      if fresh
      then (record c { nonces = nonces }, none)
      else (record c { nonces = nonces }, some replayed_nonce)

unfoldable pub lock_result : Bytes → Bool → Bytes → Payload
lock_result nonce done msg = record empty_payload {
  kind = kind_lock_result;
  nonce = nonce;
  ok = bool_ref done;
  error = msg;
}

module _ {S : Type 0} (sess : Controller S) where
  unfoldable pub status : Core → S → ℤ → Payload
  status c s now = elim (sess.locked s) [
    | err e ↦ record empty_payload {
      kind = kind_status;
      error = e;
      machine = c.machine;
      os = c.os_name;
    }
    | ok locked ↦ record empty_payload {
      kind = kind_status;
      locked = bool_ref locked;
      machine = c.machine;
      os = c.os_name;
      ts = seconds now;
    }
  ]

  unfoldable pub lock : Core → S → ℤ → ℤ → Payload → (Core × S) × Payload
  lock c s now now' p =
      let (c', refused) = check_freshness c now now' p in
      elim refused [
        | some e ↦ ((c', s), lock_result p.nonce false e)
        | none ↦
            let (s', failed) = sess.lock s in
            elim failed [
              | some e ↦ ((c', s'), lock_result p.nonce false e)
              | none ↦ ((c', s'), lock_result p.nonce true [])
            ]
      ]

  -- The last part is `none` where the code returns `ok = false`: no reply.
  unfoldable pub handle : Core → S → ℤ → ℤ → Payload → (Core × S) × Option Payload
  handle c s now now' p =
      if bytes_eq p.kind kind_status_request
      then ((c, s), some (status c s now))
      else if bytes_eq p.kind kind_lock
      then (let (next, reply) = lock c s now now' p in (next, some reply))
      else ((c, s), none)
