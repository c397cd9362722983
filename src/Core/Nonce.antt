-- ===== src/Core/Nonce.antt =====
-- internal/core/nonce.go: the cache of nonces seen within a bounded window.
pub mod History
use lockping_agent.Prelude.{Bool, true, false, [], ◌∷◌, none, some, Bytes, if◌then◌else◌}
use lockping_agent.Prelude.Int.{ℤ, ◌-ℤ◌, ltb_ℤ}
use lockping_agent.Prelude.Maps.{Map, lookup, insert}

pub record NonceCache : Type 0 where
  pub ttl : ℤ
  pub seen : Map ℤ

unfoldable pub new_nonce_cache : ℤ → NonceCache
new_nonce_cache ttl = record { ttl = ttl; seen = [] }

-- The loop that deletes the entries older than the window.
unfoldable pub prune : ℤ → ℤ → Map ℤ → Map ℤ
prune ttl now [] = []
prune ttl now ((k, t) ∷ m) =
    if ltb_ℤ ttl (now -ℤ t) then prune ttl now m else (k, t) ∷ prune ttl now m

-- `false`: the nonce was seen within the window.
unfoldable pub add : NonceCache → Bytes → ℤ → NonceCache × Bool
add n nonce now =
    let kept = prune n.ttl now n.seen in
    elim (lookup nonce kept) [
      | some _ ↦ (record n { seen = kept }, false)
      | none ↦ (record n { seen = insert nonce now kept }, true)
    ]
