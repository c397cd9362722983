-- ===== src/Relay/Backoff/Delays.antt =====
-- The delays over a row of failed attempts.
use lockping_agent.Prelude.{ℕ, zero, suc, ◌*◌, ◌^◌, ◌<◌, min, ◌≡◌, refl, ap, ◌∙◌, arith}
use native.Mathlib.Nat.{pow-suc}
use lockping_agent.Relay.Backoff.{Backoff, second, next, reset}

-- The state after `n` calls of `next`.
unfoldable pub after : ℕ → Backoff → Backoff
after zero b = b
after (suc n) b = next (after n b)

next-cur :
    (b : Backoff) (d : ℕ)
    → 0 < d
    → b.cur ≡ min (30 * second) (d * second)
    → (next b).cur ≡ min (30 * second) (2 * d * second)
unfolding next
next-cur b d pos h = ground arith

pow_pos : (n : ℕ) → 0 < 2 ^ n
pow_pos zero = omega arith
pow_pos (suc n) = omega (arith, pow-suc 2 n, pow_pos n)

-- Wherever the counter stood, once it is reset the n-th failed attempt after that waits two to
-- the power n - 1 seconds, and never more than 30.
pub delays :
    (b : Backoff) (n : ℕ) → (after (suc n) (reset b)).cur ≡ min (30 * second) (2 ^ n * second)
unfolding after reset
delays b zero = unfold next in refl
delays b (suc n) =
    next-cur (after (suc n) (reset b)) (2 ^ n) (pow_pos n) (delays b n)
    ∙ ap (λ t. min (30 * second) (t * second)) (omega (arith, pow-suc 2 n))
