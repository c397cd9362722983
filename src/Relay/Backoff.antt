-- ===== src/Relay/Backoff.antt =====
-- The reconnect delay of internal/relay/client.go. Durations are nanoseconds.
pub mod Delays
use lockping_agent.Prelude.{ℕ, zero, suc, ◌*◌, ltb, ◌==◌, if◌then◌else◌}

pub record Backoff : Type 0 where
  pub cur : ℕ

abbrev pub second : ℕ
second = 1000000000

unfoldable pub new_backoff : Backoff
new_backoff = record { cur = 0 }

-- `next` returns the new `cur`.
unfoldable pub next : Backoff → Backoff
next b =
    if b.cur == 0
    then record { cur = second }
    else if ltb b.cur (30 * second)
    then (if ltb (30 * second) (b.cur * 2)
        then record { cur = 30 * second }
        else record { cur = b.cur * 2 })
    else b

unfoldable pub reset : Backoff → Backoff
reset b = record { cur = 0 }
