-- ===== src/Relay/Run/Waits.antt =====
-- The waits between the sessions of a run.
use lockping_agent.Prelude.{ℕ, ◌*◌, ◌≤◌, List, [], ◌∷◌, ◌⊎◌}
use lockping_agent.Secure.Crypto.{Crypto}
use lockping_agent.Relay.Backoff.{second}
use lockping_agent.Relay.Conn.{Conn}
use lockping_agent.Relay.Run.{Event, dialed, told, waited}

abbrev pub IsWait : ℕ → Type 0
IsWait d = (second ≤ d) × (d ≤ 30 * second)

-- Among the events there is a wait of one second to thirty.
unfoldable pub HasWait : List Event → Type 0
HasWait [] = ⊥
HasWait (waited d ∷ es) = IsWait d ⊎ HasWait es
HasWait (told _ ∷ es) = HasWait es
HasWait (dialed _ ∷ es) = HasWait es
