-- ===== src/Autostart.antt =====
-- internal/autostart/autostart.go: the interface behind which each platform starts the agent with
-- the user's session.
pub mod Systemd
pub mod Registry
pub mod Other
use lockping_agent.Prelude.{Bool, true, false, Option, none, ◌≡◌, Bytes}

-- `Manager` over a state `A` of the platform: `status` gives (enabled, supported), the others
-- the new state and the error, if there is one.
pub record Manager (A : Type 0) : Type 0 where
  pub status : A → Bool × Bool
  pub enable : A → A × Option Bytes
  pub disable : A → A × Option Bytes

-- What a client may rely on where a platform supports autostart: without an error, the switch
-- stands where it was put.
pub record IsSwitch {A : Type 0} (m : Manager A) : Type 0 where
  pub enabled : (a : A) → (m.enable a).1 ≡ none → m.status (m.enable a).0 ≡ (true, true)
  pub disabled : (a : A) → (m.disable a).1 ≡ none → m.status (m.disable a).0 ≡ (false, true)
