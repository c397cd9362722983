-- ===== src/Session.antt =====
-- internal/session/session.go: the session layer that the rest of the agent sees.
pub mod Pick
pub mod WinMap
pub mod Watch
pub mod Logind
pub mod Windows
pub mod Stub
use lockping_agent.Prelude.{Bool, Option, Bytes, Result}

-- `Controller` over a state `S` of the operating system. `lock` returns the error, if there is
-- one, with the state that the call leaves; a reading changes nothing.
pub record Controller (S : Type 0) : Type 0 where
  pub locked : S → Result Bool
  pub lock : S → S × Option Bytes
