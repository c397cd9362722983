-- ===== src/Tests.antt =====
-- Runs of the theorems at concrete inputs, with small stand-ins for the parameters of the model.
pub mod Toy
pub mod Phone
mod Core
mod Secure
mod Gateway
mod Sealed
mod Session
mod Relay
mod Webui
pub mod Identity
mod Wire
mod Command
mod Connect
mod Start
