-- ===== src/Command.antt =====
-- cmd/lockping-agent: the command around the agent.
pub mod Open
pub mod Tray
pub mod Start
pub mod Main
pub mod Connect
