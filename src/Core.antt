-- ===== src/Core.antt =====
-- internal/core: incoming payloads become actions on the session layer and reply payloads.
-- Times and durations are nanoseconds; the clock's readings are arguments, in the order in which
-- the code takes them. (`time.Duration` saturates after 292 years, on the same side of every test.)
pub mod Nonce
pub mod Handle
pub mod Held
pub mod Replay
pub mod Effects
