-- ===== src/Secure.antt =====
-- internal/secure: keys, payload encryption, the paired-devices store, the pairing window and the
-- answer to the relay's challenge.
pub mod Crypto
pub mod Keys
pub mod Crypt
pub mod Pairing
pub mod DeviceFile
pub mod Devices
pub mod Auth
