-- ===== src/Secure/Crypto.antt =====
-- The cryptography that internal/secure calls and does not implement: HMAC-SHA256, SHA-256,
-- curve25519 and NaCl box. Its operations are a parameter of the model.
use lockping_agent.Prelude.{Option, some, ◌≡◌, Bytes, AllBytes, Result}

pub record Crypto : Type 0 where
  -- key, message
  pub hmac_sha256 : Bytes → Bytes → Bytes
  pub sha256 : Bytes → Bytes
  -- private key, peer's public key
  pub x25519 : Bytes → Bytes → Result Bytes
  -- The public key of a private key.
  pub public_key : Bytes → Bytes
  -- message or box, nonce, peer's public key, own private key
  pub box_seal : Bytes → Bytes → Bytes → Bytes → Bytes
  pub box_open : Bytes → Bytes → Bytes → Bytes → Option Bytes

-- What the code relies on. The outputs are byte strings; a box opens, under the same nonce, with
-- the other side's pair of keys; and it opens only to the message that makes this very box, since
-- the box is its authenticator and the encrypted message.
pub record IsSound (c : Crypto) : Type 0 where
  pub hmac-AllBytes : (key msg : Bytes) → AllBytes (c.hmac_sha256 key msg)
  pub seal-AllBytes :
      (msg nonce peer priv : Bytes) → AllBytes msg → AllBytes (c.box_seal msg nonce peer priv)
  pub open-seal :
      (msg nonce a b : Bytes)
      → c.box_open (c.box_seal msg nonce (c.public_key b) a) nonce (c.public_key a) b ≡ some msg
  pub open_authentic :
      (box nonce peer priv : Bytes) {msg : Bytes}
      → c.box_open box nonce peer priv ≡ some msg
      → box ≡ c.box_seal msg nonce peer priv
