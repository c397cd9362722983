-- ===== src/Secure/Auth.antt =====
-- internal/secure/auth.go: the answer to the relay's challenge.
use lockping_agent.Prelude.{none, some, ◌++◌, Bytes, codes, Result, ok, err}
use lockping_agent.Base64.{std, encode, decode}
use lockping_agent.Secure.Crypto.{Crypto}
use lockping_agent.Secure.Keys.{Keys, decode_key}

abbrev pub auth_context : Bytes
auth_context = codes "lockping-relay-auth"

-- The texts of base64's errors are not modelled further than this one.
abbrev pub corrupt_input : Bytes
corrupt_input = codes "illegal base64 data"

module _ (c : Crypto) where
  unfoldable pub prove_challenge : Bytes → Bytes → Keys → Result Bytes
  prove_challenge nonce_b64 relay_pub_b64 keys = elim (decode_key relay_pub_b64) [
    | err e ↦ err (codes "secure: relay-sleutel: " ++ e)
    | ok relay_pub ↦ elim (decode std nonce_b64) [
      | none ↦ err (codes "secure: challenge-nonce: " ++ corrupt_input)
      | some nonce ↦ elim (c.x25519 keys.priv_key relay_pub) [
        | err e ↦ err (codes "secure: ECDH: " ++ e)
        | ok shared ↦ ok (encode std (c.hmac_sha256 (c.sha256 (auth_context ++ shared)) nonce))
      ]
    ]
  ]
