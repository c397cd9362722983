-- ===== src/Secure/Crypt.antt =====
-- internal/secure/crypt.go: sealed payloads, `"e1:" + base64(nonce ‖ box)`.
pub mod Laws
use lockping_agent.Prelude.{
  ℕ, Bool, true, false, not, Option, none, some, ◌++◌, Bytes, codes, length, take, drop, ltb,
  has_prefix, if◌then◌else◌, Result, ok, err,
}
use lockping_agent.Base64.{std, encode, decode}
use lockping_agent.Secure.Crypto.{Crypto}
use lockping_agent.Secure.Keys.{Keys}

abbrev pub sealed_prefix : Bytes
sealed_prefix = codes "e1:"

abbrev pub nonce_size : ℕ
nonce_size = 24

unfoldable pub is_sealed : Bytes → Bool
is_sealed payload = has_prefix payload sealed_prefix

module _ (c : Crypto) where
  -- The first argument is what the source of randomness gives for the nonce.
  unfoldable pub seal : Result Bytes → Bytes → Bytes → Keys → Result Bytes
  seal (err e) plain peer_pub keys = err (codes "secure: nonce: " ++ e)
  seal (ok nonce) plain peer_pub keys =
      ok (sealed_prefix ++ encode std (nonce ++ c.box_seal plain nonce peer_pub keys.priv_key))

  -- `none`: wrong sender, tampering or truncation.
  unfoldable pub open_sealed : Bytes → Bytes → Keys → Option Bytes
  open_sealed sealed peer_pub keys =
      if not (is_sealed sealed)
      then none
      else elim (decode std (drop (length sealed_prefix) sealed)) [
        | none ↦ none
        | some raw ↦
            if ltb (length raw) nonce_size
            then none
            else c.box_open (drop nonce_size raw) (take nonce_size raw) peer_pub keys.priv_key
      ]
