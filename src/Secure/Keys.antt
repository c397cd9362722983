-- ===== src/Secure/Keys.antt =====
-- internal/secure/keys.go: X25519 key pairs, and their base64 form.
use lockping_agent.Prelude.{
  none, some, ◌==◌, ◌++◌, ◌≡◌, arith, Bytes, codes, AllBytes, length, if◌then◌else◌, Result, ok,
  err,
}
use lockping_agent.Base64.{std, encode, decode}
use lockping_agent.Base64.RoundTrip.{decode-encode-std}
use lockping_agent.Secure.Crypto.{Crypto}

pub record Keys : Type 0 where
  pub pub_key : Bytes
  pub priv_key : Bytes

-- The argument is what the source of randomness gives: 32 bytes, or an error.
unfoldable pub generate_keys : Crypto → Result Bytes → Result Keys
generate_keys c (err e) = err (codes "secure: generate keys: " ++ e)
generate_keys c (ok priv) = ok (record { pub_key = c.public_key priv; priv_key = priv })

unfoldable pub encode_key : Bytes → Bytes
encode_key k = encode std k

abbrev pub invalid_key : Bytes
invalid_key = codes "secure: invalid key encoding"

unfoldable pub decode_key : Bytes → Result Bytes
decode_key s = elim (decode std s) [
  | none ↦ err invalid_key
  | some raw ↦ if length raw == 32 then ok raw else err invalid_key
]

-- A key of 32 bytes is read back from its base64 form.
pub decode_key-encode_key :
    (k : Bytes) → AllBytes k → length k ≡ 32 → decode_key (encode_key k) ≡ ok k
unfolding decode_key encode_key
decode_key-encode_key k h size = rw (decode-encode-std k h, decode_key) (rw size)

-- What `decode_key` accepts has 32 bytes.
pub length-decode_key : (s : Bytes) {k : Bytes} → decode_key s ≡ ok k → length k ≡ 32
unfolding decode_key
length-decode_key s h = ground arith
