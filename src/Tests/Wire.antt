-- ===== src/Tests/Wire.antt =====
-- A lock command as text and back.
use lockping_agent.Utf8.RoundTrip.{IsText}
use lockping_agent.Prelude.{[], some, ◌≡◌, refl, arith, Bytes, codes, bytes_eq, ok}
use lockping_agent.Prelude.Int.{pos}
use lockping_agent.Utf8.{encode_runes, encode_rune}
use lockping_agent.Json.Print.{object, member, print_string, print_int}
use lockping_agent.Wire.{Payload, empty_payload, kind_lock}
use lockping_agent.Wire.Codec.{encode, decode}
use lockping_agent.Wire.Codec.RoundTrip.{IsPortable, decode-encode}

abbrev command : Payload
command = record empty_payload { kind = kind_lock; nonce = codes "n\"1"; ts = pos 1000 }

empty-IsText : IsText []
unfolding encode_runes
empty-IsText = ([], tt, refl)

lock-IsText : IsText kind_lock
unfolding encode_runes encode_rune
lock-IsText = (kind_lock, (ground arith, (ground arith, (ground arith, (ground arith, tt)))), refl)

nonce-IsText : IsText (codes "n\"1")
unfolding encode_runes encode_rune
nonce-IsText = (codes "n\"1", (ground arith, (ground arith, (ground arith, tt))), refl)

command-IsPortable : IsPortable command
command-IsPortable = record {
  kind = lock-IsText;
  nonce = nonce-IsText;
  ts = ground arith;
  machine = empty-IsText;
  os = empty-IsText;
  error = empty-IsText;
  pub_key = empty-IsText;
  mac = empty-IsText;
}

encoded : encode command ≡ ok (codes "{\"kind\":\"lock\",\"nonce\":\"n\\\"1\",\"ts\":1000}")
unfolding encode object member print_string print_int bytes_eq
encoded = refl

decode-encode_example : (text : Bytes) × (encode command ≡ ok text) × (decode text ≡ some command)
decode-encode_example = decode-encode command command-IsPortable
