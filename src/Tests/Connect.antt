-- ===== src/Tests/Connect.antt =====
-- A lock command from the phone, in the envelope that the relay delivers.
use lockping_agent.Prelude.{
  ℕ, Bool, [], ◌∷◌, ◌++◌, true, false, none, some, ◌≡◌, refl, arith, Bytes, codes, bytes_eq,
  has_prefix, ok,
}
use lockping_agent.Prelude.Int.{pos, ◌-ℤ◌, scale}
use lockping_agent.Prelude.Maps.{lookup, insert}
use lockping_agent.Base64.{encode, decode}
use lockping_agent.Json.Parse.{parse}
use lockping_agent.Json.Struct.{fill_value, names, to_int64}
use lockping_agent.Json.Print.{object, member, print_string, print_int}
use lockping_agent.Wire.{Payload, empty_payload, kind_lock}
use lockping_agent.Wire.Codec
use lockping_agent.Core.Nonce.{prune, add}
use lockping_agent.Core.Handle.{check_freshness, is_stale, unix, lock_result}
use lockping_agent.Secure.Crypt.{is_sealed, open_sealed}
use lockping_agent.Secure.Devices.{written}
use lockping_agent.Gateway.{Outside}
use lockping_agent.Relay.Conn.{Message, empty_message, Conn, read_into}
use lockping_agent.Relay.Serve.{envelope, serve}
use lockping_agent.Command.Connect.{Agent, gateway_handler}
use lockping_agent.Command.Connect.Lock.{lock_over_relay}
use lockping_agent.Tests.Toy.{sum, open_tagged, toy, toy-IsSound, screen, agent_keys, phone_keys}
use lockping_agent.Tests.Phone.{gateway, outside, phone_entry, from_phone, paired}

abbrev agent : Agent Bool
agent = record { gateway = gateway phone_entry; session = false; calls = 0 }

abbrev readings : ℕ → Outside
readings _ = outside written

abbrev command : Payload
command = record empty_payload { kind = kind_lock; nonce = codes "n1"; ts = pos 1 }

abbrev command_text : Bytes
command_text = codes "{\"kind\":\"lock\",\"nonce\":\"n1\",\"ts\":1}"

abbrev message : Message
message = record empty_message {
  typ = codes "envelope";
  from = codes "phone";
  payload = from_phone command_text;
}

abbrev frame : Bytes
frame =
    codes "{\"type\":\"envelope\",\"from\":\"phone\",\"payload\":\""
    ++ (from_phone command_text ++ codes "\"}")

abbrev conn : Conn
conn = record { reads = []; writes = []; sent = [] }

delivered : read_into empty_message (ok frame) ≡ ok message
unfolding read_into parse fill_value names bytes_eq encode sum
delivered = refl

command_opened :
    open_sealed toy (from_phone command_text) phone_keys.pub_key agent_keys ≡ some command_text
unfolding open_sealed is_sealed has_prefix encode decode open_tagged sum
command_opened = refl

command_decoded : Codec.decode command_text ≡ some command
unfolding Codec.decode parse fill_value names to_int64
command_decoded = refl

let_through : (check_freshness (gateway phone_entry).core (pos 7) (pos 8) command).1 ≡ none
unfolding check_freshness is_stale unix scale ◌-ℤ◌ add prune lookup insert bytes_eq
let_through = refl

abbrev result_text : Bytes
result_text = codes "{\"kind\":\"lock_result\",\"nonce\":\"n1\",\"ok\":true}"

result_encoded : Codec.encode (lock_result (codes "n1") true []) ≡ ok result_text
unfolding Codec.encode lock_result object member print_string print_int bytes_eq
result_encoded = refl

lock_over_relay_example :
    let served = serve (gateway_handler toy screen readings) (ok frame ∷ []) agent conn in
    (reply : Bytes) × (served.0.0.session ≡ true)
    × (served.0.1.sent ≡ [] ++ envelope (codes "phone") reply ∷ [])
    × (open_sealed toy reply agent_keys.pub_key phone_keys ≡ some result_text)
lock_over_relay_example =
    lock_over_relay toy toy-IsSound screen readings agent conn (ok frame) message command_text
      result_text (codes "twenty-four random bytes") command phone_keys delivered refl refl refl
      refl (unfold is_sealed has_prefix in refl) paired command_opened command_decoded refl
      let_through refl result_encoded refl refl (ground arith) (ground arith)
