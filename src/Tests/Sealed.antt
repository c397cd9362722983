-- ===== src/Tests/Sealed.antt =====
-- A sealed status request of the phone.
use lockping_agent.Prelude.{
  true, false, some, ◌≡◌, refl, ◌⊎◌, arith, Bytes, codes, bytes_eq, has_prefix, ok,
}
use lockping_agent.Prelude.Int.{pos}
use lockping_agent.Base64.{encode, decode}
use lockping_agent.Json.Parse.{parse}
use lockping_agent.Json.Struct.{fill_value, names}
use lockping_agent.Json.Print.{object, member, print_string, print_int}
use lockping_agent.Wire.{Payload, empty_payload, kind_status_request}
use lockping_agent.Wire.Codec
use lockping_agent.Core.Handle.{max_skew}
use lockping_agent.Core.Handle as Core
use lockping_agent.Secure.Crypt.{is_sealed, open_sealed}
use lockping_agent.Secure.Devices.{written}
use lockping_agent.Gateway.{handle}
use lockping_agent.Gateway.Boundary.{Commanded, session_boundary}
use lockping_agent.Gateway.Answer.{status_is_answered}
use lockping_agent.Tests.Toy.{sum, open_tagged, toy, toy-IsSound, screen, agent_keys, phone_keys}
use lockping_agent.Tests.Phone.{gateway, outside, phone_entry, from_phone, paired}

abbrev ask_text : Bytes
ask_text = codes "{\"kind\":\"status_request\"}"

abbrev asking : Payload
asking = record empty_payload { kind = kind_status_request }

session_boundary_example :
    ((handle toy screen
        (gateway phone_entry)
        false
        (codes "phone")
        (from_phone ask_text)
        (outside written)).0.1
      ≡ false)
    ⊎ (Commanded toy screen
          (gateway phone_entry)
          (codes "phone")
          (from_phone ask_text)
          (outside written)
        × ((handle toy screen
              (gateway phone_entry)
              false
              (codes "phone")
              (from_phone ask_text)
              (outside written)).0.1
            ≡ true))
session_boundary_example =
    session_boundary toy screen (gateway phone_entry) false (codes "phone") (from_phone ask_text)
      (outside written)

sealed_opened : open_sealed toy (from_phone ask_text) phone_keys.pub_key agent_keys ≡ some ask_text
unfolding open_sealed is_sealed has_prefix encode decode open_tagged sum
sealed_opened = refl

ask_decoded : Codec.decode ask_text ≡ some asking
unfolding Codec.decode parse fill_value names
ask_decoded = refl

abbrev status_text : Bytes
status_text = codes "{\"kind\":\"status\",\"locked\":false,\"machine\":\"laptop\",\"os\":\"linux\"}"

status_encoded :
    Codec.encode (Core.status screen (gateway phone_entry).core false (pos 7)) ≡ ok status_text
unfolding Codec.encode Core.status Core.seconds object member print_string print_int bytes_eq
status_encoded = refl

status_is_answered_example :
    (reply : Bytes) × (handle toy screen
        (gateway phone_entry)
        false
        (codes "phone")
        (from_phone ask_text)
        (outside written)
      ≡ ((gateway phone_entry, false), some reply))
    × (open_sealed toy reply agent_keys.pub_key phone_keys ≡ some status_text)
status_is_answered_example =
    status_is_answered toy toy-IsSound screen (gateway phone_entry) false (codes "phone")
      (from_phone ask_text) ask_text status_text (codes "twenty-four random bytes") asking
      (outside written) phone_keys refl refl (unfold is_sealed has_prefix in refl) paired
      sealed_opened ask_decoded refl status_encoded refl refl (ground arith) (ground arith)
