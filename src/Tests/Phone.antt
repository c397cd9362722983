-- ===== src/Tests/Phone.antt =====
-- An agent with an open pairing window, and a phone: its request, its entry, what it seals.
use lockping_agent.Prelude.{
  ◌*◌, true, false, [], ◌∷◌, ◌++◌, some, ◌≡◌, refl, Bytes, codes, bytes_eq, ok,
}
use lockping_agent.Prelude.Int.{pos}
use lockping_agent.Prelude.Maps.{Map, lookup}
use lockping_agent.Base64.{std, encode, decode}
use lockping_agent.Json.Parse.{parse}
use lockping_agent.Json.Struct.{fill_value, names}
use lockping_agent.Wire.{Payload, empty_payload, kind_pair_request}
use lockping_agent.Wire.Codec
use lockping_agent.Core.Handle.{max_skew}
use lockping_agent.Secure.Keys.{decode_key}
use lockping_agent.Secure.Pairing.{Window, mac, label_request, proof_message, verify_request}
use lockping_agent.Secure.Devices
use lockping_agent.Secure.Devices.{
  DeviceInfo, DeviceStore, DeviceFile, Write, written, failed, missing,
}
use lockping_agent.Gateway.{Gateway, Outside}
use lockping_agent.Tests.Toy.{sum, toy, agent_keys, phone_keys}

abbrev pub open_window : Window
open_window = record {
  secret = codes "thirty-two bytes of shared secret";
  expires = pos 100;
  used = false;
}

abbrev pub store : Map DeviceInfo → DeviceStore
store m = record { path = codes "devices.json"; devices = m; file = missing }

abbrev pub gateway : Map DeviceInfo → Gateway
gateway m = record {
  core = record {
    machine = codes "laptop";
    os_name = codes "linux";
    nonces = record { ttl = pos (2 * max_skew); seen = [] };
  };
  keys = agent_keys;
  agent_id = codes "agent-1";
  relay_url = codes "wss://relay";
  devices = store m;
  windows = open_window ∷ [];
  window = some 0;
  code = codes "lockping:code";
  expires = pos 100;
}

abbrev pub outside : Write → Outside
outside outcome = record {
  now = pos 7;
  now' = pos 8;
  random = ok (codes "twenty-four random bytes");
  outcome = outcome;
}

abbrev pub phone_b64 : Bytes
phone_b64 = encode std phone_keys.pub_key

abbrev pub request : Payload
request = record empty_payload {
  kind = kind_pair_request;
  machine = codes "Pixel";
  pub_key = phone_b64;
  mac = encode std (mac toy open_window (label_request ∷ codes "phone" ∷ phone_b64 ∷ []));
}

-- The request as the phone sends it.
abbrev pub request_text : Bytes
request_text =
    codes "{\"kind\":\"pair_request\",\"machine\":\"Pixel\",\"pub_key\":\""
    ++ (phone_b64 ++ (codes "\",\"mac\":\"" ++ (request.mac ++ codes "\"}")))

pub request_decoded : Codec.decode request_text ≡ some request
unfolding Codec.decode parse fill_value names encode mac proof_message sum
request_decoded = refl

pub request_verified :
    verify_request toy (some open_window) (pos 7) (codes "phone") phone_b64 request.mac ≡ true
unfolding verify_request encode decode mac proof_message sum bytes_eq
request_verified = refl

pub good_key : decode_key phone_b64 ≡ ok phone_keys.pub_key
unfolding decode_key encode decode
good_key = refl

abbrev pub phone_entry : Map DeviceInfo
phone_entry =
    (
      codes "phone",
      record { id = []; pub_key = phone_b64; name = codes "Pixel"; paired_at = pos 1 },
    )
    ∷ []

-- What the phone seals for the agent.
abbrev pub from_phone : Bytes → Bytes
from_phone plain =
    let nonce = codes "nonce of the phone's own" in
    codes "e1:"
    ++ encode std (nonce ++ toy.box_seal plain nonce agent_keys.pub_key phone_keys.priv_key)

pub paired : Devices.get (store phone_entry) (codes "phone") ≡ some phone_keys.pub_key
unfolding Devices.get lookup bytes_eq decode_key encode decode
paired = refl
