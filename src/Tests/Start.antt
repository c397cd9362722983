-- ===== src/Tests/Start.antt =====
-- A start with -pair, a pair request of the phone, and the next start.
use lockping_agent.Prelude.{
  true, false, [], ◌∷◌, none, some, ◌≡◌, refl, arith, Bytes, Bool, codes, bytes_eq, has_prefix, ok,
  ◌++◌,
}
use lockping_agent.Prelude.Int.{pos, ◌+ℤ◌}
use lockping_agent.Base64.{encode, decode, raw_url, std}
use lockping_agent.Identity
use lockping_agent.Secure.Devices.{DeviceInfo, load_devices}
use lockping_agent.Prelude.Maps.{Map}
use lockping_agent.Prelude.{join}
use lockping_agent.Wire.Codec
use lockping_agent.Secure.Devices as Store
use lockping_agent.Secure.DeviceFile as Devices
use lockping_agent.Command.Start.{start_with}
use lockping_agent.Gateway.{open_pairing}
use lockping_agent.Secure.Pairing.{verify_request, mac, proof_message}
use lockping_agent.Tests.Toy.{sum}
use lockping_agent.Core.Handle as Core
use lockping_agent.Secure.Pairing.{encode_pair_code, new_window}
use lockping_agent.Secure.Keys.{encode_key, decode_key}
use lockping_agent.Secure.Crypt.{is_sealed}
use lockping_agent.Secure.Devices.{written, missing}
use lockping_agent.Identity.{text, file_of}
use lockping_agent.Identity.File.{marshal, unmarshal}
use lockping_agent.Json.Parse.{parse}
use lockping_agent.Json.Struct.{names, fill_value}
use lockping_agent.Json.Print.{indented_member, indented_object, print_string}
use lockping_agent.Autostart.Other.{unsupported}
use lockping_agent.Gateway.{Gateway, handle}
use lockping_agent.Gateway.Once.{unpair, run}
use lockping_agent.Gateway.Pair.{Requested}
use lockping_agent.Gateway.Answer.{request_is_answered}
use lockping_agent.Command.Start.{Flags, Machine, Started, Files, run_relay}
use lockping_agent.Command.Start.Restart.{unpaired_start}
use lockping_agent.Tests.Toy.{toy, toy-IsSound, screen, agent_keys, phone_keys}
use lockping_agent.Tests.Phone.{
  open_window, outside, request, request_text, request_decoded, good_key,
}
use lockping_agent.Tests.Identity as Ident

abbrev machine : Machine Bool
machine = record {
  goos = codes "linux";
  host = codes "laptop";
  version = codes "1.0";
  base = ok (codes "/home/anna/.config");
  join = λ a b. a ++ (codes "/" ++ b);
  identity = Ident.outside;
  pairing = record (outside written) { random = ok open_window.secret };
  token = ok (codes "sixteen of bytes");
  now = pos 7;
  manager = unsupported;
}

abbrev files : Files
files = record {
  agent_json = text (marshal (file_of (codes "agent-1") agent_keys));
  devices_json = missing;
}

abbrev flags : Flags
flags = record {
  relay = codes "wss://relay";
  pair = true;
  ui_port = pos 41800;
  no_ui = true;
  tray = false;
}

-- The agent of the first start, with the window that its code opens.
abbrev first_gateway : Gateway
first_gateway = record {
  core = (unfold Core.new in Core.new (codes "laptop") (codes "linux"));
  keys = agent_keys;
  agent_id = codes "agent-1";
  relay_url = codes "wss://relay";
  devices = record {
    path = codes "/home/anna/.config/lockping/devices.json";
    devices = [];
    file = missing;
  };
  windows = record { secret = open_window.secret; expires = pos 300000000007; used = false } ∷ [];
  window = some 0;
  code =
      encode_pair_code (codes "wss://relay") (codes "agent-1") (encode raw_url open_window.secret);
  expires = pos 300000000008;
}

abbrev first : Started Bool
first = record {
  gateway = first_gateway;
  printed = some first_gateway.code;
  server = none;
  client = record { url = codes "wss://relay"; id = codes "agent-1"; keys = agent_keys };
}

verified :
    verify_request toy
      (some (record { secret = open_window.secret; expires = pos 300000000007; used = false }))
      (pos 7)
      (codes "phone")
      request.pub_key
      request.mac
    ≡ true
unfolding verify_request encode decode mac proof_message sum bytes_eq
verified = refl

requested : Requested toy first_gateway (codes "phone") request_text (outside written)
requested = record {
  request = request;
  index = 0;
  window = record { secret = open_window.secret; expires = pos 300000000007; used = false };
  plain = (unfold is_sealed has_prefix in refl);
  decoded = request_decoded;
  is_request = refl;
  current = refl;
  found = refl;
  verified = verified;
}

answered :
    (reply : Bytes) × ((handle toy screen first_gateway false
        (codes "phone")
        request_text
        (outside written)).1
      ≡ some reply)
unfolding requested encode
answered =
    let (_, reply, _, answer, _, _, _) =
      request_is_answered toy toy-IsSound screen first_gateway false (codes "phone") request_text
        phone_keys.pub_key (outside written) requested good_key refl (ground arith) in
    (reply, answer)

abbrev after_answer : Gateway
after_answer =
    (handle toy screen first_gateway false (codes "phone") request_text (outside written)).0.0

abbrev phone_devices : Map DeviceInfo
phone_devices =
    (
      codes "phone",
      record {
        id = [];
        pub_key = encode std phone_keys.pub_key;
        name = codes "Pixel";
        paired_at = (outside written).now';
      },
    )
    ∷ []

-- Without -pair.
abbrev quiet_flags : Flags
quiet_flags = record flags { pair = false }

abbrev quiet : Started Bool
quiet = record first {
  gateway = record first_gateway { windows = []; window = none; code = []; expires = pos 0 };
  printed = none;
}

quiet_start : run_relay toy (ok quiet_flags) machine files ≡ (files.agent_json, ok quiet)
unfolding run_relay bytes_eq Identity.load Identity.load_file unmarshal marshal parse fill_value
    names indented_member indented_object print_string encode_key encode Identity.decode decode_key
    decode load_devices start_with open_pairing new_window ◌+ℤ◌
quiet_start = refl

unpaired_start_example :
    let now = run toy screen quiet.gateway false (unpair (codes "phone") written ∷ []) in
    handle toy screen now.0 now.1 (codes "phone") request_text (outside written) ≡ (now, none)
unpaired_start_example =
    unpaired_start toy screen quiet_flags machine files {st = quiet} false
      (unpair (codes "phone") written ∷ []) (codes "phone") request_text (outside written)
      quiet_start refl (tt, tt) (unfold is_sealed has_prefix in refl)
