-- ===== src/Tests/Webui.antt =====
-- Requests to the config UI.
use lockping_agent.Prelude.{
  Bool, true, false, [], none, ◌≡◌, refl, ◌⊎◌, ◌↔◌, Bytes, codes, bytes_eq, ok,
}
use lockping_agent.Prelude.Int.{pos, ◌<ℤ◌, ◌+ℤ◌}
use lockping_agent.Secure.Devices.{missing, written}
use lockping_agent.Secure.Pairing.{window_ttl}
use lockping_agent.Core.Handle.{new}
use lockping_agent.Gateway.{Outside}
use lockping_agent.Webui.Host.{
  is_local, is_local-Names, Names, loopback, localhost, split_host, before_last_colon, is_port,
  bracketed, cut_bracket,
}
use lockping_agent.Webui.Serve.{
  Method, Request, Agent, Server, handler, pair, qr, reply, code_json, qr_of, text,
}
use lockping_agent.Autostart.{Manager, IsSwitch}
use lockping_agent.Webui.Serve.{state, autostart, ok_json, body_as, set_enable}
use lockping_agent.Webui.Serve.Switch.{state-autostart}
use lockping_agent.Json.Parse.{parse_first}
use lockping_agent.Json.Struct.{fill_value, names}
use lockping_agent.Prelude.{some}
use lockping_agent.Webui.Serve.Guarded.{handler_guarded, qr-pair}
use lockping_agent.Tests.Toy.{screen, agent_keys}

abbrev outside : Outside
outside = record {
  now = pos 7;
  now' = pos 8;
  random = ok (codes "thirty-two bytes of randomness..");
  outcome = written;
}

abbrev agent : Agent Bool
agent = record {
  gw = record {
    core = (unfold new in new (codes "laptop") (codes "linux"));
    keys = agent_keys;
    agent_id = codes "agent-1";
    relay_url = codes "wss://relay";
    devices = record { path = codes "devices.json"; devices = []; file = missing };
    windows = [];
    window = none;
    code = [];
    expires = pos 0;
  };
  platform = false;
  stopping = false;
}

abbrev server : Server Bool
server = record {
  machine = codes "laptop";
  version = codes "1.0";
  started = pos 0;
  csrf_token = codes "token";
  connected = none;
  manager = none;
  can_stop = true;
}

abbrev stop_request : Request
stop_request = record {
  method = Method.post;
  path = codes "/api/stop";
  host = codes "127.0.0.1:4321";
  token = codes "token";
  body = [];
}

handler_guarded_example :
    ((handler server screen agent false stop_request outside).0 ≡ agent)
    ⊎ ((is_local (codes "127.0.0.1:4321") ≡ true)
        × (Method.post ≡ Method.post)
        × (codes "token" ≡ codes "token"))
handler_guarded_example = handler_guarded server screen agent false stop_request outside

passes : is_local (codes "127.0.0.1:4321") ≡ true
unfolding is_local split_host before_last_colon is_port bytes_eq
passes = refl

refuses : is_local (codes "[localhost]evil.com") ≡ false
unfolding is_local split_host bracketed cut_bracket is_port bytes_eq
refuses = refl

is_local-Names_example :
    (is_local (codes "127.0.0.1:4321") ≡ true)
    ↔ ((h : Bytes) × ((h ≡ loopback) ⊎ (h ≡ localhost)) × Names h (codes "127.0.0.1:4321"))
is_local-Names_example = is_local-Names (codes "127.0.0.1:4321")

qr-pair_example :
    (code : Bytes) × ((pair server screen agent outside).1 ≡ reply 200 (code_json code))
    × (pos 9 <ℤ pos 8 +ℤ window_ttl
        → qr server screen (pair server screen agent outside).0 (pos 9) ≡ reply 200 (qr_of code))
    × (¬ (pos 9 <ℤ pos 8 +ℤ window_ttl)
        → qr server screen (pair server screen agent outside).0 (pos 9)
          ≡ reply 404 (text (codes "geen actieve pairing")))
qr-pair_example =
    qr-pair server screen agent outside (codes "thirty-two bytes of randomness..") (pos 9) refl

-- A platform on which the autostart is a Boolean.
abbrev toggle : Manager Bool
toggle = record {
  status = λ b. (b, true);
  enable = λ _. (true, none);
  disable = λ _. (false, none);
}

toggle-IsSwitch : IsSwitch toggle
toggle-IsSwitch = record { enabled = λ _ _. refl; disabled = λ _ _. refl }

abbrev with_autostart : Server Bool
with_autostart = record server { manager = some toggle }

abbrev enable_body : Bytes
enable_body = codes "{\"enable\":true}"

switched_on : (autostart with_autostart screen agent enable_body).1 ≡ reply 200 ok_json
unfolding autostart parse_first fill_value names bytes_eq
switched_on = refl

state-autostart_example :
    (on : Bool) × (body_as set_enable false enable_body ≡ some on)
    × ((state with_autostart screen
          (autostart with_autostart screen agent enable_body).0
          false
          (pos 9)).autostart
        ≡ some on)
state-autostart_example =
    state-autostart with_autostart screen toggle agent enable_body false (pos 9) refl
      toggle-IsSwitch switched_on
