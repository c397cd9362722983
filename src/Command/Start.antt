-- ===== src/Command/Start.antt =====
-- `runRelay` of cmd/lockping-agent/main.go up to the connection, over the files of the agent. What
-- the `flag` package made of the arguments is given: the flags, or its error.
pub mod Loaded
pub mod Restart
use lockping_agent.Prelude.{
  Bool, true, false, not, List, [], ◌∷◌, ◌++◌, Option, none, some, Bytes, codes, bytes_eq,
  if◌then◌else◌, Result, ok, err, ◌>>=◌, map_err,
}
use lockping_agent.Prelude.Int.{ℤ, pos}
use lockping_agent.Core.Handle as Core
use lockping_agent.Secure.Crypto.{Crypto}
use lockping_agent.Secure.Devices.{DeviceStore, DeviceFile, load_devices}
use lockping_agent.Identity.{Identity, AgentJson}
use lockping_agent.Identity
use lockping_agent.Gateway.{Gateway, Outside, new, open_pairing}
use lockping_agent.Autostart.{Manager}
use lockping_agent.Relay.Handshake.{Client}
use lockping_agent.Webui.Serve.{Server}
use lockping_agent.Webui.Start

abbrev pub default_relay_url : Bytes
default_relay_url = codes "wss://relay.lockping.rm-worx.be/ws"

abbrev pub default_ui_port : ℤ
default_ui_port = pos 41800

pub record Flags : Type 0 where
  pub relay : Bytes
  pub pair : Bool
  pub ui_port : ℤ
  pub no_ui : Bool
  pub tray : Bool

-- The flags that no argument names, on the platform `goos`.
unfoldable pub default_flags : Bytes → Flags
unfolding bytes_eq
default_flags goos = record {
  relay = default_relay_url;
  pair = false;
  ui_port = default_ui_port;
  no_ui = false;
  tray = bytes_eq goos (codes "windows");
}

-- What a start meets: the platform, its name for the host (empty if it has none), the base of the
-- configuration, the platform's `filepath.Join`, what the parts read of the clock and of the source
-- of randomness, and the autostart.
pub record Machine (A : Type 0) : Type 0 where
  pub goos : Bytes
  pub host : Bytes
  pub version : Bytes
  pub base : Result Bytes
  pub join : Bytes → Bytes → Bytes
  pub identity : Identity.Outside
  pub pairing : Outside
  pub token : Result Bytes
  pub now : ℤ
  pub manager : Manager A

-- `printed` is the code that the terminal shows. The UI runs if there is a server.
pub record Started (A : Type 0) : Type 0 where
  pub gateway : Gateway
  pub printed : Option Bytes
  pub server : Option (Server A)
  pub client : Client

unfoldable pub config_dir : {A : Type 0} → Machine A → Result Bytes
config_dir m = elim m.base [
  | err e ↦ err (codes "resolve config dir: " ++ e)
  | ok base ↦ ok (m.join base (codes "lockping"))
]

-- With `-pair`: a pairing window, and the code to print.
unfoldable pub opened : Gateway → Bool → Outside → Result (Gateway × Option Bytes)
opened g false o = ok (g, none)
opened g true o =
    let (g', made) = open_pairing g o in elim made [ err e ↦ err e | ok code ↦ ok (g', some code) ]

-- The config UI, unless `-no-ui`. The relay is not connected yet.
unfoldable pub ui_server : {A : Type 0} → Flags → Machine A → Result (Option (Server A))
unfolding Start.new
ui_server flags m =
    if flags.no_ui
    then ok none
    else elim (Start.new
        (record {
          machine = m.host;
          version = m.version;
          connected = some false;
          manager = some m.manager;
          can_stop = true;
        })
        m.token m.now) [ err e ↦ err e | ok server ↦ ok (some server) ]

-- The gateway over the identity and the devices that were loaded.
unfoldable pub gateway_of : {A : Type 0} → Flags → Machine A → Identity → DeviceStore → Gateway
unfolding Core.new new
gateway_of flags m ident devices =
    new (Core.new m.host m.goos) ident.keys ident.agent_id flags.relay devices

-- The part behind the loading of the files.
unfoldable pub start_with :
    {A : Type 0} → Flags → Machine A → Identity → DeviceStore → Result (Started A)
unfolding opened ui_server gateway_of
start_with flags m ident devices =
    elim (opened (gateway_of flags m ident devices) flags.pair m.pairing) [
      | err e ↦ err e
      | ok (g, printed) ↦ elim (ui_server flags m) [
        | err e ↦ err e
        | ok server ↦ ok (record {
          gateway = g;
          printed = printed;
          server = server;
          client = record { url = flags.relay; id = ident.agent_id; keys = ident.keys };
        })
      ]
    ]

-- The files in the directory of the configuration.
pub record Files : Type 0 where
  pub agent_json : AgentJson
  pub devices_json : DeviceFile

module _ (c : Crypto) {A : Type 0} where
  unfoldable pub run_in : Flags → Machine A → Files → Bytes → AgentJson × Result (Started A)
  run_in flags m files dir =
      let (agent_json, loaded) =
        Identity.load c files.agent_json (m.join dir (codes "agent.json")) m.identity in
      elim loaded [
        | err e ↦ (agent_json, err e)
        | ok ident ↦ elim (load_devices (m.join dir (codes "devices.json")) files.devices_json) [
          | err e ↦ (agent_json, err e)
          | ok devices ↦ (agent_json, start_with flags m ident devices)
        ]
      ]

  -- `runRelay`: what it leaves of agent.json, and the agent that is about to connect.
  unfoldable pub run_relay : Result Flags → Machine A → Files → AgentJson × Result (Started A)
  unfolding config_dir run_in
  run_relay (err e) m files = (files.agent_json, err e)
  run_relay (ok flags) m files =
      if bytes_eq flags.relay []
      then (files.agent_json, err (codes "run: -relay is required"))
      else elim (config_dir m) [
        | err e ↦ (files.agent_json, err e)
        | ok dir ↦ run_in flags m files dir
      ]
