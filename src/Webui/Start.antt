-- ===== src/Webui/Start.antt =====
-- `New` and `Start` of internal/webui/webui.go.
use lockping_agent.Prelude.{Bool, ◌++◌, Option, none, some, Bytes, codes, Result, ok, err}
use lockping_agent.Prelude.Int.{ℤ}
use lockping_agent.Json.Print.{print_int}
use lockping_agent.Identity.Uuid.{hex}
use lockping_agent.Autostart.{Manager}
use lockping_agent.Webui.Serve.{Server}

-- `Options`; a field that may be nil is an option, and whether there is a `Stop`.
pub record Options (A : Type 0) : Type 0 where
  pub machine : Bytes
  pub version : Bytes
  pub connected : Option Bool
  pub manager : Option (Manager A)
  pub can_stop : Bool

-- `New`, of the 16 random bytes and the reading of the clock.
unfoldable pub new : {A : Type 0} → Options A → Result Bytes → ℤ → Result (Server A)
unfolding hex
new opts (err e) now = err (codes "webui: token: " ++ e)
new opts (ok tok) now = ok (record {
  machine = opts.machine;
  version = opts.version;
  started = now;
  csrf_token = hex tok;
  connected = opts.connected;
  manager = opts.manager;
  can_stop = opts.can_stop;
})

abbrev pub address : ℤ → Bytes
address port = codes "127.0.0.1:" ++ print_int port

-- How `ListenAndServe` ends: the server was shut down, or an error.
pub data Served : Type 0 where
  server_closed : Served
  failed : Bytes → Served

-- `Start`: the error, if there is one; a shutdown is none.
unfoldable pub start : Served → Option Bytes
start server_closed = none
start (failed e) = some e
