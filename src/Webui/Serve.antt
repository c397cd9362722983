-- ===== src/Webui/Serve.antt =====
-- The handlers of internal/webui/webui.go and the way to them: the check of the host, the mux, the
-- check of the token. The path is the one that the mux has cleaned.
pub mod Guarded
pub mod Switch
use lockping_agent.Prelude.{
  ℕ, suc, ◌/◌, Bool, true, false, not, ◌&&◌, ◌||◌, List, [], ◌∷◌, ◌++◌, Option, none, some, map,
  Bytes, codes, bytes_eq, if◌then◌else◌, Result, ok, err,
}
use lockping_agent.Prelude.Int.{ℤ, pos, negsuc, ◌-ℤ◌, sub_ℕ}
use lockping_agent.Json.{Value, bool, null}
use lockping_agent.Json.Parse.{parse_first}
use lockping_agent.Json.Struct.{names, to_string, fill_value}
use lockping_agent.Session.{Controller}
use lockping_agent.Core.Handle.{second}
use lockping_agent.Autostart.{Manager}
use lockping_agent.Secure.Devices
use lockping_agent.Secure.Devices.{DeviceInfo}
use lockping_agent.Gateway.{Gateway, Outside, open_pairing, pairing}
use lockping_agent.Webui.Host.{is_local}

pub data Method : Type 0 where
  get head post other_method : Method

pub record Request : Type 0 where
  pub method : Method
  pub path : Bytes
  pub host : Bytes
  pub token : Bytes
  pub body : Bytes

pub record StateResponse : Type 0 where
  pub machine : Bytes
  pub version : Bytes
  pub uptime_sec : ℤ
  pub relay : Bool
  pub locked : Option Bool
  pub devices : List DeviceInfo
  pub pairing_code : Option (Bytes × ℤ)
  pub autostart : Option Bool

-- What is sent: an error's text, the page with its token, an image, the QR of a code, or JSON.
pub data Body : Type 0 where
  text : Bytes → Body
  page_with : Bytes → Body
  logo : Body
  qr_of : Bytes → Body
  state_json : StateResponse → Body
  code_json : Bytes → Body
  ok_json : Body

pub record Response : Type 0 where
  pub status : ℕ
  pub body : Body

abbrev pub reply : ℕ → Body → Response
reply status body = record { status = status; body = body }

-- The endpoints of the mux, and its own answers.
pub data Route : Type 0 where
  page_route logo_route state_route qr_route : Route
  pair_route unpair_route autostart_route stop_route : Route
  not_allowed : Route

-- A pattern with GET also matches HEAD; `GET /` matches every path.
get_route : Bytes → Route
get_route path =
    if bytes_eq path (codes "/logo.png")
    then logo_route
    else if bytes_eq path (codes "/api/state")
    then state_route
    else if bytes_eq path (codes "/qr.png")
    then qr_route
    else page_route

post_route : Bytes → Route
post_route path =
    if bytes_eq path (codes "/api/pair")
    then pair_route
    else if bytes_eq path (codes "/api/unpair")
    then unpair_route
    else if bytes_eq path (codes "/api/autostart")
    then autostart_route
    else if bytes_eq path (codes "/api/stop")
    then stop_route
    else not_allowed

unfoldable pub route : Method → Bytes → Route
unfolding get_route post_route
route get path = get_route path
route head path = get_route path
route post path = post_route path
route other_method path = not_allowed

-- `int(d.Seconds())`: whole seconds, towards zero.
whole_seconds : ℤ → ℤ
whole_seconds (pos n) = pos (n / second)
whole_seconds (negsuc n) = sub_ℕ 0 (suc n / second)

-- The agent as the UI reaches it; `stopping` once `Stop` was called.
pub record Agent (A : Type 0) : Type 0 where
  pub gw : Gateway
  pub platform : A
  pub stopping : Bool

-- `Options` and the token; a field that may be nil is an option.
pub record Server (A : Type 0) : Type 0 where
  pub machine : Bytes
  pub version : Bytes
  pub started : ℤ
  pub csrf_token : Bytes
  pub connected : Option Bool
  pub manager : Option (Manager A)
  pub can_stop : Bool

set_id : Bytes → Value → Bytes → Bytes × Bool
set_id key v id = if names (codes "id") key then to_string id v else (id, true)

to_bool : Bool → Value → Bool × Bool
to_bool old null = (old, true)
to_bool old (bool b) = (b, true)
to_bool old _ = (old, false)

pub set_enable : Bytes → Value → Bool → Bool × Bool
set_enable key v e = if names (codes "enable") key then to_bool e v else (e, true)

-- A decoded request body, if there was no error.
pub body_as : {T : Type 0} → (Bytes → Value → T → T × Bool) → T → Bytes → Option T
body_as set_field t s = elim (parse_first s) [
  | none ↦ none
  | some v ↦ let (t', fine) = fill_value set_field v t in if fine then some t' else none
]

module _ {A S : Type 0} (server : Server A) (sess : Controller S) where
  -- `state`
  unfoldable pub state : Agent A → S → ℤ → StateResponse
  unfolding whole_seconds
  state a s now = record {
    machine = server.machine;
    version = server.version;
    uptime_sec = whole_seconds (now -ℤ server.started);
    relay = elim server.connected [ none ↦ false | some up ↦ up ];
    locked = elim (sess.locked s) [ err _ ↦ none | ok l ↦ some l ];
    devices = Devices.list a.gw.devices;
    pairing_code = elim (pairing a.gw now) [
      | none ↦ none
      | some (code, left) ↦ some (code, whole_seconds left)
    ];
    autostart = elim server.manager [
      | none ↦ none
      | some m ↦
          let (enabled, supported) = m.status a.platform in if supported then some enabled else none
    ];
  }

  unfoldable pub pair : Agent A → Outside → Agent A × Response
  pair a o =
      let (g, opened) = open_pairing a.gw o in
      elim opened [
        | err e ↦ (record a { gw = g }, reply 500 (text e))
        | ok code ↦ (record a { gw = g }, reply 200 (code_json code))
      ]

  unpair_id : Agent A → Bytes → Outside → Agent A × Response
  unpair_id a id o =
      let (devices, failed) = Devices.remove a.gw.devices id o.outcome in
      let a' = record a { gw = record (a.gw) { devices = devices } } in
      elim failed [ some e ↦ (a', reply 404 (text e)) | none ↦ (a', reply 200 ok_json) ]

  unfoldable pub unpair : Agent A → Bytes → Outside → Agent A × Response
  unfolding body_as set_id unpair_id
  unpair a body o = elim (body_as set_id [] body) [
    | none ↦ (a, reply 400 (text (codes "id ontbreekt")))
    | some id ↦
        if bytes_eq id [] then (a, reply 400 (text (codes "id ontbreekt"))) else unpair_id a id o
  ]

  switch : Manager A → Agent A → Bool → Agent A × Response
  switch m a on =
      let (platform, failed) = if on then m.enable a.platform else m.disable a.platform in
      let a' = record a { platform = platform } in
      elim failed [ some e ↦ (a', reply 500 (text e)) | none ↦ (a', reply 200 ok_json) ]

  unfoldable pub autostart : Agent A → Bytes → Agent A × Response
  unfolding body_as set_enable to_bool switch
  autostart a body = elim server.manager [
    | none ↦ (a, reply 501 (text (codes "niet beschikbaar")))
    | some m ↦ elim (body_as set_enable false body) [
      | none ↦ (a, reply 400 (text (codes "ongeldige aanvraag")))
      | some on ↦ switch m a on
    ]
  ]

  unfoldable pub stop : Agent A → Agent A × Response
  stop a =
      if server.can_stop
      then (record a { stopping = true }, reply 200 ok_json)
      else (a, reply 501 (text (codes "niet beschikbaar")))

  -- Rendering the code as an image is left to the library; its failure is not modelled.
  unfoldable pub qr : Agent A → ℤ → Response
  qr a now = elim (pairing a.gw now) [
    | none ↦ reply 404 (text (codes "geen actieve pairing"))
    | some (code, _) ↦ reply 200 (qr_of code)
  ]

  unfoldable pub page : Bytes → Response
  page path =
      if bytes_eq path (codes "/")
      then reply 200 (page_with server.csrf_token)
      else reply 404 (text (codes "404 page not found"))

  unfoldable pub guarded : Request → Agent A → Agent A × Response → Agent A × Response
  guarded r a next =
      if bytes_eq r.token server.csrf_token
      then next
      else (a, reply 403 (text (codes "token ontbreekt of klopt niet")))

  unfoldable pub dispatch : Route → Agent A → S → Request → Outside → Agent A × Response
  dispatch page_route a s r o = (a, page r.path)
  dispatch logo_route a s r o = (a, reply 200 logo)
  dispatch state_route a s r o = (a, reply 200 (state_json (state a s o.now)))
  dispatch qr_route a s r o = (a, qr a o.now)
  dispatch pair_route a s r o = guarded r a (pair a o)
  dispatch unpair_route a s r o = guarded r a (unpair a r.body o)
  dispatch autostart_route a s r o = guarded r a (autostart a r.body)
  dispatch stop_route a s r o = guarded r a (stop a)
  dispatch not_allowed a s r o = (a, reply 405 (text (codes "Method Not Allowed")))

  -- `Handler`
  unfoldable pub handler : Agent A → S → Request → Outside → Agent A × Response
  handler a s r o =
      if is_local r.host
      then dispatch (route r.method r.path) a s r o
      else (a, reply 403 (text (codes "alleen lokaal")))
