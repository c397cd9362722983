-- ===== src/Command/Start/Loaded.antt =====
-- The parts of a start that succeeds.
use lockping_agent.Prelude.{
  Bool, true, false, [], none, some, Option, ◌≡◌, ◌≢◌, refl, ap, inl, inr, arith, Bytes, codes,
  bytes_eq, bytes_eq_iff, ok, Result-cases, Bool-cases,
}
use lockping_agent.Secure.Crypto.{Crypto}
use lockping_agent.Secure.Devices.{DeviceStore, load_devices}
use lockping_agent.Identity.{Identity, AgentJson}
use lockping_agent.Identity
use lockping_agent.Gateway.{Gateway, Outside, open_pairing}
use lockping_agent.Secure.Pairing.{new_window}
use lockping_agent.Webui.Serve.{Server}
use lockping_agent.Webui.Start
use lockping_agent.Command.Start.{
  Flags, Machine, Started, Files, config_dir, opened, ui_server, gateway_of, start_with, run_in,
  run_relay,
}

open_pairing_keeps :
    (g : Gateway) (o : Outside)
    → ((open_pairing g o).0.keys ≡ g.keys)
      × ((open_pairing g o).0.agent_id ≡ g.agent_id)
      × ((open_pairing g o).0.devices ≡ g.devices)
unfolding open_pairing
open_pairing_keeps g o = (ground arith, ground arith, ground arith)

open_pairing_total :
    (g : Gateway) (o : Outside) {r : Bytes}
    → o.random ≡ ok r
    → (code : Bytes) × ((open_pairing g o).1 ≡ ok code)
unfolding open_pairing new_window
open_pairing_total g o random = elim (Result-cases (open_pairing g o).1) [
  | inl made ↦ made
  | inr (e, failed) ↦ absurd (ground (arith, random, failed))
]

opened_keeps :
    (g : Gateway) (pair : Bool) (o : Outside) {g' : Gateway} {printed : Option Bytes}
    → opened g pair o ≡ ok (g', printed)
    → (g'.keys ≡ g.keys) × (g'.agent_id ≡ g.agent_id) × (g'.devices ≡ g.devices)
unfolding opened
opened_keeps g false o h = (ground arith, ground arith, ground arith)
opened_keeps g true o h =
    let (keys, id, devices) = open_pairing_keeps g o in (ground arith, ground arith, ground arith)

opened_total :
    (g : Gateway) (pair : Bool) (o : Outside) {r : Bytes}
    → o.random ≡ ok r
    → (g' : Gateway) × (printed : Option Bytes) × (opened g pair o ≡ ok (g', printed))
unfolding opened
opened_total g false o random = (g, none, refl)
opened_total g true o random =
    let (code, made) = open_pairing_total g o random in
    ((open_pairing g o).0, some code, rw (made, opened))

unnamed : (flags : Flags) → flags.relay ≢ [] → bytes_eq flags.relay [] ≡ false
unnamed flags named = ground (arith, bytes_eq_iff flags.relay [])

module _ {A : Type 0} where
  -- The gateway of an agent that started has the id and the keys of the identity, and the devices.
  pub start_with_ok :
      (flags : Flags) (m : Machine A) (ident : Identity) (devices : DeviceStore) {st : Started A}
      → start_with flags m ident devices ≡ ok st
      → (st.gateway.keys ≡ ident.keys)
        × (st.gateway.agent_id ≡ ident.agent_id)
        × (st.gateway.devices ≡ devices)
  unfolding start_with
  start_with_ok flags m ident devices {st} h =
      elim (Result-cases (opened (gateway_of flags m ident devices) flags.pair m.pairing)) [
        | inr (e, shut) ↦ ground arith
        | inl ((g, printed), made) ↦
            let (keys, id, same) =
              opened_keeps (gateway_of flags m ident devices) flags.pair m.pairing made in
            elim (Result-cases (ui_server flags m)) [
              | inr (e, failed) ↦ ground arith
              | inl (server, served) ↦ (ground arith, ground arith, ground arith)
            ]
      ]

  ui_server_total :
      (flags : Flags) (m : Machine A) {t : Bytes}
      → m.token ≡ ok t
      → (server : Option (Server A)) × (ui_server flags m ≡ ok server)
  unfolding ui_server Start.new
  ui_server_total flags m token = elim (Result-cases (ui_server flags m)) [
    | inl served ↦ served
    | inr (e, failed) ↦ absurd (ground (arith, token, failed))
  ]

  pub start_with_total :
      (flags : Flags) (m : Machine A) (ident : Identity) (devices : DeviceStore) {r t : Bytes}
      → m.pairing.random ≡ ok r
      → m.token ≡ ok t
      → (st : Started A) × (start_with flags m ident devices ≡ ok st)
  unfolding start_with
  start_with_total flags m ident devices random token =
      let (g, printed, made) =
        opened_total (gateway_of flags m ident devices) flags.pair m.pairing random in
      let (server, served) = ui_server_total flags m token in
      elim (Result-cases (start_with flags m ident devices)) [
        | inl started ↦ started
        | inr (e, failed) ↦ absurd (ground (arith, made, served, failed))
      ]

module _ (c : Crypto) {A : Type 0} where
  -- The parts of a start that succeeded.
  pub record Loaded (flags : Flags) (m : Machine A) (files : Files) (file : AgentJson)
      (st : Started A) : Type 0 where
    pub dir : Bytes
    pub ident : Identity
    pub devices : DeviceStore
    pub located : config_dir m ≡ ok dir
    pub identified :
        Identity.load c files.agent_json (m.join dir (codes "agent.json")) m.identity
        ≡ (file, ok ident)
    pub allowed : load_devices (m.join dir (codes "devices.json")) files.devices_json ≡ ok devices
    pub started : start_with flags m ident devices ≡ ok st

  loaded :
      (flags : Flags) (m : Machine A) (files : Files) (dir : Bytes) {file : AgentJson}
      {st : Started A}
      → config_dir m ≡ ok dir
      → run_in c flags m files dir ≡ (file, ok st)
      → Loaded flags m files file st
  unfolding run_in
  loaded flags m files dir located h =
      let path = m.join dir (codes "agent.json") in
      let list = m.join dir (codes "devices.json") in
      elim (Result-cases (Identity.load c files.agent_json path m.identity).1) [
        | inr (e, failed) ↦ absurd (ground (arith, failed))
        | inl (ident, identified) ↦ elim (Result-cases (load_devices list files.devices_json)) [
          | inr (e, failed) ↦ absurd (ground (arith, identified, failed))
          | inl (devices, allowed) ↦ record {
            dir = dir;
            ident = ident;
            devices = devices;
            located = located;
            identified = ground (arith, identified, allowed);
            allowed = allowed;
            started = ground (arith, identified, allowed);
          }
        ]
      ]

  pub run_relay-Loaded :
      (flags : Flags) (m : Machine A) (files : Files) {file : AgentJson} {st : Started A}
      → run_relay c (ok flags) m files ≡ (file, ok st)
      → Loaded flags m files file st
  unfolding run_relay run_in
  run_relay-Loaded flags m files {file} {st} h = elim (Bool-cases (bytes_eq flags.relay [])) [
    | inl nameless ↦ absurd (ground (arith, nameless))
    | inr named ↦ elim (Result-cases (config_dir m)) [
      | inr (e, lost) ↦ absurd (ground (arith, named, lost))
      | inl (dir, located) ↦ loaded flags m files dir located (ground (arith, named, located))
    ]
  ]

  pub Loaded-run_relay :
      (flags : Flags) (m : Machine A) (files : Files) {file : AgentJson} {st : Started A}
      → flags.relay ≢ []
      → Loaded flags m files file st
      → run_relay c (ok flags) m files ≡ (file, ok st)
  unfolding run_relay run_in
  Loaded-run_relay flags m files {st} named l =
      rw (unnamed flags named, l.located, run_in, l.identified)
        (rw (l.allowed, l.started) (ap (λ x. (x.0, ok st)) l.identified))
