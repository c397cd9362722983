-- ===== src/Command/Start/Restart.antt =====
-- What a started agent accepts, and what the next start finds again.
use lockping_agent.Prelude.{
  Bool, false, List, none, ◌≡◌, refl, ◌∙◌, inl, inr, arith, All, Bytes, ok, Result-cases,
}
use lockping_agent.Session.{Controller}
use lockping_agent.Secure.Crypto.{Crypto}
use lockping_agent.Secure.Crypt.{is_sealed}
use lockping_agent.Secure.Devices.{DeviceStore}
use lockping_agent.Identity.{Identity, AgentJson}
use lockping_agent.Identity
use lockping_agent.Gateway.Once.{Event, IsNoOpening, run, run-window, closed_ignores}
use lockping_agent.Gateway.{Gateway, Outside, handle, new}
use lockping_agent.Command.Start.{
  Flags, Machine, Started, Files, opened, ui_server, gateway_of, start_with, run_relay,
}
use lockping_agent.Command.Start.Loaded.{run_relay-Loaded}

opened_closed :
    (g : Gateway) (pair : Bool) (o : Outside) → pair ≡ false → opened g pair o ≡ ok (g, none)
unfolding opened
opened_closed g pair o closed = rw closed

module _ {A : Type 0} where
  new_closed :
      (flags : Flags) (m : Machine A) (ident : Identity) (devices : DeviceStore)
      → (gateway_of flags m ident devices).window ≡ none
  unfolding gateway_of new
  new_closed flags m ident devices = refl

  closed_start :
      (flags : Flags) (m : Machine A) (ident : Identity) (devices : DeviceStore) {st : Started A}
      → flags.pair ≡ false
      → start_with flags m ident devices ≡ ok st
      → st.gateway.window ≡ none
  unfolding start_with
  closed_start flags m ident devices closed started =
      let shut = opened_closed (gateway_of flags m ident devices) flags.pair m.pairing closed in
      elim (Result-cases (ui_server flags m)) [
        | inr (e, failed) ↦ absurd (ground (arith, shut, failed))
        | inl (server, served) ↦ ground (arith, shut, served, new_closed flags m ident devices)
      ]

module _ (c : Crypto) {S : Type 0} (sess : Controller S) {A : Type 0} where
  -- An agent that was started without -pair answers no plaintext message and nothing changes by
  -- one, whatever sealed messages came before it, until the config UI opens a pairing window.
  pub unpaired_start :
      (flags : Flags) (m : Machine A) (files : Files) {file : AgentJson} {st : Started A} (s : S)
      (es : List Event) (from payload : Bytes) (o : Outside)
      → run_relay c (ok flags) m files ≡ (file, ok st)
      → flags.pair ≡ false
      → All IsNoOpening es
      → is_sealed payload ≡ false
      → let now = run c sess st.gateway s es in
        handle c sess now.0 now.1 from payload o ≡ (now, none)
  unpaired_start flags m files {st} s es from payload o ran closed quiet plain =
      let parts = run_relay-Loaded c flags m files ran in
      let shut = closed_start flags m parts.ident parts.devices closed parts.started in
      let still = run-window c sess st.gateway s es quiet ∙ shut in
      closed_ignores c sess _ _ from payload o plain still
