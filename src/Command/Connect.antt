-- ===== src/Command/Connect.antt =====
-- `connect` in `runRelay` of cmd/lockping-agent/main.go: the relay's client over the gateway.
pub mod Lock
use lockping_agent.Prelude.{ℕ, suc, true, false, List, Option, none, some, Bytes}
use lockping_agent.Session.{Controller}
use lockping_agent.Secure.Crypto.{Crypto}
use lockping_agent.Gateway.{Gateway, Outside, handle}
use lockping_agent.Relay.Handshake.{Client}
use lockping_agent.Relay.Serve.{Handler}
use lockping_agent.Relay.Run.{Attempt, Running, new_running}
use lockping_agent.Relay.Run as Relay
use lockping_agent.Command.Main.{canceled, ignore_cancel}

-- The state behind the handler. The n-th message meets the n-th of the readings that are given.
pub record Agent (S : Type 0) : Type 0 where
  pub gateway : Gateway
  pub session : S
  pub calls : ℕ

module _ (c : Crypto) {S : Type 0} (sess : Controller S) (readings : ℕ → Outside) where
  -- `gw.Handle`, as the relay's client gets it.
  unfoldable pub gateway_handler : Handler (Agent S)
  gateway_handler a from payload =
      let ((g, s), reply) = handle c sess a.gateway a.session from payload (readings a.calls) in
      (record { gateway = g; session = s; calls = suc a.calls }, reply)

  -- `none` while the client runs. It returns the error of the cancelled context, which is none.
  unfoldable pub connect :
      Client → Agent S → List Attempt → Running (Agent S) × Option (Option Bytes)
  unfolding gateway_handler ignore_cancel
  connect cl a rounds =
      let (r, returned) = Relay.run c cl gateway_handler (new_running a) rounds in
      elim returned [ false ↦ (r, none) | true ↦ (r, some (ignore_cancel (some canceled))) ]
