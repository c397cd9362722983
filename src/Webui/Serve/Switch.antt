-- ===== src/Webui/Serve/Switch.antt =====
-- The switch of the autostart in the config UI, over what a platform's `Manager` promises.
use lockping_agent.Prelude.{
  true, false, Bool, some, ◌≡◌, ap, sym, ◌∙◌, arith, Bytes, Option-cases, inl, inr,
}
use lockping_agent.Prelude.Int.{ℤ}
use lockping_agent.Session.{Controller}
use lockping_agent.Autostart.{Manager, IsSwitch}
use lockping_agent.Webui.Serve.{
  Agent, Server, reply, ok_json, set_enable, body_as, switch, state, autostart,
}

module _ {A S : Type 0} (server : Server A) (sess : Controller S) where
  switch_done :
      (m : Manager A) (a : Agent A) (on : Bool)
      → IsSwitch m
      → (switch server sess m a on).1 ≡ reply 200 ok_json
      → m.status (switch server sess m a on).0.platform ≡ (on, true)
  unfolding switch
  switch_done m a true law h = elim (Option-cases (m.enable a.platform).1) [
    | inl fine ↦ ground (arith, fine, law.enabled a.platform)
    | inr (e, failed) ↦ absurd (ground (arith, failed))
  ]
  switch_done m a false law h = elim (Option-cases (m.disable a.platform).1) [
    | inl fine ↦ ground (arith, fine, law.disabled a.platform)
    | inr (e, failed) ↦ absurd (ground (arith, failed))
  ]

  autostart-switch :
      (m : Manager A) (a : Agent A) (body : Bytes) (on : Bool)
      → server.manager ≡ some m
      → body_as set_enable false body ≡ some on
      → autostart server sess a body ≡ switch server sess m a on
  unfolding autostart
  autostart-switch m a body on given read = ground (arith, given, read)

  state_shows :
      (m : Manager A) (a : Agent A) (on : Bool) (s : S) (now : ℤ)
      → server.manager ≡ some m
      → m.status a.platform ≡ (on, true)
      → (state server sess a s now).autostart ≡ some on
  unfolding state
  state_shows m a on s now given stands = ground (arith, given, stands)

  -- A request to switch the autostart that is answered with ok names the new setting, and the
  -- state that the UI shows afterwards has it.
  pub state-autostart :
      (m : Manager A) (a : Agent A) (body : Bytes) (s : S) (now : ℤ)
      → server.manager ≡ some m
      → IsSwitch m
      → (autostart server sess a body).1 ≡ reply 200 ok_json
      → (on : Bool) × (body_as set_enable false body ≡ some on)
        × ((state server sess (autostart server sess a body).0 s now).autostart ≡ some on)
  unfolding autostart
  state-autostart m a body s now given law h = elim (Option-cases (body_as set_enable false body)) [
    | inl bad ↦ absurd (ground (arith, given, bad))
    | inr (on, read) ↦ (
      on,
      read,
      let ran = autostart-switch m a body on given read in
          let stands = switch_done m a on law (ap (λ r. r.1) (sym ran) ∙ h) in
          state_shows m (autostart server sess a body).0 on s now given
            (ap (λ r. m.status r.0.platform) ran ∙ stands),
    )
  ]
