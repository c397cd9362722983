-- ===== src/Command/Main.antt =====
-- cmd/lockping-agent/main.go: the commands, and the exit code; with install_windows.go and
-- install_other.go.
pub mod Effects
use lockping_agent.Prelude.{
  ℕ, Bool, true, false, List, [], ◌∷◌, ◌++◌, map, Option, none, some, Bytes, codes, bytes_eq,
  if◌then◌else◌, Result, ok, err,
}
use lockping_agent.Autostart.{Manager}
use lockping_agent.Session.{Controller}
use lockping_agent.Command.Open.{Desktop, open_companion}
use lockping_agent.Command.Start.{default_ui_port}

-- Why a loop ended: its context was cancelled, or another error.
pub data Cause : Type 0 where
  canceled : Cause
  other : Bytes → Cause

-- `ignoreCancel`
unfoldable pub ignore_cancel : Option Cause → Option Bytes
ignore_cancel none = none
ignore_cancel (some canceled) = none
ignore_cancel (some (other e)) = some e

unfoldable pub word : Bool → Bytes
word true = codes "locked"
word false = codes "unlocked"

-- What the commands act on: the state of the autostart, the desktop, the session, and the lines
-- printed so far.
pub record World (A S : Type 0) : Type 0 where
  pub platform : A
  pub desktop : Desktop
  pub session : S
  pub printed : List Bytes

-- What stands behind the command line: the platform and its autostart, what `session.New` gives,
-- the calls of `onChange` and the end of a `Watch`, and the agent of `runRelay`.
pub record Program (A S : Type 0) : Type 0 where
  pub goos : Bytes
  pub manager : Manager A
  pub controller : Result (Controller S)
  pub watched : S → List Bool × Option Cause
  pub relay : Controller S → World A S → List Bytes → World A S × Option Bytes

-- In quotes; the escapes of `%q` are left out.
abbrev pub unknown : Bytes → Bytes
unknown cmd = codes "unknown command \"" ++ (cmd ++ codes "\"")

exit_code : Option Bytes → ℕ
exit_code none = 0
exit_code (some _) = 1

-- The error is the last part.
abbrev pub Done : Type 0 → Type 0 → Type 0
Done A S = World A S × Option Bytes

module _ {A S : Type 0} where
  abbrev print_line : World A S → Bytes → World A S
  print_line w line = record w { printed = w.printed ++ line ∷ [] }

  -- The lines behind a switch of the Windows autostart.
  switched : World A S → A × Option Bytes → List Bytes → Done A S
  switched w (a, some e) lines = (record w { platform = a }, some e)
  switched w (a, none) lines = (record w { platform = a; printed = w.printed ++ lines }, none)

  unfoldable pub install_autostart : Program A S → World A S → Done A S
  unfolding switched
  install_autostart p w =
      if bytes_eq p.goos (codes "windows")
      then switched w (p.manager.enable w.platform) (
          codes "LockPing start voortaan mee met Windows (tray-icoon bij de klok)."
          ∷ codes "Nu meteen starten: lockping-agent run"
          ∷ [])
      else (print_line w (codes "Op Linux: systemctl --user enable --now lockping-agent"), none)

  unfoldable pub uninstall_autostart : Program A S → World A S → Done A S
  unfolding switched
  uninstall_autostart p w =
      if bytes_eq p.goos (codes "windows")
      then switched w (p.manager.disable w.platform) (codes "Autostart verwijderd." ∷ [])
      else (print_line w (codes "Op Linux: systemctl --user disable --now lockping-agent"), none)

  unfoldable pub open_ui : World A S → Done A S
  open_ui w =
      let (d, failed) = open_companion w.desktop default_ui_port in
      (record w { desktop = d }, failed)

  unfoldable pub status : Controller S → World A S → Done A S
  unfolding word
  status sess w = elim (sess.locked w.session) [
    | err e ↦ (w, some e)
    | ok locked ↦ (print_line w (word locked), none)
  ]

  unfoldable pub lock : Controller S → World A S → Done A S
  lock sess w = let (s, failed) = sess.lock w.session in (record w { session = s }, failed)

  unfoldable pub watch : Program A S → World A S → Done A S
  unfolding word ignore_cancel
  watch p w =
      let (states, cause) = p.watched w.session in
      (record w { printed = w.printed ++ map word states }, ignore_cancel cause)

  -- The commands that need the session.
  unfoldable pub with_session :
      Program A S → Controller S → World A S → Bytes → List Bytes → Done A S
  with_session p sess w cmd args =
      if bytes_eq cmd (codes "status")
      then status sess w
      else if bytes_eq cmd (codes "lock")
      then lock sess w
      else if bytes_eq cmd (codes "watch")
      then watch p w
      else if bytes_eq cmd (codes "run")
      then p.relay sess w args
      else (w, some (unknown cmd))

  unfoldable pub run : Program A S → World A S → Bytes → List Bytes → Done A S
  run p w cmd args =
      if bytes_eq cmd (codes "install")
      then install_autostart p w
      else if bytes_eq cmd (codes "uninstall")
      then uninstall_autostart p w
      else if bytes_eq cmd (codes "open")
      then open_ui w
      else elim p.controller [ err e ↦ (w, some e) | ok sess ↦ with_session p sess w cmd args ]

  -- `main`, of the arguments behind the program's name: the exit code with what is left.
  unfoldable pub main : Program A S → World A S → List Bytes → World A S × ℕ
  unfolding exit_code
  main p w [] =
      if bytes_eq p.goos (codes "windows")
      then (let (w', failed) = open_ui w in (w', exit_code failed))
      else (w, 2)
  main p w (cmd ∷ args) = let (w', failed) = run p w cmd args in (w', exit_code failed)
