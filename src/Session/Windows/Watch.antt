-- ===== src/Session/Windows/Watch.antt =====
-- internal/session/wts_windows.go: the controller, `Watch` from its start to its end, and its
-- message window. Win32 is a parameter.
pub mod Again
use lockping_agent.Prelude.{
  ℕ, Bool, true, false, List, [], ◌∷◌, ◌++◌, Option, none, some, Bytes, codes, ◌==◌, if◌then◌else◌,
  Result, ok, err,
}
use lockping_agent.Prelude.Int.{ℤ}
use lockping_agent.Session.{Controller}
use lockping_agent.Session.Windows.{locked, session_change, Watcher, Step, run}

-- What the program calls of Win32, over a state `W` of the system: the size of the buffer and the
-- flags of `WTSQuerySessionInformation`, and for the others their error, if there is one.
pub record Win32 (W : Type 0) : Type 0 where
  pub query_session : W → Result (ℕ × ℤ)
  pub lock_work_station : W → W × Option Bytes
  pub register_class : W → Bytes → W × Option Bytes
  pub create_window : W → Bytes → W × Result ℕ
  pub destroy_window : W → ℕ → W
  pub register_session : W → ℕ → W × Option Bytes
  pub unregister_session : W → ℕ → W
  pub post_quit : W → W
  pub def_window_proc : W → ℕ → ℕ → W

abbrev pub class_name : Bytes
class_name = codes "LockPingAgentWatch"

abbrev pub wm_session_change : ℕ
wm_session_change = 0x2b1

abbrev pub wm_close : ℕ
wm_close = 0x10

abbrev pub wm_destroy : ℕ
wm_destroy = 2

-- Why `Watch` returns: another watcher, an error, a cancelled context, or the end of the window's
-- loop, which is no error.
pub data Ending : Type 0 where
  already_active : Ending
  failed : Bytes → Ending
  cancelled : Ending
  loop_ended : Ending

-- How a watch that waits for events goes on: what happens until it ends, and whether it is by the
-- context or by the window's loop, whose `GetMessage` fails.
pub record Course : Type 0 where
  pub steps : List Step
  pub by_context : Bool

-- Win32 with `watchActive`.
pub record Process (W : Type 0) : Type 0 where
  pub win : W
  pub active : Bool

module _ {W : Type 0} (api : Win32 W) where
  unfoldable pub lock : W → W × Option Bytes
  lock w =
      let (w', failed') = api.lock_work_station w in
      elim failed' [
        | none ↦ (w', none)
        | some e ↦ (w', some (codes "session: LockWorkStation: " ++ e))
      ]

  unfoldable pub win_session : Controller W
  unfolding lock locked
  win_session = record { locked = λ w. locked (api.query_session w); lock = lock }

  -- `New`
  unfoldable pub new : W → Result (Controller W)
  unfolding win_session locked
  new w = elim (locked (api.query_session w)) [ err e ↦ err e | ok _ ↦ ok win_session ]

  unfoldable pub create_message_window : W → W × Result ℕ
  create_message_window w =
      let (w', failed') = api.register_class w class_name in
      elim failed' [
        | some e ↦ (w', err (codes "session: RegisterClassEx: " ++ e))
        | none ↦
            let (w'', made) = api.create_window w' class_name in
            elim made [
              | err e ↦ (w'', err (codes "session: CreateWindowEx: " ++ e))
              | ok hwnd ↦ (w'', ok hwnd)
            ]
      ]

  -- What `wndProc` does with the WM_DESTROY that `DestroyWindow` sends to it.
  unfoldable pub on_destroy : W → ℕ → W
  on_destroy w hwnd = api.post_quit (api.unregister_session w hwnd)

  -- The start of `messageLoop`: the window that it sends to `hwndCh`, or the error to `loopErr`.
  unfoldable pub open_loop : W → W × Result ℕ
  unfolding create_message_window on_destroy
  open_loop w =
      let (w', made) = create_message_window w in
      elim made [
        | err e ↦ (w', err e)
        | ok hwnd ↦
            let (w'', failed') = api.register_session w' hwnd in
            elim failed' [
              | some e ↦ (
                on_destroy (api.destroy_window w'' hwnd) hwnd,
                err (codes "session: WTSRegisterSessionNotification: " ++ e),
              )
              | none ↦ (w'', ok hwnd)
            ]
      ]

  -- `wndProc`, with the queue of events.
  unfoldable pub wnd_proc : W → List Bool → ℕ → ℕ → ℕ → W × List Bool
  unfolding on_destroy session_change
  wnd_proc w queue hwnd message wparam =
      if message == wm_session_change
      then (w, session_change queue wparam)
      else if message == wm_close
      then (on_destroy (api.destroy_window w hwnd) hwnd, queue)
      else if message == wm_destroy
      then (on_destroy w hwnd, queue)
      else (api.def_window_proc w hwnd message, queue)

  -- What the window's thread does with the WM_CLOSE that a cancelled `Watch` posts.
  unfoldable pub closed : W → ℕ → W
  unfolding wnd_proc
  closed w hwnd = (wnd_proc w [] hwnd wm_close 0).0

  -- Of `Watch`, the part behind the first report. The last part is why it ends.
  unfoldable pub watch_window : W → Bool → Course → W × (List Bool × Ending)
  unfolding open_loop closed run
  watch_window w last course =
      let (w', opened) = open_loop w in
      elim opened [
        | err e ↦ (w', (last ∷ [], failed e))
        | ok hwnd ↦
            let watcher : Watcher = record { queue = []; last = last; reports = last ∷ [] } in
            let reports = (run watcher course.steps).reports in
            elim course.by_context [
              | true ↦ (closed w' hwnd, (reports, cancelled))
              | false ↦ (w', (reports, loop_ended))
            ]
      ]

  -- `Watch`: the process behind it, the calls of `onChange`, and why it ended.
  unfoldable pub watch : Process W → Course → Process W × (List Bool × Ending)
  unfolding locked watch_window
  watch p course = elim p.active [
    | true ↦ (p, ([], already_active))
    | false ↦ elim (locked (api.query_session p.win)) [
      | err e ↦ (p, ([], failed e))
      | ok last ↦
          let (w, seen) = watch_window p.win last course in
          (record { win = w; active = false }, seen)
    ]
  ]
