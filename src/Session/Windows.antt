-- ===== src/Session/Windows.antt =====
-- internal/session/wts_windows.go: the window procedure's queue of events, and `Watch` over it.
pub mod Queue
pub mod Watch
use lockping_agent.Prelude.{
  ℕ, Bool, true, false, List, [], ◌∷◌, ◌++◌, length, ltb, if◌then◌else◌, Result, ok, err, codes,
}
use lockping_agent.Prelude.Int.{ℤ, pos}
use lockping_agent.Json.Print.{print_int}
use lockping_agent.Session.WinMap.{locked_from_session_event, locked_from_session_flags}
use lockping_agent.Session.Watch.{same_state}

-- The size of `wtsInfoExHeader`.
abbrev pub header_size : ℕ
header_size = 20

-- `Locked`, of what `WTSQuerySessionInformation` gives: its error, or the size of the buffer and
-- the flags in it.
unfoldable pub locked : Result (ℕ × ℤ) → Result Bool
locked (err e) = err (codes "session: WTSQuerySessionInformation: " ++ e)
locked (ok (size, flags)) =
    if ltb size header_size
    then err (codes "session: WTSINFOEX te klein (" ++ (print_int (pos size) ++ codes " bytes)"))
    else let (is_locked, known) = locked_from_session_flags flags in
      if known
      then ok is_locked
      else err (codes "session: onbekende SessionFlags " ++ print_int flags)

-- The capacity of `watchEvents`.
abbrev pub capacity : ℕ
capacity = 8

-- A send that does not block: on a full channel the event is dropped.
unfoldable pub offer : List Bool → Bool → List Bool
offer queue locked = if ltb (length queue) capacity then queue ++ locked ∷ [] else queue

-- The branch of `wndProc` for a change of the session, with the event that is in `wparam`.
unfoldable pub session_change : List Bool → ℕ → List Bool
session_change queue wparam =
    let (locked, relevant) = locked_from_session_event wparam in
    if relevant then offer queue locked else queue

-- The watcher: the events not yet taken, the last state, and the calls of `onChange` so far.
pub record Watcher : Type 0 where
  pub queue : List Bool
  pub last : Bool
  pub reports : List Bool

-- One event for `select` to take.
unfoldable pub take_event : Watcher → Watcher
take_event w = elim w.queue [
  | [] ↦ w
  | locked ∷ queue ↦ elim (same_state locked w.last) [
    | true ↦ record w { queue = queue }
    | false ↦ record { queue = queue; last = locked; reports = w.reports ++ locked ∷ [] }
  ]
]

-- What happens, on the two threads: the window gets a message, or `Watch` takes an event.
pub data Step : Type 0 where
  session_message : ℕ → Step
  taken : Step

unfoldable pub step : Watcher → Step → Watcher
step w (session_message wparam) = record w { queue = session_change w.queue wparam }
step w taken = take_event w

unfoldable pub run : Watcher → List Step → Watcher
run w [] = w
run w (s ∷ steps) = run (step w s) steps
