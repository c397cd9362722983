-- ===== src/Session/WinMap.antt =====
-- internal/session/winmap.go: Win32 values as lock states.
use lockping_agent.Prelude.{ℕ, Bool, true, false, ◌==◌, if◌then◌else◌}
use lockping_agent.Prelude.Int.{ℤ, pos, negsuc}

abbrev pub wts_session_state_lock : ℕ
wts_session_state_lock = 0

abbrev pub wts_session_state_unlock : ℕ
wts_session_state_unlock = 1

abbrev pub wts_session_lock_event : ℕ
wts_session_lock_event = 0x7

abbrev pub wts_session_unlock_event : ℕ
wts_session_unlock_event = 0x8

-- `(locked, known)`, of an `int32`.
unfoldable pub locked_from_session_flags : ℤ → Bool × Bool
locked_from_session_flags (pos n) =
    if n == wts_session_state_lock
    then (true, true)
    else if n == wts_session_state_unlock
    then (false, true)
    else (false, false)
locked_from_session_flags (negsuc n) = (false, false)

-- `(locked, relevant)`
unfoldable pub locked_from_session_event : ℕ → Bool × Bool
locked_from_session_event wparam =
    if wparam == wts_session_lock_event
    then (true, true)
    else if wparam == wts_session_unlock_event
    then (false, true)
    else (false, false)
