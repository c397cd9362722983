-- ===== src/Tests/Session.antt =====
-- The choice of a session, and what a watch reports.
use lockping_agent.Prelude.{
  Bool, Option, arith, ok, if◌then◌else◌, ℕ, true, false, List, [], ◌∷◌, none, some, ◌≡◌, refl, ◌⊎◌,
  codes, bytes_eq,
}
use lockping_agent.Prelude.Maps.{lookup, insert}
use lockping_agent.Session.WinMap.{locked_from_session_event}
use lockping_agent.Session.Watch.{changes, last_of, IsChanging}
use lockping_agent.Session.Logind.{
  ListedSession, Bus, bool_value, string_value, BodyValue, text, changed, invalidated,
  session_iface, locked_hint, mentions_locked_hint, string_prop, bool_prop, candidate, collect,
  session_path, locked, watch_loop, watch,
}
use lockping_agent.Session.Logind.Watching.{readings, watch-changes}
use lockping_agent.Session.Windows.{
  Watcher, Step, session_message, taken, step, run, session_change, offer, take_event,
}
use lockping_agent.Prelude.Int.{pos}
use lockping_agent.Prelude.{Bytes, ◌++◌}
use lockping_agent.Session.Logind.{lock}
use lockping_agent.Session.Logind.Own.{IsOwn, lock-IsOwn}
use lockping_agent.Session.WinMap.{locked_from_session_flags}
use lockping_agent.Session.Windows as Windows
use lockping_agent.Session.Windows.Watch.{
  Win32, Process, Course, Ending, failed, open_loop, create_message_window,
}
use lockping_agent.Session.Windows.Watch as Window
use lockping_agent.Session.Windows.Watch.Again.{IsDocumented, watches, second_watch_fails}
use lockping_agent.Session.Windows.Queue.{
  watching, HasRoom, final_state, reports-final_state, Knows, IsReported, takes, full_queue_loses,
}
use lockping_agent.Session.Pick.{
  is_graphical, Candidate, pick_candidate, pick_loop, score, is_lockable,
}
use lockping_agent.Session.Pick.Best.{NoneLockable, IsBest, pick_candidate-IsBest}

abbrev greeter : Candidate
greeter = record { id = codes "c1"; class = codes "greeter"; active = true; graphical = true }

abbrev idle : Candidate
idle = record { id = codes "2"; class = codes "user"; active = false; graphical = true }

abbrev desktop : Candidate
desktop = record { id = codes "3"; class = codes "user"; active = true; graphical = true }

abbrev sessions : List Candidate
sessions = greeter ∷ idle ∷ desktop ∷ desktop ∷ []

picked : pick_candidate sessions ≡ some desktop
unfolding pick_candidate pick_loop score is_lockable bytes_eq
picked = refl

pick_candidate-IsBest_example :
    ((pick_candidate sessions ≡ none) × NoneLockable sessions)
    ⊎ ((i : ℕ) × (c : Candidate) × (pick_candidate sessions ≡ some c) × IsBest sessions i c)
pick_candidate-IsBest_example = pick_candidate-IsBest sessions

-- A bus with one session of user 1000, which is locked when the state says so.
abbrev listed : ListedSession
listed = record {
  id = codes "3";
  uid = 1000;
  user = codes "anna";
  seat = codes "seat0";
  path = codes "/session/3";
}

abbrev bus : Bus Bool
bus = record {
  list_sessions = λ _. ok (listed ∷ []);
  get_property = λ s _ name.
      if bytes_eq name (codes "LockedHint")
      then ok (bool_value s)
      else ok (string_value (codes "user"));
  lock = λ _ _. (true, none);
}

abbrev hint : Option (List BodyValue)
hint = some (text session_iface ∷ changed (locked_hint ∷ []) ∷ invalidated [] ∷ [])

abbrev signals : List (Option (List BodyValue) × Bool)
signals = (hint, true) ∷ (none, false) ∷ (hint, true) ∷ (hint, false) ∷ []

watched : watch bus 1000 none false signals ≡ ok (false ∷ true ∷ false ∷ [])
unfolding watch watch_loop locked session_path collect candidate string_prop bool_prop
    pick_candidate pick_loop score is_lockable is_graphical lookup insert mentions_locked_hint
    bytes_eq
watched = refl

watch-changes_example :
    (b : Bool) × (rest : List Bool) × (locked bus 1000 false ≡ ok b)
    × (false ∷ true ∷ false ∷ [] ≡ b ∷ rest)
    × (rest ≡ changes b (readings bus 1000 signals))
    × IsChanging b rest
    × (last_of b rest ≡ last_of b (readings bus 1000 signals))
watch-changes_example =
    watch-changes bus 1000 false signals {reports = false ∷ true ∷ false ∷ []} watched

abbrev steps : List Step
steps = session_message 7 ∷ session_message 5 ∷ taken ∷ session_message 8 ∷ taken ∷ []

has_room : HasRoom (watching false) steps
unfolding step session_change offer take_event locked_from_session_event
has_room = (omega arith, (omega arith, (omega arith, tt)))

all_taken : (run (watching false) steps).queue ≡ []
unfolding run step session_change offer take_event locked_from_session_event
all_taken = refl

reports-final_state_example :
    last_of false (run (watching false) steps).reports ≡ final_state false steps
reports-final_state_example = reports-final_state false steps has_room all_taken

-- The session is unlocked, and eight events wait, the last of them an unlocking.
abbrev full_watcher : Watcher
full_watcher = record {
  queue = true ∷ false ∷ true ∷ false ∷ true ∷ false ∷ true ∷ false ∷ [];
  last = false;
  reports = false ∷ [];
}

knows : Knows false full_watcher
unfolding last_of
knows = refl

reported : IsReported false full_watcher
unfolding last_of
reported = refl

emptied : (run (step full_watcher (session_message 7)) (takes 8)).queue ≡ []
unfolding run step session_change offer take_event locked_from_session_event
emptied = refl

full_queue_loses_example :
    last_of false (run (step full_watcher (session_message 7)) (takes 8)).reports ≡ false
full_queue_loses_example =
    full_queue_loses false false full_watcher 7 8 knows reported (omega arith) emptied

lock-IsOwn_example :
    ((lock bus 1000 false).0 ≡ false)
    ⊎ ((found : List ListedSession) × (path : Bytes) × (ok (listed ∷ []) ≡ ok found)
        × IsOwn bus 1000 found path
        × ((lock bus 1000 false).0 ≡ true))
lock-IsOwn_example = lock-IsOwn bus 1000 false

-- A system of which only the window class counts: whether it is registered. The session is unlocked.
abbrev win32 : Win32 Bool
win32 = record {
  query_session = λ _. ok (20, pos 1);
  lock_work_station = λ w. (w, none);
  register_class = λ w _. elim w [ true ↦ (true, some (codes "exists")) | false ↦ (true, none) ];
  create_window = λ w _. (w, ok 7);
  destroy_window = λ w _. w;
  register_session = λ w _. (w, none);
  unregister_session = λ w _. w;
  post_quit = λ w. w;
  def_window_proc = λ w _ _. w;
}

abbrev IsRegistered : Bool → Type 0
IsRegistered w = w ≡ true

registering : (w : Bool) → IsRegistered (win32.register_class w (codes "LockPingAgentWatch")).0
registering true = refl
registering false = refl

taken_twice :
    (w : Bool)
    → IsRegistered w
    → (e : Bytes) × ((win32.register_class w (codes "LockPingAgentWatch")).1 ≡ some e)
taken_twice true is = (codes "exists", refl)
taken_twice false is = cc

win32-IsDocumented : IsDocumented win32 IsRegistered
win32-IsDocumented = record {
  registered = λ w _. registering w;
  kept = λ w _. registering w;
  taken = taken_twice;
  created = λ w is. is;
  destroyed = λ w hwnd is. is;
  notified = λ w hwnd is. is;
  unnotified = λ w hwnd is. is;
  posted = λ w is. is;
}

abbrev fresh_process : Process Bool
fresh_process = record { win = false; active = false }

-- The session is locked, and the watch is cancelled.
abbrev course : Course
course = record { steps = session_message 7 ∷ taken ∷ []; by_context = true }

is_unlocked : Windows.locked (ok (20, pos 1)) ≡ ok false
unfolding Windows.locked locked_from_session_flags
is_unlocked = refl

window_opened : (open_loop win32 false).1 ≡ ok 7
unfolding open_loop create_message_window
window_opened = refl

watched_once : (Window.watch win32 fresh_process course).1 ≡ (false ∷ true ∷ [], Window.cancelled)
unfolding Window.watch Window.watch_window open_loop create_message_window Windows.locked
    locked_from_session_flags run step session_change offer take_event locked_from_session_event
watched_once = refl

second_watch_fails_example :
    (e : Bytes) × ((Window.watch win32
        (watches win32 (Window.watch win32 fresh_process course).0 (course ∷ []))
        course).1
      ≡ (false ∷ [], failed (codes "session: RegisterClassEx: " ++ e)))
second_watch_fails_example =
    second_watch_fails win32 IsRegistered win32-IsDocumented fresh_process course (course ∷ [])
      course refl is_unlocked window_opened is_unlocked
