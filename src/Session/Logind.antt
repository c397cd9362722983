-- ===== src/Session/Logind.antt =====
-- internal/session/logind_linux.go: the controller over logind. The system bus is a parameter: what
-- it answers in a state of the system.
pub mod Watching
pub mod Own
use lockping_agent.Prelude.{
  ℕ, Bool, true, false, not, ◌||◌, List, [], ◌∷◌, ◌++◌, Option, none, some, Bytes, codes, bytes_eq,
  ◌==◌, if◌then◌else◌, Result, ok, err,
}
use lockping_agent.Prelude.Int.{pos}
use lockping_agent.Json.Print.{print_int}
use lockping_agent.Prelude.Maps.{Map, lookup, insert}
use lockping_agent.Session.{Controller}
use lockping_agent.Session.Pick.{Candidate, is_graphical, pick_candidate}
use lockping_agent.Session.Watch.{same_state}

-- `listedSession`
pub record ListedSession : Type 0 where
  pub id : Bytes
  pub uid : ℕ
  pub user : Bytes
  pub seat : Bytes
  pub path : Bytes

-- The value of a property, by its type.
pub data Variant : Type 0 where
  bool_value : Bool → Variant
  string_value : Bytes → Variant
  other_value : Variant

-- `ListSessions`, a property of the session at a path, and `Lock` at a path.
pub record Bus (S : Type 0) : Type 0 where
  pub list_sessions : S → Result (List ListedSession)
  pub get_property : S → Bytes → Bytes → Result Variant
  pub lock : S → Bytes → S × Option Bytes

-- One value of a signal's body: a string, a map given by its keys, a list of strings, or another.
pub data BodyValue : Type 0 where
  text : Bytes → BodyValue
  changed : List Bytes → BodyValue
  invalidated : List Bytes → BodyValue
  other_body : BodyValue

abbrev pub session_iface : Bytes
session_iface = codes "org.freedesktop.login1.Session"

abbrev pub locked_hint : Bytes
locked_hint = codes "LockedHint"

unfoldable pub mentions_name : List Bytes → Bool
mentions_name [] = false
mentions_name (name ∷ names) = bytes_eq name locked_hint || mentions_name names

in_changed : BodyValue → Bool
in_changed (changed keys) = mentions_name keys
in_changed _ = false

in_invalidated : BodyValue → Bool
in_invalidated (invalidated names) = mentions_name names
in_invalidated _ = false

is_iface : BodyValue → Bool
is_iface (text s) = bytes_eq s session_iface
is_iface _ = bytes_eq [] session_iface

-- `none` is a nil signal.
unfoldable pub mentions_locked_hint : Option (List BodyValue) → Bool
unfolding in_changed in_invalidated is_iface mentions_name
mentions_locked_hint none = false
mentions_locked_hint (some (a ∷ b ∷ d ∷ _)) =
    if not (is_iface a) then false else (in_changed b || in_invalidated d)
mentions_locked_hint (some _) = false

module _ {S : Type 0} (bus : Bus S) (uid : ℕ) where
  unfoldable pub string_prop : S → Bytes → Bytes → Bytes
  string_prop s path name = elim (bus.get_property s path name) [
    | err _ ↦ []
    | ok v ↦ elim v [ string_value t ↦ t | _ ↦ [] ]
  ]

  unfoldable pub bool_prop : S → Bytes → Bytes → Bool
  bool_prop s path name = elim (bus.get_property s path name) [
    | err _ ↦ false
    | ok v ↦ elim v [ bool_value b ↦ b | _ ↦ false ]
  ]

  unfoldable pub candidate : S → ListedSession → Candidate
  candidate s l = record {
    id = l.id;
    class = string_prop s l.path (codes "Class");
    active = bool_prop s l.path (codes "Active");
    graphical = is_graphical (string_prop s l.path (codes "Type"));
  }

  -- The loop over the listed sessions, with the paths and the candidates so far.
  unfoldable pub collect :
      S → Map Bytes → List Candidate → List ListedSession → Map Bytes × List Candidate
  collect s paths cands [] = (paths, cands)
  collect s paths cands (l ∷ listed) =
      let own = l.uid == uid in
      collect s (if own then insert l.id l.path paths else paths)
        (if own then cands ++ candidate s l ∷ [] else cands) listed

  abbrev path_of : Option Bytes → Bytes
  path_of none = []
  path_of (some path) = path

  abbrev no_session : Bytes
  no_session = codes "session: no lockable logind session for uid " ++ print_int (pos uid)

  unfoldable pub session_path : S → Result Bytes
  session_path s = elim (bus.list_sessions s) [
    | err e ↦ err (codes "session: list sessions: " ++ e)
    | ok listed ↦
        let (paths, cands) = collect s [] [] listed in
        elim (pick_candidate cands) [
          | none ↦ err no_session
          | some c ↦ ok (path_of (lookup c.id paths))
        ]
  ]

  -- The type that the last error names is left out of its text.
  unfoldable pub locked : S → Result Bool
  locked s = elim (session_path s) [
    | err e ↦ err e
    | ok path ↦ elim (bus.get_property s path locked_hint) [
      | err e ↦ err (codes "session: read LockedHint: " ++ e)
      | ok v ↦ elim v [
        | bool_value b ↦ ok b
        | _ ↦ err (codes "session: LockedHint has unexpected type")
      ]
    ]
  ]

  unfoldable pub lock : S → S × Option Bytes
  lock s = elim (session_path s) [
    | err e ↦ (s, some e)
    | ok path ↦
        let (s', failed) = bus.lock s path in
        elim failed [ none ↦ (s', none) | some e ↦ (s', some (codes "session: lock: " ++ e)) ]
  ]

  -- The controller that the rest of the agent gets.
  unfoldable pub logind : Controller S
  unfolding locked lock
  logind = record { locked = locked; lock = lock }

  -- `New`, of the error of connecting to the bus if there is one.
  unfoldable pub new : Option Bytes → S → Result (Controller S)
  unfolding logind
  new (some e) s = err (codes "session: connect system bus: " ++ e)
  new none s = elim (session_path s) [ err e ↦ err e | ok _ ↦ ok logind ]

  -- The loop of `Watch` over the signals that arrive, each with the state of the system in which
  -- it is handled: the calls of `onChange`.
  unfoldable pub watch_loop : Bool → List (Option (List BodyValue) × S) → List Bool
  watch_loop last [] = []
  watch_loop last ((sig, s) ∷ signals) = elim (mentions_locked_hint sig) [
    | false ↦ watch_loop last signals
    | true ↦ elim (locked s) [
      | err _ ↦ watch_loop last signals
      | ok b ↦ elim (same_state b last) [
        | true ↦ watch_loop last signals
        | false ↦ b ∷ watch_loop b signals
      ]
    ]
  ]

  -- `Watch`: the calls of `onChange`, or the error before the first; `subscribed` is the error of
  -- the subscription, if there is one.
  unfoldable pub watch : Option Bytes → S → List (Option (List BodyValue) × S) → Result (List Bool)
  watch (some e) s signals = err (codes "session: subscribe: " ++ e)
  watch none s signals = elim (locked s) [ err e ↦ err e | ok b ↦ ok (b ∷ watch_loop b signals) ]
