-- ===== src/Command/Open.antt =====
-- cmd/lockping-agent/open.go and browser.go: opening the config UI, with the agent started first if
-- it does not run. The desktop is the script of what it will answer and the record of what was done.
pub mod Polls
use lockping_agent.Prelude.{
  ℕ, zero, suc, Bool, true, false, List, [], ◌∷◌, ◌++◌, Option, none, some, Bytes, codes, bytes_eq,
  ◌==◌, if◌then◌else◌, Result, ok, err,
}
use lockping_agent.Prelude.Int.{ℤ}
use lockping_agent.Json.Print.{print_int}

-- What was done: a command that was run or started, a request to the UI, a pause in nanoseconds.
pub data Event : Type 0 where
  ran : List Bytes → Event
  asked : Bytes → Event
  slept : ℕ → Event

-- `goos` is `runtime.GOOS`. The answers to the requests to come are errors or status codes (an
-- error once they are used up); the others are what starting the unit, the agent's own program
-- and the browser gives.
pub record Desktop : Type 0 where
  pub goos : Bytes
  pub answers : List (Result ℕ)
  pub unit_starts : Bool
  pub executable : Result Bytes
  pub spawned : Option Bytes
  pub events : List Event

abbrev pub record_event : Desktop → Event → Desktop
record_event d e = record d { events = d.events ++ e ∷ [] }

abbrev pub url : ℤ → Bytes
url port = codes "http://127.0.0.1:" ++ (print_int port ++ codes "/")

abbrev pub browser : Bytes → Bytes → List Bytes
browser goos address =
    if bytes_eq goos (codes "windows")
    then codes "rundll32" ∷ codes "url.dll,FileProtocolHandler" ∷ address ∷ []
    else codes "xdg-open" ∷ address ∷ []

-- A browser that does not start is only logged.
abbrev pub open_browser : Desktop → Bytes → Desktop
open_browser d address = record_event d (ran (browser d.goos address))

abbrev pub is_ok : Result ℕ → Bool
is_ok (ok status) = status == 200
is_ok (err _) = false

abbrev pub next_is_ok : List (Result ℕ) → Bool
next_is_ok [] = false
next_is_ok (a ∷ _) = is_ok a

abbrev pub behind : List (Result ℕ) → List (Result ℕ)
behind [] = []
behind (_ ∷ answers) = answers

abbrev pub request : ℤ → Event
request port = asked (codes "http://127.0.0.1:" ++ (print_int port ++ codes "/api/state"))

unfoldable pub ui_alive : Desktop → ℤ → Desktop × Bool
unfolding print_int
ui_alive d port =
    (record_event (record d { answers = behind d.answers }) (request port), next_is_ok d.answers)

-- As a process of its own.
spawn_agent : Desktop → Desktop × Option Bytes
spawn_agent d = elim d.executable [
  | err e ↦ (d, some e)
  | ok exe ↦ (record_event d (ran (exe ∷ codes "run" ∷ [])), d.spawned)
]

-- `startAgent`: the error, if there is one.
unfoldable pub start_agent : Desktop → Desktop × Option Bytes
unfolding spawn_agent
start_agent d =
    if bytes_eq d.goos (codes "linux")
    then (let unit =
          codes "systemctl" ∷ codes "--user" ∷ codes "start" ∷ codes "lockping-agent" ∷ [] in
        let d' = record_event d (ran unit) in if d.unit_starts then (d', none) else spawn_agent d')
    else spawn_agent d

abbrev pub attempts : ℕ
attempts = 20

-- 300 ms
abbrev pub pause : ℕ
pause = 300000000

abbrev pub no_answer : ℤ → Bytes
no_answer port = codes "agent gestart, maar de UI antwoordt niet op " ++ url port

-- The loop with so many attempts left.
unfoldable pub poll : ℕ → Desktop → ℤ → Desktop × Option Bytes
unfolding print_int
poll zero d port = (d, some (no_answer port))
poll (suc n) d port =
    let (d', alive) = ui_alive d port in
    let rest = poll n (record_event d' (slept pause)) port in
    if alive then (open_browser d' (url port), none) else rest

unfoldable pub open_companion : Desktop → ℤ → Desktop × Option Bytes
unfolding print_int
open_companion d port =
    let (d', alive) = ui_alive d port in
    if alive
    then (open_browser d' (url port), none)
    else (let (d'', failed) = start_agent d' in
        elim failed [
          | some e ↦ (d'', some (codes "agent starten: " ++ e))
          | none ↦ poll attempts d'' port
        ])
