-- ===== src/Command/Open/Polls.antt =====
-- The loop of `openCompanion` ends: by opening the browser at the first answer, or after its
-- twenty attempts.
use lockping_agent.Prelude.{
  ℕ, zero, suc, ◌<◌, true, false, List, [], ◌∷◌, ◌++◌, none, some, ◌≡◌, refl, ◌∙◌, ap, sym, ◌⊎◌,
  inl, inr, arith, append_assoc, append-nil, All, Bytes, take, drop, Result, Bool-cases,
}
use lockping_agent.Prelude.Int.{ℤ}
use lockping_agent.Command.Open.{
  Desktop, Event, ran, slept, record_event, url, browser, open_browser, is_ok, next_is_ok, behind,
  request, ui_alive, spawn_agent, start_agent, attempts, pause, no_answer, poll, open_companion,
}

-- So many requests, each with a pause behind it.
unfoldable pub waits : ℕ → ℤ → List Event
waits zero port = []
waits (suc n) port = request port ∷ slept pause ∷ waits n port

abbrev pub IsDead : Result ℕ → Type 0
IsDead a = is_ok a ≡ false

-- How the loop ends, from a desktop with some answers to come.
pub data Ends (n : ℕ) (d : Desktop) (port : ℤ) : Type 0 where
  opened :
      (k : ℕ)
      → k < n
      → All IsDead (take k d.answers)
      → next_is_ok (drop k d.answers) ≡ true
      → (poll n d port).1 ≡ none
      → (poll n d port).0.events
        ≡ d.events ++ (waits k port ++ request port ∷ ran (browser d.goos (url port)) ∷ [])
      → Ends n d port
  gave_up :
      All IsDead (take n d.answers)
      → (poll n d port).1 ≡ some (no_answer port)
      → (poll n d port).0.events ≡ d.events ++ waits n port
      → Ends n d port

-- One more attempt, without an answer.
abbrev waited : Desktop → ℤ → Desktop
waited d port = record_event (ui_alive d port).0 (slept pause)

poll_alive :
    (n : ℕ) (d : Desktop) (port : ℤ)
    → next_is_ok d.answers ≡ true
    → poll (suc n) d port ≡ (open_browser (ui_alive d port).0 (url port), none)
unfolding poll ui_alive
poll_alive n d port h = rw h

poll_dead :
    (n : ℕ) (d : Desktop) (port : ℤ)
    → next_is_ok d.answers ≡ false
    → poll (suc n) d port ≡ poll n (waited d port) port
unfolding poll ui_alive
poll_dead n d port h = rw h

IsDead-cons :
    (n : ℕ) (answers : List (Result ℕ))
    → next_is_ok answers ≡ false
    → All IsDead (take n (behind answers))
    → All IsDead (take (suc n) answers)
IsDead-cons n [] h rest = tt
IsDead-cons n (a ∷ answers) h rest = (h, rest)

drop-behind : (n : ℕ) (answers : List (Result ℕ)) → drop (suc n) answers ≡ drop n (behind answers)
drop-behind zero [] = refl
drop-behind (suc n) [] = refl
drop-behind n (a ∷ answers) = refl

-- What the requests and pauses so far leave in front.
waited-events :
    (d : Desktop) (port : ℤ) (more : List Event)
    → (waited d port).events ++ more ≡ d.events ++ (request port ∷ slept pause ∷ more)
unfolding ui_alive
waited-events d port more =
    append_assoc (d.events ++ request port ∷ []) (slept pause ∷ []) more
    ∙ append_assoc d.events (request port ∷ []) (slept pause ∷ more)

opens : (n : ℕ) (d : Desktop) (port : ℤ) → next_is_ok d.answers ≡ true → Ends (suc n) d port
unfolding ui_alive waits
opens n d port alive =
    let now = poll_alive n d port alive in
    opened zero (omega arith) tt alive (ap (λ r. r.1) now)
      (ap (λ r. r.0.events) now ∙ append_assoc d.events (request port ∷ []) _)

later :
    (n : ℕ) (d : Desktop) (port : ℤ)
    → next_is_ok d.answers ≡ false
    → Ends n (waited d port) port
    → Ends (suc n) d port
unfolding ui_alive waits
later n d port dead (opened k small deads live fine events) =
    let same = poll_dead n d port dead in
    opened (suc k) (omega arith) (IsDead-cons k d.answers dead deads)
      (ap next_is_ok (drop-behind k d.answers) ∙ live) (ap (λ r. r.1) same ∙ fine)
      (ap (λ r. r.0.events) same ∙ events ∙ waited-events d port _)
later n d port dead (gave_up deads failed events) =
    let same = poll_dead n d port dead in
    gave_up (IsDead-cons n d.answers dead deads) (ap (λ r. r.1) same ∙ failed)
      (ap (λ r. r.0.events) same ∙ events ∙ waited-events d port _)

poll-Ends : (n : ℕ) (d : Desktop) (port : ℤ) → Ends n d port
unfolding poll waits
poll-Ends zero d port = gave_up tt refl (sym (append-nil d.events))
poll-Ends (suc n) d port = elim (Bool-cases (next_is_ok d.answers)) [
  | inl alive ↦ opens n d port alive
  | inr dead ↦ later n d port dead (poll-Ends n (waited d port) port)
]

start_agent-answers : (d : Desktop) → (start_agent d).0.answers ≡ d.answers
unfolding start_agent spawn_agent
start_agent-answers d = ground arith

start_agent-goos : (d : Desktop) → (start_agent d).0.goos ≡ d.goos
unfolding start_agent spawn_agent
start_agent-goos d = ground arith

-- The desktop once the agent was started, behind a first request without an answer.
abbrev pub started : Desktop → ℤ → Desktop
started d port = (start_agent (ui_alive d port).0).0

open_companion-poll :
    (d : Desktop) (port : ℤ)
    → next_is_ok d.answers ≡ false
    → (start_agent (ui_alive d port).0).1 ≡ none
    → open_companion d port ≡ poll attempts (started d port) port
unfolding open_companion ui_alive
open_companion-poll d port dead fine = rw (dead, fine)

started-answers : (d : Desktop) (port : ℤ) → (started d port).answers ≡ behind d.answers
started-answers d port = start_agent-answers (ui_alive d port).0 ∙ (unfold ui_alive in refl)

started-goos : (d : Desktop) (port : ℤ) → (started d port).goos ≡ d.goos
started-goos d port = start_agent-goos (ui_alive d port).0 ∙ (unfold ui_alive in refl)

ended :
    {d : Desktop} (port : ℤ) {answers : List (Result ℕ)} {goos : Bytes}
    → d.answers ≡ answers
    → d.goos ≡ goos
    → Ends attempts d port
    → ((k : ℕ) × (k < 20)
        × All IsDead (take k answers)
        × (next_is_ok (drop k answers) ≡ true)
        × ((poll attempts d port).1 ≡ none)
        × ((poll attempts d port).0.events
            ≡ d.events ++ (waits k port ++ request port ∷ ran (browser goos (url port)) ∷ [])))
      ⊎ (All IsDead (take 20 answers)
          × ((poll attempts d port).1 ≡ some (no_answer port))
          × ((poll attempts d port).0.events ≡ d.events ++ waits 20 port))
ended port same goos (opened k small deads live fine events) =
    rw (← same, ← goos) (inl (k, small, deads, live, fine, events))
ended port same goos (gave_up deads failed events) = rw (← same) (inr (deads, failed, events))

-- When the UI does not answer at first and the agent can be started, openCompanion returns: at the
-- first answer among the next twenty requests, with a pause of 300 ms before each but the first,
-- without an error and with the browser opened on the UI, once; or, when none of the twenty is
-- answered, with the error that the UI does not answer, and no browser.
pub open_companion_ends :
    (d : Desktop) (port : ℤ)
    → next_is_ok d.answers ≡ false
    → (start_agent (ui_alive d port).0).1 ≡ none
    → ((k : ℕ) × (k < 20)
        × All IsDead (take k (behind d.answers))
        × (next_is_ok (drop k (behind d.answers)) ≡ true)
        × ((open_companion d port).1 ≡ none)
        × ((open_companion d port).0.events
            ≡ (started d port).events
              ++ (waits k port ++ request port ∷ ran (browser d.goos (url port)) ∷ [])))
      ⊎ (All IsDead (take 20 (behind d.answers))
          × ((open_companion d port).1 ≡ some (no_answer port))
          × ((open_companion d port).0.events ≡ (started d port).events ++ waits 20 port))
open_companion_ends d port dead fine = rw (open_companion-poll d port dead fine) (
    ended port (started-answers d port) (started-goos d port)
      (poll-Ends attempts (started d port) port))
