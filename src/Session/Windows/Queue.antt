-- ===== src/Session/Windows/Queue.antt =====
-- What the watcher knows, as long as the queue of `wndProc` has room.
use lockping_agent.Prelude.{
  zero, suc, ◌≤◌, ℕ, ◌<◌, Bool, true, List, [], ◌∷◌, ◌++◌, length, ◌≡◌, refl, ap, sym, ◌∙◌, arith,
  ltb, if◌then◌else◌, Bool-cases, inl, inr,
}
use lockping_agent.Session.WinMap.{locked_from_session_event}
use lockping_agent.Session.Watch.{same_state, last_of, same_state_iff}
use lockping_agent.Session.Windows.{
  capacity, offer, session_change, Watcher, take_event, Step, session_message, taken, step, run,
}

-- The state after an event of the session.
unfoldable pub state_after : Bool → Step → Bool
state_after b (session_message wparam) =
    let (locked, relevant) = locked_from_session_event wparam in if relevant then locked else b
state_after b taken = b

unfoldable pub final_state : Bool → List Step → Bool
final_state b [] = b
final_state b (s ∷ steps) = final_state (state_after b s) steps

-- Whenever a message comes, the queue has room.
abbrev pub HasRoom : Watcher → List Step → Type 0
HasRoom w [] = Unit {0}
HasRoom w (session_message m ∷ steps) =
    (length w.queue < capacity) × HasRoom (step w (session_message m)) steps
HasRoom w (taken ∷ steps) = HasRoom (step w taken) steps

-- The last event that waits in the queue, or else the state last reported, is the state `b`.
abbrev pub Knows : Bool → Watcher → Type 0
Knows b w = last_of w.last w.queue ≡ b

last_of-snoc : (last b : Bool) (q : List Bool) → last_of last (q ++ b ∷ []) ≡ b
unfolding last_of
last_of-snoc last b [] = refl
last_of-snoc last b (x ∷ q) = last_of-snoc x b q

offered : (b last : Bool) (q : List Bool) → length q < capacity → last_of last (offer q b) ≡ b
unfolding offer
offered b last q room =
    let fits : ltb (length q) capacity ≡ true = ground arith in rw fits (last_of-snoc last b q)

message-Knows :
    (b : Bool) (w : Watcher) (m : ℕ)
    → length w.queue < capacity
    → Knows b w
    → Knows (state_after b (session_message m)) (step w (session_message m))
unfolding step session_change state_after
message-Knows b w m room h = elim (Bool-cases (locked_from_session_event m).1) [
  | inl relevant ↦
      rw (relevant, session_change) (offered (locked_from_session_event m).0 w.last w.queue room)
  | inr other ↦ rw (other, session_change) h
]

-- What was reported last is the state that the watcher takes for the present one.
abbrev pub IsReported : Bool → Watcher → Type 0
IsReported first w = last_of first w.reports ≡ w.last

take_lem :
    (q : List Bool) (b first : Bool) (w : Watcher)
    → w.queue ≡ q
    → Knows b w
    → IsReported first w
    → Knows b (take_event w) × IsReported first (take_event w)
unfolding take_event last_of
take_lem [] b first w e h k = rw (e, take_event) (h, k)
take_lem (x ∷ q) b first w e h k =
    let after : last_of x q ≡ b = ap (λ l. last_of w.last l) (sym e) ∙ h in
    elim (Bool-cases (same_state x w.last)) [
      | inl same ↦
          rw (e, take_event)
            (rw (same, take_event)
              (ap (λ t. last_of t q) (sym (same_state_iff x w.last same)) ∙ after, k))
      | inr other ↦
          rw (e, take_event) (rw (other, take_event) (after, last_of-snoc first x w.reports))
    ]

run-final :
    (b first : Bool) (w : Watcher) (steps : List Step)
    → HasRoom w steps
    → Knows b w
    → IsReported first w
    → Knows (final_state b steps) (run w steps) × IsReported first (run w steps)
unfolding run final_state
run-final b first w [] _ h k = (h, k)
run-final b first w (session_message m ∷ steps) (room, rooms) h k =
    run-final (state_after b (session_message m)) first (step w (session_message m)) steps rooms
      (message-Knows b w m room h) (unfold step in k)
run-final b first w (taken ∷ steps) rooms h k =
    let (h', k') = take_lem w.queue b first w refl h k in
    run-final (state_after b taken) first (step w taken) steps rooms (unfold step state_after in h')
      (unfold step in k')

abbrev pub watching : Bool → Watcher
watching b = record { queue = []; last = b; reports = b ∷ [] }

-- As long as the queue has room for every event, the watcher ends on the right state: once it has
-- taken all events, the last report is the state after the last event of the session.
pub reports-final_state :
    (b : Bool) (steps : List Step)
    → HasRoom (watching b) steps
    → (run (watching b) steps).queue ≡ []
    → last_of b (run (watching b) steps).reports ≡ final_state b steps
unfolding last_of
reports-final_state b steps rooms empty =
    let (knows, reported) = run-final b b (watching b) steps rooms refl refl in
    reported ∙ ap (λ q. last_of (run (watching b) steps).last q) (sym empty) ∙ knows

abbrev pub takes : ℕ → List Step
takes zero = []
takes (suc n) = taken ∷ takes n

takes-HasRoom : (n : ℕ) (w : Watcher) → HasRoom w (takes n)
takes-HasRoom zero w = tt
takes-HasRoom (suc n) w = takes-HasRoom n (step w taken)

takes-final_state : (n : ℕ) (b : Bool) → final_state b (takes n) ≡ b
unfolding final_state state_after
takes-final_state zero b = refl
takes-final_state (suc n) b = takes-final_state n b

full_step : (w : Watcher) (m : ℕ) → capacity ≤ length w.queue → session_change w.queue m ≡ w.queue
unfolding session_change offer
full_step w m full = ground arith

-- An event that comes while the queue is full is lost for good: whatever it was, once all events
-- are taken the last report is the state from before it, of the last event in the queue.
pub full_queue_loses :
    (b first : Bool) (w : Watcher) (m n : ℕ)
    → Knows b w
    → IsReported first w
    → capacity ≤ length w.queue
    → (run (step w (session_message m)) (takes n)).queue ≡ []
    → last_of first (run (step w (session_message m)) (takes n)).reports ≡ b
unfolding last_of
full_queue_loses b first w m n h k full empty =
    let w' = step w (session_message m) in
    let h' : Knows b w' = unfold step in (ap (λ q. last_of w.last q) (full_step w m full) ∙ h) in
    let (knows, reported) =
      run-final b first w' (takes n) (takes-HasRoom n w') h' (unfold step in k) in
    reported
    ∙ ap (λ q. last_of (run w' (takes n)).last q) (sym empty)
    ∙ knows
    ∙ takes-final_state n b
