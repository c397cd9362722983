-- ===== src/Relay/Run.antt =====
-- `session` and `Run` of internal/relay/client.go, over the connections that the client meets.
pub mod Protocol
pub mod States
pub mod Waits
use lockping_agent.Prelude.{
  ℕ, Bool, true, false, List, [], ◌∷◌, ◌++◌, Option, none, some, Bytes, codes, Result, ok, err,
}
use lockping_agent.Secure.Crypto.{Crypto}
use lockping_agent.Relay.Backoff.{Backoff, next, reset, new_backoff}
use lockping_agent.Relay.Conn.{Conn}
use lockping_agent.Relay.Handshake.{Client, handshake}
use lockping_agent.Relay.Serve.{Handler, serve}

-- One round of the loop: what dialing gives, whether the context was cancelled by the time that
-- the session ended, and whether it was cancelled during the wait.
pub record Attempt : Type 0 where
  pub dialed : Result Conn
  pub cancelled : Bool
  pub cancelled_waiting : Bool

-- What the client does, as it is seen from outside: it dials, and what that gives; it calls
-- `onState`; it starts to wait.
pub data Event : Type 0 where
  dialed : Result Conn → Event
  told : Bool → Event
  waited : ℕ → Event

-- The client as it runs: the handler's state, the backoff, and what it did so far.
pub record Running (H : Type 0) : Type 0 where
  pub handler : H
  pub backoff : Backoff
  pub trace : List Event

-- How a session stands: over with an error, or still waiting for a frame.
pub data Outcome : Type 0 where
  over : Bytes → Outcome
  waiting : Outcome

abbrev pub record_event : {H : Type 0} → Running H → Event → Running H
record_event r e = record r { trace = r.trace ++ e ∷ [] }

abbrev pub set_state : {H : Type 0} → Running H → Bool → Running H
set_state r connected = record_event r (told connected)

-- `New`
unfoldable pub new_running : {H : Type 0} → H → Running H
unfolding new_backoff
new_running h = record { handler = h; backoff = new_backoff; trace = [] }

-- The wait before the next round.
unfoldable pub wait : {H : Type 0} → Running H → Running H
wait r = let b = next r.backoff in record_event (record r { backoff = b }) (waited b.cur)

module _ (c : Crypto) (cl : Client) {H : Type 0} (handle : Handler H) where
  -- The session behind the handshake.
  unfoldable pub connected : Running H → Conn → Running H × Outcome
  connected r conn =
      let r' = set_state (record r { backoff = reset r.backoff }) true in
      let ((h, _), failed) = serve handle conn.reads r'.handler conn in
      let r'' = record r' { handler = h } in
      elim failed [ none ↦ (r'', waiting) | some e ↦ (set_state r'' false, over e) ]

  -- The session behind the dial.
  unfoldable pub dialed_session : Running H → Result Conn → Running H × Outcome
  unfolding connected
  dialed_session r (err e) = (r, over (codes "dial: " ++ e))
  dialed_session r (ok conn) =
      let (conn', failed) = handshake c cl conn in
      elim failed [ some e ↦ (r, over e) | none ↦ connected r conn' ]

  unfoldable pub session : Running H → Result Conn → Running H × Outcome
  unfolding dialed_session
  session r conn = dialed_session (record_event r (dialed conn)) conn

  -- `Run` over the rounds that take place: whether it returned. (It does once the context is
  -- cancelled, with the context's error.)
  unfoldable pub run : Running H → List Attempt → Running H × Bool
  unfolding wait
  run r [] = (r, false)
  run r (a ∷ rounds) =
      let (r', outcome) = session r a.dialed in
      elim outcome [
        | waiting ↦ (r', false)
        | over _ ↦ elim a.cancelled [
          | true ↦ (r', true)
          | false ↦ elim a.cancelled_waiting [
            | true ↦ (wait r', true)
            | false ↦ run (wait r') rounds
          ]
        ]
      ]
