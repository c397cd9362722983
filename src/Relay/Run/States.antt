-- ===== src/Relay/Run/States.antt =====
-- A run of the client (`Run`, `session` and `setState` of internal/relay/client.go) is in turn.
use lockping_agent.Prelude.{
  Bool, true, false, List, [], ◌∷◌, ◌++◌, some, ◌≡◌, ◌≢◌, ◌⊎◌, inl, inr, refl, arith, if◌then◌else◌,
  Result, ok, err, Option-cases, Bool-cases,
}
use lockping_agent.Secure.Crypto.{Crypto}
use lockping_agent.Relay.Backoff.{Backoff, next, reset}
use lockping_agent.Relay.Conn.{Conn}
use lockping_agent.Relay.Handshake.{Client, handshake}
use lockping_agent.Relay.Serve.{Handler, serve}
use lockping_agent.Relay.Run.{
  Event, dialed, told, waited, Attempt, Running, record_event, Outcome, over, waiting, new_running,
  connected, dialed_session, session, wait, run,
}
use lockping_agent.Relay.Run.Protocol.{
  Phase, ready, made, up, down, is_wait, makes, advance, follow,
}

-- How a session leaves the client.
abbrev phase_of : Outcome → Phase
phase_of (over _) = down
phase_of waiting = up

-- The counter of the backoff is reset, or the last wait.
abbrev IsCounter : Backoff → Type 0
IsCounter b = (b.cur ≡ 0) ⊎ (is_wait b.cur ≡ true)

next-is_wait : (b : Backoff) → IsCounter b → is_wait (next b).cur ≡ true
unfolding next
next-is_wait b h = ground arith

module _ (c : Crypto) (cl : Client) where
  follow-snoc :
      (p : Phase) (es : List Event) (e : Event) {q r : Phase}
      → follow c cl p es ≡ some q
      → advance c cl q e ≡ some r
      → follow c cl p (es ++ e ∷ []) ≡ some r
  unfolding follow
  follow-snoc p [] e {q} {r} h k = ground (arith, h, k)
  follow-snoc p (e' ∷ es) e h k = elim (Option-cases (advance c cl p e')) [
    | inl bad ↦ absurd (ground (arith, bad, h))
    | inr (p', on') ↦ rw (on', follow) (follow-snoc p' es e (rw (on', follow) at h) k)
  ]

  advance-dialed :
      (conn : Conn) {b : Bool}
      → makes c cl (ok conn) ≡ b
      → advance c cl ready (dialed (ok conn)) ≡ (if b then some made else some down)
  unfolding advance
  advance-dialed conn h = rw h

  module _ {H : Type 0} (handle : Handler H) where
    -- In turn so far, and in the phase `p`.
    record Follows (p : Phase) (r : Running H) : Type 0 where
      in_turn : follow c cl ready r.trace ≡ some p
      counter : IsCounter r.backoff

    noted :
        (r : Running H) (e : Event) {p q : Phase}
        → Follows p r
        → advance c cl p e ≡ some q
        → Follows q (record_event r e)
    noted r e h k = record {
      in_turn = follow-snoc ready r.trace e h.in_turn k;
      counter = h.counter;
    }

    connected-Follows :
        (r : Running H) (conn : Conn)
        → Follows made r
        → Follows (phase_of (connected c cl handle r conn).1) (connected c cl handle r conn).0
    unfolding connected reset advance
    connected-Follows r conn h =
        let first = follow-snoc ready r.trace (told true) h.in_turn refl in
        elim (Option-cases (serve handle conn.reads r.handler conn).1) [
          | inl still ↦ rw (still, connected) (record { in_turn = first; counter = inl refl })
          | inr (e, lost) ↦
              rw (lost, connected)
                (record {
                  in_turn = follow-snoc ready (r.trace ++ told true ∷ []) (told false) first refl;
                  counter = inl refl;
                })
        ]

    session-Follows :
        (r : Running H) (x : Result Conn)
        → Follows ready r
        → Follows (phase_of (session c cl handle r x).1) (session c cl handle r x).0
    unfolding session dialed_session advance makes
    session-Follows r (err e) h = noted r (dialed (err e)) h refl
    session-Follows r (ok conn) h = elim (Option-cases (handshake c cl conn).1) [
      | inr (e, failed) ↦
          let there =
            noted r (dialed (ok conn)) h (advance-dialed conn {b = false} (rw (failed, makes))) in
          rw (failed, dialed_session) there
      | inl welcomed ↦
          let there =
            noted r (dialed (ok conn)) h (advance-dialed conn {b = true} (rw (welcomed, makes))) in
          rw (welcomed, dialed_session)
            (connected-Follows (record_event r (dialed (ok conn))) (handshake c cl conn).0 there)
    ]

    advance-waited :
        (b : Backoff) → IsCounter b → advance c cl down (waited (next b).cur) ≡ some ready
    unfolding advance
    advance-waited b h = rw (next-is_wait b h)

    wait-Follows : (r : Running H) → Follows down r → Follows ready (wait r)
    unfolding wait
    wait-Follows r h = record {
      in_turn =
          follow-snoc ready r.trace (waited (next r.backoff).cur) h.in_turn
            (advance-waited r.backoff h.counter);
      counter = inr (next-is_wait r.backoff h.counter);
    }

    -- In turn, with every connection reported, and none once the run has returned.
    IsInTurn : Running H × Bool → Type 0
    IsInTurn (r, returned) =
        (p : Phase) × (follow c cl ready r.trace ≡ some p) × (p ≢ made) × (returned ≡ true → p ≢ up)

    after_session :
        (r : Running H) (a : Attempt) (attempts : List Attempt) (outcome : Outcome)
        → (session c cl handle r a.dialed).1 ≡ outcome
        → Follows (phase_of outcome) (session c cl handle r a.dialed).0
        → ((r' : Running H) → Follows ready r' → IsInTurn (run c cl handle r' attempts))
        → IsInTurn (run c cl handle r (a ∷ attempts))
    unfolding run IsInTurn
    after_session r a attempts waiting is h rest =
        rw (is, run) (up, h.in_turn, (λ e. cc), λ no'. absurd (ground arith))
    after_session r a attempts (over e) is h rest = elim (Bool-cases a.cancelled) [
      | inl yes' ↦ rw (is, run) (rw yes' (down, h.in_turn, (λ e. cc), λ _ e. cc))
      | inr no' ↦
          let next' = wait-Follows (session c cl handle r a.dialed).0 h in
          elim (Bool-cases a.cancelled_waiting) [
            | inl yes' ↦ rw (is, run) (rw (no', yes') (ready, next'.in_turn, (λ e. cc), λ _ e. cc))
            | inr on' ↦
                rw (is, run) (rw (no', on') (rest (wait (session c cl handle r a.dialed).0) next'))
          ]
    ]

    run-IsInTurn :
        (r : Running H) (attempts : List Attempt)
        → Follows ready r
        → IsInTurn (run c cl handle r attempts)
    unfolding run IsInTurn
    run-IsInTurn r [] h = (ready, h.in_turn, (λ e. cc), λ _ e. cc)
    run-IsInTurn r (a ∷ attempts) h =
        after_session r a attempts (session c cl handle r a.dialed).1 refl
          (session-Follows r a.dialed h) (λ r' h'. run-IsInTurn r' attempts h')

    -- A run of a new client dials, reports and waits in turn. Every dial that makes a connection
    -- is followed at once by the report that it is connected, then, when the connection is lost, by
    -- the report that it is not; a dial that makes none is followed by no report; a wait of one
    -- second to thirty comes before the next dial. There is no other report, and a run that has
    -- returned does not leave a connection reported.
    pub run-follow :
        (h : H) (attempts : List Attempt)
        → (p : Phase) × (follow c cl ready (run c cl handle (new_running h) attempts).0.trace
            ≡ some p)
          × (p ≢ made)
          × ((run c cl handle (new_running h) attempts).1 ≡ true → p ≢ up)
    unfolding new_running follow IsInTurn
    run-follow h attempts =
        run-IsInTurn (new_running h) attempts (record { in_turn = refl; counter = inl refl })
