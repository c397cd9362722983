-- ===== src/Relay/Serve/Order.antt =====
-- What `serve` of internal/relay/client.go sends, and in which order.
use lockping_agent.Prelude.{
  List, [], ◌∷◌, ◌++◌, map, none, some, ◌≡◌, refl, ap, sym, ◌∙◌, arith, append_assoc, append-nil,
  Bytes, codes, bytes_eq, bytes_eq_iff, Result, ok, Option-cases, Result-cases, Bool-cases, inl,
  inr, if◌then◌else◌,
}
use lockping_agent.Relay.Conn.{
  Message, empty_message, Conn, read_into, write, write_done, write_open,
}
use lockping_agent.Relay.Serve.{Handler, envelope, answer, serve}

map_ok_inj : (ms ms' : List Message) → map ok ms ≡ map ok ms' → ms ≡ ms'
map_ok_inj [] [] h = refl
map_ok_inj [] (m ∷ ms') h = cc
map_ok_inj (m ∷ ms) [] h = cc
map_ok_inj (m ∷ ms) (m' ∷ ms') h = let rest = map_ok_inj ms ms' (cc) in cc

module _ {H : Type 0} (handle : Handler H) where
  -- The messages to a handler among the frames.
  unfoldable pub envelopes : List Message → List Message
  envelopes [] = []
  envelopes (m ∷ ms) = if bytes_eq m.typ (codes "envelope") then m ∷ envelopes ms else envelopes ms

  -- The handler over these: its state in the end, and its replies, each to the sender.
  unfoldable pub handled : H → List Message → H × List Message
  handled h [] = (h, [])
  handled h (m ∷ ms) =
      let (h', reply) = handle h m.from m.payload in
      let (h'', replies) = handled h' ms in
      elim reply [ none ↦ (h'', replies) | some r ↦ (h'', envelope m.from r ∷ replies) ]

  envelopes_one : (m : Message) → m.typ ≡ codes "envelope" → envelopes (m ∷ []) ≡ m ∷ []
  unfolding envelopes
  envelopes_one m typ = ground (arith, bytes_eq_iff m.typ (codes "envelope"))

  replied :
      (h h' : H) (m : Message) (reply : Bytes)
      → handle h m.from m.payload ≡ (h', some reply)
      → handled h (m ∷ []) ≡ (h', envelope m.from reply ∷ [])
  unfolding handled
  replied h h' m reply answer = ground (arith, answer)

  -- One envelope with a reply.
  pub handled_one :
      (h h' : H) (m : Message) (reply : Bytes)
      → m.typ ≡ codes "envelope"
      → handle h m.from m.payload ≡ (h', some reply)
      → handled h (envelopes (m ∷ [])) ≡ (h', envelope m.from reply ∷ [])
  handled_one h h' m reply typ answer =
      ap (handled h) (envelopes_one m typ) ∙ replied h h' m reply answer

  -- The frames are messages, all of them.
  abbrev pub Reads : List (Result Bytes) → List Message → Type 0
  Reads rs ms = map (read_into empty_message) rs ≡ map ok ms

  -- The answers of the loop, frame by frame.
  unfoldable pub answered : H → List Message → H × List Message
  answered h [] = (h, [])
  answered h (m ∷ ms) =
      let (h', out) = answer handle h m in
      let (h'', replies) = answered h' ms in
      elim out [ none ↦ (h'', replies) | some r ↦ (h'', r ∷ replies) ]

  answered_lem : (h : H) (ms : List Message) → answered h ms ≡ handled h (envelopes ms)
  unfolding answered handled envelopes answer
  answered_lem h [] = refl
  answered_lem h (m ∷ ms) = elim (Bool-cases (bytes_eq m.typ (codes "envelope"))) [
    | inl is ↦ ground (arith, answered_lem (handle h m.from m.payload).0 ms)
    | inr other ↦ ground (arith, answered_lem h ms)
  ]

  -- A loop that still waits has read every frame.
  serve-answered :
      (rs : List (Result Bytes)) (h : H) (conn : Conn)
      → (serve handle rs h conn).1 ≡ none
      → (ms : List Message) × Reads rs ms
        × ((serve handle rs h conn).0.0 ≡ (answered h ms).0)
        × ((serve handle rs h conn).0.1.sent ≡ conn.sent ++ (answered h ms).1)
  unfolding serve answered
  serve-answered [] h conn still = ([], refl, refl, sym (append-nil conn.sent))
  serve-answered (r ∷ rs) h conn still = elim (Result-cases (read_into empty_message r)) [
    | inr (e, failed) ↦ ground arith
    | inl (m, read) ↦ elim (Option-cases (answer handle h m).1) [
      | inl quiet ↦
          let (ms, reads, state, sent) =
            serve-answered rs (answer handle h m).0 conn (ground arith) in
          (
            m ∷ ms,
            rw read (ap (λ l. ok m ∷ l) reads),
            rw (read, serve) (rw (quiet, answered) state),
            rw (read, serve) (rw (quiet, answered) sent),
          )
      | inr (reply, out) ↦ elim (Option-cases (write conn reply).1) [
        | inr (e, failed) ↦ ground arith
        | inl done ↦
            let (ms, reads, state, sent) =
              serve-answered rs (answer handle h m).0 (write conn reply).0 (ground arith) in
            (
              m ∷ ms,
              rw read (ap (λ l. ok m ∷ l) reads),
              rw (read, serve) (rw (out, answered) (rw done state)),
              rw (read, serve)
                  (rw (out, answered)
                    (rw done (
                      sent
                      ∙ ap (λ l. l ++ (answered (answer handle h m).0 ms).1)
                          (write_done conn reply done)
                      ∙ append_assoc conn.sent (reply ∷ [])
                          (answered (answer handle h m).0 ms).1))),
            )
      ]
    ]
  ]

  -- A loop that still waits has read every frame as a message, and has sent exactly the replies
  -- of the handler to the envelopes among them, one after the other, each to its sender; frames
  -- of other types were passed over.
  waiting-handled :
      (rs : List (Result Bytes)) (h : H) (conn : Conn)
      → (serve handle rs h conn).1 ≡ none
      → (ms : List Message) × Reads rs ms
        × ((serve handle rs h conn).0.0 ≡ (handled h (envelopes ms)).0)
        × ((serve handle rs h conn).0.1.sent ≡ conn.sent ++ (handled h (envelopes ms)).1)
  waiting-handled rs h conn still =
      let (ms, reads, state, sent) = serve-answered rs h conn still in
      let same = answered_lem h ms in
      (ms, reads, state ∙ ap (λ x. x.0) same, sent ∙ ap (λ x. conn.sent ++ x.1) same)

  answer_step :
      (r : Result Bytes) (rs : List (Result Bytes)) (h : H) (conn : Conn) (m : Message)
      → read_into empty_message r ≡ ok m
      → conn.writes ≡ []
      → (conn' : Conn) × (conn'.writes ≡ [])
        × (serve handle (r ∷ rs) h conn ≡ serve handle rs (answer handle h m).0 conn')
  unfolding serve
  answer_step r rs h conn m read free = elim (Option-cases (answer handle h m).1) [
    | inl quiet ↦ (conn, free, rw (read, serve) (rw quiet refl))
    | inr (reply, out) ↦
        let (done, free') = write_open conn reply free in
        ((write conn reply).0, free', rw (read, serve) (rw out (rw done refl)))
  ]

  -- The loop ends by an error only: while every frame is a message and no write fails, it goes on.
  serve-Reads :
      (rs : List (Result Bytes)) (ms : List Message) (h : H) (conn : Conn)
      → Reads rs ms
      → conn.writes ≡ []
      → (serve handle rs h conn).1 ≡ none
  unfolding serve
  serve-Reads [] ms h conn reads free = refl
  serve-Reads (r ∷ rs) [] h conn reads free = cc
  serve-Reads (r ∷ rs) (m ∷ ms) h conn reads free =
      let (conn', free', same) = answer_step r rs h conn m (cc) free in
      ap (λ x. x.1) same ∙ serve-Reads rs ms (answer handle h m).0 conn' (cc) free'

  -- While every frame is a message and no write fails, the loop goes on, and has sent exactly the
  -- replies of the handler to the envelopes among the frames, one after the other, each to its
  -- sender; frames of other types were passed over.
  pub serve-handled :
      (rs : List (Result Bytes)) (ms : List Message) (h : H) (conn : Conn)
      → Reads rs ms
      → conn.writes ≡ []
      → ((serve handle rs h conn).1 ≡ none)
        × ((serve handle rs h conn).0.0 ≡ (handled h (envelopes ms)).0)
        × ((serve handle rs h conn).0.1.sent ≡ conn.sent ++ (handled h (envelopes ms)).1)
  serve-handled rs ms h conn reads free =
      let still = serve-Reads rs ms h conn reads free in
      let (ms', reads', state, sent) = waiting-handled rs h conn still in
      let same = map_ok_inj ms' ms (sym reads' ∙ reads) in
      (
        still,
        state ∙ ap (λ l. (handled h (envelopes l)).0) same,
        sent ∙ ap (λ l. conn.sent ++ (handled h (envelopes l)).1) same,
      )
