-- ===== src/Relay/Handshake.antt =====
-- `handshake` and `prove` of internal/relay/client.go.
use lockping_agent.Prelude.{
  List, [], ◌∷◌, ◌++◌, sym, ◌∙◌, Result, Option, none, some, ◌≡◌, ◌⊎◌, inl, inr, arith, Bytes,
  codes, bytes_eq, bytes_eq_iff, if◌then◌else◌, ok, err, Option-cases, Result-cases, Bool-cases,
}
use lockping_agent.Secure.Crypto.{Crypto}
use lockping_agent.Secure.Keys.{Keys, encode_key}
use lockping_agent.Secure.Auth.{prove_challenge}
use lockping_agent.Relay.Conn.{
  Message, empty_message, Conn, read, write, write_done, read-sent, read_into, read_ok, write-reads,
}

-- The fields of `Client` that the handshake reads.
pub record Client : Type 0 where
  pub url : Bytes
  pub id : Bytes
  pub keys : Keys

abbrev pub challenge : Bytes
challenge = codes "challenge"

abbrev pub welcome : Bytes
welcome = codes "welcome"

unfoldable pub hello : Client → Message
hello cl = record empty_message {
  typ = codes "hello";
  id = cl.id;
  role = codes "agent";
  pub_key = encode_key cl.keys.pub_key;
}

abbrev pub proof : Bytes → Message
proof mac = record empty_message { typ = codes "prove"; mac = mac }

-- The last part is the error, if there is one.
unfoldable pub prove : Crypto → Client → Conn → Message → Conn × Option Bytes
prove c cl conn m = elim (prove_challenge c m.nonce m.relay_pub cl.keys) [
  | err e ↦ (conn, some e)
  | ok mac ↦
      let (conn', failed) = write conn (proof mac) in
      elim failed [ none ↦ (conn', none) | some e ↦ (conn', some (codes "prove: " ++ e)) ]
]

unfoldable pub greeted : Message → Option Bytes
greeted m =
    if bytes_eq m.typ welcome
    then none
    else some (codes "handshake refused: " ++ (m.typ ++ (codes "/" ++ m.code)))

-- The second answer is read into the challenge's message.
unfoldable pub after_challenge : Crypto → Client → Conn → Message → Conn × Option Bytes
unfolding greeted
after_challenge c cl conn m =
    let (conn', failed) = prove c cl conn m in
    elim failed [
      | some e ↦ (conn', some e)
      | none ↦
          let (conn'', answer) = read conn' m in
          elim answer [
            | err e ↦ (conn'', some (codes "welcome na challenge: " ++ e))
            | ok m' ↦ (conn'', greeted m')
          ]
    ]

unfoldable pub handshake : Crypto → Client → Conn → Conn × Option Bytes
unfolding greeted
handshake c cl conn =
    let (conn', failed) = write conn (hello cl) in
    elim failed [
      | some e ↦ (conn', some (codes "hello: " ++ e))
      | none ↦
          let (conn'', answer) = read conn' empty_message in
          elim answer [
            | err e ↦ (conn'', some (codes "welcome: " ++ e))
            | ok m ↦
                if bytes_eq m.typ challenge
                then after_challenge c cl conn'' m
                else (conn'', greeted m)
          ]
    ]

greeted_lem : (m : Message) → greeted m ≡ none → m.typ ≡ welcome
unfolding greeted
greeted_lem m h = ground (arith, bytes_eq_iff m.typ welcome)

prove_done :
    (c : Crypto) (cl : Client) (conn : Conn) (m : Message)
    → (prove c cl conn m).1 ≡ none
    → (mac : Bytes) × (prove_challenge c m.nonce m.relay_pub cl.keys ≡ ok mac)
      × ((prove c cl conn m).0.sent ≡ conn.sent ++ proof mac ∷ [])
      × ((prove c cl conn m).0.reads ≡ conn.reads)
unfolding prove
prove_done c cl conn m h = elim (Result-cases (prove_challenge c m.nonce m.relay_pub cl.keys)) [
  | inr (e, refused) ↦ ground arith
  | inl (mac, made) ↦ (
    mac,
    made,
    ground (arith, write_done conn (proof mac)),
    ground (arith, write-reads conn (proof mac)),
  )
]

-- How it ends behind the challenge `m`, by the frame that is read last.
abbrev pub Welcomed : Message → Bytes → Type 0
Welcomed old frame = (m : Message) × (read_into old (ok frame) ≡ ok m) × (m.typ ≡ welcome)

after_challenge_done :
    (c : Crypto) (cl : Client) (conn : Conn) (m : Message)
    → (after_challenge c cl conn m).1 ≡ none
    → (mac : Bytes) × (frame : Bytes) × (rest : List (Result Bytes)) × (prove_challenge c m.nonce
          m.relay_pub cl.keys
        ≡ ok mac)
      × ((after_challenge c cl conn m).0.sent ≡ conn.sent ++ proof mac ∷ [])
      × (conn.reads ≡ ok frame ∷ rest)
      × Welcomed m frame
unfolding after_challenge
after_challenge_done c cl conn m h = elim (Option-cases (prove c cl conn m).1) [
  | inr (e, failed) ↦ absurd (ground (arith, failed))
  | inl proved ↦
      let (mac, made, sent, left) = prove_done c cl conn m proved in
      let conn' = (prove c cl conn m).0 in
      elim (Result-cases (read conn' m).1) [
        | inr (e, failed) ↦ absurd (ground (arith, proved, failed))
        | inl (m', answered) ↦
            let (frame, rest, first, taken, _) = read_ok conn' m answered in
            (
              mac,
              frame,
              rest,
              made,
              ground (arith, proved, answered, sent, read-sent conn' m),
              sym left ∙ first,
              (m', taken, greeted_lem m' (ground (arith, proved, answered))),
            )
      ]
]

-- The handshake succeeds in two ways only. The first frame is a welcome, and only the hello is
-- sent; or the first frame is a challenge, the hello and the one proof for this challenge by the
-- agent's key are sent, in this order, and the second frame, read into the challenge's message,
-- is a welcome.
pub handshake_done :
    (c : Crypto) (cl : Client) (conn : Conn)
    → (handshake c cl conn).1 ≡ none
    → (frame : Bytes) × (rest : List (Result Bytes)) × (conn.reads ≡ ok frame ∷ rest)
      × ((Welcomed empty_message frame
            × ((handshake c cl conn).0.sent ≡ conn.sent ++ hello cl ∷ []))
          ⊎ ((m : Message) × (mac : Bytes) × (frame' : Bytes) × (rest' : List (Result Bytes))
              × (read_into empty_message (ok frame) ≡ ok m)
              × (m.typ ≡ challenge)
              × (prove_challenge c m.nonce m.relay_pub cl.keys ≡ ok mac)
              × ((handshake c cl conn).0.sent ≡ (conn.sent ++ hello cl ∷ []) ++ proof mac ∷ [])
              × (rest ≡ ok frame' ∷ rest')
              × Welcomed m frame'))
unfolding handshake
handshake_done c cl conn h = elim (Option-cases (write conn (hello cl)).1) [
  | inr (e, failed) ↦ absurd (ground (arith, failed))
  | inl written ↦
      let conn' = (write conn (hello cl)).0 in
      let sent = write_done conn (hello cl) written in
      let kept = read-sent conn' empty_message in
      elim (Result-cases (read conn' empty_message).1) [
        | inr (e, failed) ↦ absurd (ground (arith, written, failed))
        | inl (m, answered) ↦
            let (frame, rest, first, taken, left) = read_ok conn' empty_message answered in
            (
              frame,
              rest,
              sym (write-reads conn (hello cl)) ∙ first,
              elim (Bool-cases (bytes_eq m.typ challenge)) [
                | inr other ↦ inl (
                  (m, taken, greeted_lem m (ground (arith, written, answered, other))),
                  ground (arith, written, answered, other, sent, kept),
                )
                | inl challenged ↦
                    let (mac, frame', rest', made, proved, second, welcomed) =
                      after_challenge_done c cl (read conn' empty_message).0 m
                        (ground (arith, written, answered, challenged)) in
                    inr (
                      m,
                      mac,
                      frame',
                      rest',
                      taken,
                      (bytes_eq_iff m.typ challenge).0 challenged,
                      made,
                      ground (arith, written, answered, challenged, proved, sent, kept),
                      sym left ∙ second,
                      welcomed,
                    )
              ],
            )
      ]
]
