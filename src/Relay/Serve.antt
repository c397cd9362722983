-- ===== src/Relay/Serve.antt =====
-- `serve` of internal/relay/client.go.
pub mod Order
use lockping_agent.Prelude.{
  not, List, [], ◌∷◌, Option, none, some, Bytes, codes, bytes_eq, if◌then◌else◌, Result, ok, err,
}
use lockping_agent.Relay.Conn.{Message, empty_message, Conn, read_into, write}

-- `Handler` over its state: the sender, the payload, and the reply if there is one.
abbrev pub Handler : Type 0 → Type 0
Handler H = H → Bytes → Bytes → H × Option Bytes

abbrev pub envelope : Bytes → Bytes → Message
envelope to payload = record empty_message { typ = codes "envelope"; to = to; payload = payload }

module _ {H : Type 0} (handle : Handler H) where
  -- One frame: the handler's state, and what is to be sent.
  unfoldable pub answer : H → Message → H × Option Message
  answer h m =
      if not (bytes_eq m.typ (codes "envelope"))
      then (h, none)
      else let (h', reply) = handle h m.from m.payload in
        elim reply [ none ↦ (h', none) | some r ↦ (h', some (envelope m.from r)) ]

  -- The loop over the frames that arrive, each read into a new message. The last part is the
  -- error that ended it; `none` if it still waits.
  unfoldable pub serve : List (Result Bytes) → H → Conn → (H × Conn) × Option Bytes
  serve [] h conn = ((h, conn), none)
  serve (r ∷ rs) h conn = elim (read_into empty_message r) [
    | err e ↦ ((h, conn), some e)
    | ok m ↦
        let (h', out) = answer h m in
        elim out [
          | none ↦ serve rs h' conn
          | some reply ↦
              let (conn', failed) = write conn reply in
              elim failed [ some e ↦ ((h', conn'), some e) | none ↦ serve rs h' conn' ]
        ]
  ]
