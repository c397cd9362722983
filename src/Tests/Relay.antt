-- ===== src/Tests/Relay.antt =====
-- Delays, a handshake with a relay that welcomes the agent at once, frames, and a run.
use lockping_agent.Prelude.{
  List, Bool, true, false, some, if◌then◌else◌, Result, err, [], ◌∷◌, ◌++◌, none, ◌≡◌, ◌≢◌, refl,
  ◌⊎◌, Bytes, codes, ok, bytes_eq,
}
use lockping_agent.Json.Parse.{parse}
use lockping_agent.Json.Struct.{fill_value, names}
use lockping_agent.Secure.Auth.{prove_challenge}
use lockping_agent.Relay.Conn.{Message, Conn, read_into, read, write, empty_message}
use lockping_agent.Relay.Handshake.{
  Client, hello, proof, challenge, handshake, Welcomed, handshake_done,
}
use lockping_agent.Relay.Serve.{Handler, serve}
use lockping_agent.Relay.Serve.Order.{Reads, envelopes, handled, serve-handled}
use lockping_agent.Relay.Run.{Event, dialed, told, waited, Attempt, new_running, run}
use lockping_agent.Relay.Run.Protocol.{Phase, ready, made, up, follow}
use lockping_agent.Relay.Run.States.{run-follow}
use lockping_agent.Tests.Toy.{toy, agent_keys}

abbrev client : Client
client = record { url = codes "wss://relay"; id = codes "agent-1"; keys = agent_keys }

abbrev conn : Conn
conn = record { reads = ok (codes "{\"type\":\"welcome\"}") ∷ []; writes = []; sent = [] }

welcomed : (handshake toy client conn).1 ≡ none
unfolding handshake read read_into write hello parse fill_value names bytes_eq
welcomed = refl

handshake_done_example :
    (frame : Bytes) × (rest : List (Result Bytes)) × (conn.reads ≡ ok frame ∷ rest)
    × ((Welcomed empty_message frame
          × ((handshake toy client conn).0.sent ≡ [] ++ hello client ∷ []))
        ⊎ ((m : Message) × (mac : Bytes) × (frame' : Bytes) × (rest' : List (Result Bytes))
            × (read_into empty_message (ok frame) ≡ ok m)
            × (m.typ ≡ challenge)
            × (prove_challenge toy m.nonce m.relay_pub agent_keys ≡ ok mac)
            × ((handshake toy client conn).0.sent ≡ ([] ++ hello client ∷ []) ++ proof mac ∷ [])
            × (rest ≡ ok frame' ∷ rest')
            × Welcomed m frame'))
handshake_done_example = handshake_done toy client conn welcomed

-- A handler that counts, and answers every second message.
abbrev parrot : Handler Bool
parrot h from payload = if h then (false, some payload) else (true, none)

abbrev frame : Bytes
frame = codes "{\"type\":\"envelope\",\"from\":\"phone\",\"payload\":\"hi\"}"

abbrev frames : List (Result Bytes)
frames = ok frame ∷ ok (codes "{\"type\":\"presence\"}") ∷ ok frame ∷ []

abbrev from_phone : Message
from_phone = record empty_message {
  typ = codes "envelope";
  from = codes "phone";
  payload = codes "hi";
}

abbrev presence : Message
presence = record empty_message { typ = codes "presence" }

abbrev open_conn : Conn
open_conn = record { reads = []; writes = []; sent = [] }

frames_read : Reads parrot frames (from_phone ∷ presence ∷ from_phone ∷ [])
unfolding read_into parse fill_value names bytes_eq
frames_read = refl

-- A relay that welcomes the agent and goes away.
abbrev short_conn : Conn
short_conn = record {
  reads = ok (codes "{\"type\":\"welcome\"}") ∷ err (codes "EOF") ∷ [];
  writes = [];
  sent = [];
}

abbrev lost : Attempt
lost = record { dialed = ok short_conn; cancelled = false; cancelled_waiting = false }

abbrev refused : Attempt
refused = record {
  dialed = err (codes "connection refused");
  cancelled = false;
  cancelled_waiting = true;
}

abbrev run_trace : List Event
run_trace =
    dialed (ok short_conn)
    ∷ told true
    ∷ told false
    ∷ waited 1000000000
    ∷ dialed (err (codes "connection refused"))
    ∷ waited 2000000000
    ∷ []

run-follow_example :
    (p : Phase) × (follow toy client ready
        (run toy client parrot (new_running false) (lost ∷ refused ∷ [])).0.trace
      ≡ some p)
    × (p ≢ made)
    × ((run toy client parrot (new_running false) (lost ∷ refused ∷ [])).1 ≡ true → p ≢ up)
run-follow_example = run-follow toy client parrot false (lost ∷ refused ∷ [])

serve-handled_example :
    ((serve parrot frames false open_conn).1 ≡ none)
    × ((serve parrot frames false open_conn).0.0
        ≡ (handled parrot false (envelopes parrot (from_phone ∷ presence ∷ from_phone ∷ []))).0)
    × ((serve parrot frames false open_conn).0.1.sent
        ≡ []
          ++ (handled parrot false (envelopes parrot (from_phone ∷ presence ∷ from_phone ∷ []))).1)
serve-handled_example =
    serve-handled parrot frames (from_phone ∷ presence ∷ from_phone ∷ []) false open_conn
      frames_read refl
