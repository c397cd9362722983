-- ===== src/Relay/Conn.antt =====
-- Frames exchanged with the relay (`message` of internal/relay/client.go), and a connection as the
-- client meets it: the frames that it will read and the outcomes of its writes. `wsjson.Read`
-- unmarshals a text frame into the given message, so a field that the frame lacks keeps its value.
use lockping_agent.Prelude.{
  Bool, true, List, [], ◌∷◌, ◌++◌, Option, none, some, ◌≡◌, refl, Bytes, codes, if◌then◌else◌,
  Result, ok, err,
}
use lockping_agent.Json.{Value}
use lockping_agent.Json.Parse.{parse}
use lockping_agent.Json.Struct.{names, to_string, fill_value}

pub record Message : Type 0 where
  pub typ : Bytes
  pub id : Bytes
  pub role : Bytes
  pub pub_key : Bytes
  pub to : Bytes
  pub from : Bytes
  pub payload : Bytes
  pub code : Bytes
  pub nonce : Bytes
  pub relay_pub : Bytes
  pub mac : Bytes

abbrev pub empty_message : Message
empty_message = record {
  typ = [];
  id = [];
  role = [];
  pub_key = [];
  to = [];
  from = [];
  payload = [];
  code = [];
  nonce = [];
  relay_pub = [];
  mac = [];
}

set_field : Bytes → Value → Message → Message × Bool
set_field key v m =
    if names (codes "type") key
    then (let (x, fine) = to_string m.typ v in (record m { typ = x }, fine))
    else if names (codes "id") key
    then (let (x, fine) = to_string m.id v in (record m { id = x }, fine))
    else if names (codes "role") key
    then (let (x, fine) = to_string m.role v in (record m { role = x }, fine))
    else if names (codes "pub") key
    then (let (x, fine) = to_string m.pub_key v in (record m { pub_key = x }, fine))
    else if names (codes "to") key
    then (let (x, fine) = to_string m.to v in (record m { to = x }, fine))
    else if names (codes "from") key
    then (let (x, fine) = to_string m.from v in (record m { from = x }, fine))
    else if names (codes "payload") key
    then (let (x, fine) = to_string m.payload v in (record m { payload = x }, fine))
    else if names (codes "code") key
    then (let (x, fine) = to_string m.code v in (record m { code = x }, fine))
    else if names (codes "nonce") key
    then (let (x, fine) = to_string m.nonce v in (record m { nonce = x }, fine))
    else if names (codes "relay_pub") key
    then (let (x, fine) = to_string m.relay_pub v in (record m { relay_pub = x }, fine))
    else if names (codes "mac") key
    then (let (x, fine) = to_string m.mac v in (record m { mac = x }, fine))
    else (m, true)

abbrev bad_frame : Bytes
bad_frame = codes "failed to unmarshal JSON"

-- A text frame, or the connection's error, read into `old`.
unfoldable pub read_into : Message → Result Bytes → Result Message
unfolding set_field
read_into old (err e) = err e
read_into old (ok frame) = elim (parse frame) [
  | none ↦ err bad_frame
  | some v ↦ let (m, fine) = fill_value set_field v old in if fine then ok m else err bad_frame
]

-- What is still to be read, the outcomes of the writes to come (an error, or done; done once the
-- list is used up), and what was written.
pub record Conn : Type 0 where
  pub reads : List (Result Bytes)
  pub writes : List (Option Bytes)
  pub sent : List Message

abbrev no_frame : Bytes
no_frame = codes "context deadline exceeded"

pop_read : List (Result Bytes) → Conn → Message → Conn × Result Message
pop_read [] c old = (c, err no_frame)
pop_read (r ∷ rest) c old = (record c { reads = rest }, read_into old r)

unfoldable pub read : Conn → Message → Conn × Result Message
unfolding pop_read
read c old = pop_read c.reads c old

pop_write : List (Option Bytes) → Conn → Message → Conn × Option Bytes
pop_write [] c m = (record c { sent = c.sent ++ m ∷ [] }, none)
pop_write (none ∷ rest) c m = (record c { writes = rest; sent = c.sent ++ m ∷ [] }, none)
pop_write (some e ∷ rest) c m = (record c { writes = rest }, some e)

unfoldable pub write : Conn → Message → Conn × Option Bytes
unfolding pop_write
write c m = pop_write c.writes c m

pop_write_done :
    (ws : List (Option Bytes)) (c : Conn) (m : Message)
    → (pop_write ws c m).1 ≡ none
    → (pop_write ws c m).0.sent ≡ c.sent ++ m ∷ []
unfolding pop_write
pop_write_done [] c m h = refl
pop_write_done (none ∷ ws) c m h = refl
pop_write_done (some e ∷ ws) c m h = cc

-- A write that gives no error has sent the message.
pub write_done :
    (c : Conn) (m : Message) → (write c m).1 ≡ none → (write c m).0.sent ≡ c.sent ++ m ∷ []
unfolding write
write_done c m h = pop_write_done c.writes c m h

pop_read-sent :
    (rs : List (Result Bytes)) (c : Conn) (old : Message) → (pop_read rs c old).0.sent ≡ c.sent
unfolding pop_read
pop_read-sent [] c old = refl
pop_read-sent (r ∷ rs) c old = refl

-- Reading sends nothing.
pub read-sent : (c : Conn) (old : Message) → (read c old).0.sent ≡ c.sent
unfolding read
read-sent c old = pop_read-sent c.reads c old

pop_write_open :
    (ws : List (Option Bytes)) (c : Conn) (m : Message)
    → ws ≡ []
    → c.writes ≡ []
    → ((pop_write ws c m).1 ≡ none) × ((pop_write ws c m).0.writes ≡ [])
unfolding pop_write
pop_write_open [] c m h k = (refl, k)
pop_write_open (w ∷ ws) c m h k = cc

-- As long as writes do not fail, a message is sent.
pub write_open :
    (c : Conn) (m : Message) → c.writes ≡ [] → ((write c m).1 ≡ none) × ((write c m).0.writes ≡ [])
unfolding write
write_open c m h = pop_write_open c.writes c m h h

pop_read_ok :
    (rs : List (Result Bytes)) (c : Conn) (old : Message) {m : Message}
    → (pop_read rs c old).1 ≡ ok m
    → (frame : Bytes) × (rest : List (Result Bytes)) × (rs ≡ ok frame ∷ rest)
      × (read_into old (ok frame) ≡ ok m)
      × ((pop_read rs c old).0.reads ≡ rest)
unfolding pop_read read_into
pop_read_ok [] c old h = cc
pop_read_ok (err e ∷ rest) c old h = cc
pop_read_ok (ok frame ∷ rest) c old h = (frame, rest, refl, h, refl)

-- A message that is read is the first frame, read into the given one.
pub read_ok :
    (c : Conn) (old : Message) {m : Message}
    → (read c old).1 ≡ ok m
    → (frame : Bytes) × (rest : List (Result Bytes)) × (c.reads ≡ ok frame ∷ rest)
      × (read_into old (ok frame) ≡ ok m)
      × ((read c old).0.reads ≡ rest)
unfolding read
read_ok c old h = pop_read_ok c.reads c old h

pop_write-reads :
    (ws : List (Option Bytes)) (c : Conn) (m : Message) → (pop_write ws c m).0.reads ≡ c.reads
unfolding pop_write
pop_write-reads [] c m = refl
pop_write-reads (none ∷ ws) c m = refl
pop_write-reads (some e ∷ ws) c m = refl

-- Writing reads nothing.
pub write-reads : (c : Conn) (m : Message) → (write c m).0.reads ≡ c.reads
unfolding write
write-reads c m = pop_write-reads c.writes c m
