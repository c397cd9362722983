-- ===== src/Wire.antt =====
-- internal/wire/wire.go: the message that travels inside a relay envelope, and its kinds.
pub mod Codec
use lockping_agent.Prelude.{Bool, [], Option, none, some, Bytes, codes}
use lockping_agent.Prelude.Int.{ℤ, pos}

abbrev pub kind_status_request : Bytes
kind_status_request = codes "status_request"

abbrev pub kind_status : Bytes
kind_status = codes "status"

abbrev pub kind_lock : Bytes
kind_lock = codes "lock"

abbrev pub kind_lock_result : Bytes
kind_lock_result = codes "lock_result"

abbrev pub kind_pair_request : Bytes
kind_pair_request = codes "pair_request"

abbrev pub kind_pair_accept : Bytes
kind_pair_accept = codes "pair_accept"

-- The `*bool` fields are options; `ts` is in seconds.
pub record Payload : Type 0 where
  pub kind : Bytes
  pub nonce : Bytes
  pub ts : ℤ
  pub locked : Option Bool
  pub machine : Bytes
  pub os : Bytes
  pub ok : Option Bool
  pub error : Bytes
  pub pub_key : Bytes
  pub mac : Bytes

-- `Payload{}`
abbrev pub empty_payload : Payload
empty_payload = record {
  kind = [];
  nonce = [];
  ts = pos 0;
  locked = none;
  machine = [];
  os = [];
  ok = none;
  error = [];
  pub_key = [];
  mac = [];
}

-- `Bool`
abbrev pub bool_ref : Bool → Option Bool
bool_ref v = some v
