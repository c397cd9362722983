-- ===== src/Secure/Devices.antt =====
-- internal/secure/devices.go: the agent's allowlist, over the text of its file. The mutex makes each
-- method one step.
pub mod Laws
pub mod Stored
pub mod Listed
use lockping_agent.Prelude.{
  ℕ, zero, suc, Bool, true, false, List, [], ◌∷◌, ◌++◌, Option, none, some, Bytes, codes, map,
  length, if◌then◌else◌, Result, ok, err,
}
use lockping_agent.Prelude.Int.{ℤ, ltb_ℤ}
use lockping_agent.Prelude.Maps.{Map, lookup, insert, delete}
pub use lockping_agent.Secure.DeviceFile.{DeviceInfo}
use lockping_agent.Secure.DeviceFile.{empty_info, marshal, unmarshal, unmarshal_legacy}
use lockping_agent.Quote.{quote}
use lockping_agent.Secure.Keys.{decode_key}

-- What the file is: not there yet, not readable, or a text.
pub data DeviceFile : Type 0 where
  missing : DeviceFile
  unreadable : Bytes → DeviceFile
  holding : Bytes → DeviceFile

pub record DeviceStore : Type 0 where
  pub path : Bytes
  pub devices : Map DeviceInfo
  pub file : DeviceFile

-- The outcome of `os.WriteFile`: done, or an error and what it left of the file.
pub data Write : Type 0 where
  written : Write
  failed : Bytes → DeviceFile → Write

-- The entries of the old format, put into the map. (What the failed reading in the present format
-- left there has the same keys, and is overwritten.)
unfoldable pub migrated : Map Bytes → Map DeviceInfo
migrated [] = []
migrated ((id, key) ∷ m) = insert id (record empty_info { pub_key = key }) (migrated m)

unfoldable pub load_devices : Bytes → DeviceFile → Result DeviceStore
unfolding migrated
load_devices path missing = ok (record { path = path; devices = []; file = missing })
load_devices path (unreadable e) = err (codes "secure: read devices: " ++ e)
load_devices path (holding s) = elim (unmarshal s) [
  | some m ↦ ok (record { path = path; devices = m; file = holding s })
  | none ↦ elim (unmarshal_legacy s) [
    | some old ↦ ok (record { path = path; devices = migrated old; file = holding s })
    | none ↦ err (codes "secure: devices file " ++ (path ++ codes " is corrupt"))
  ]
]

-- The error, if there is one. (A time is refused by `MarshalIndent` only outside the years 0 to 9999,
-- which `time.Now` does not give.)
persist_locked : DeviceStore → Write → DeviceStore × Option Bytes
persist_locked s written = (record s { file = holding (marshal s.devices) }, none)
persist_locked s (failed e left) =
    (record s { file = left }, some (codes "secure: write devices: " ++ e))

-- `now` is the reading of `time.Now`.
unfoldable pub add : DeviceStore → Bytes → Bytes → Bytes → ℤ → Write → DeviceStore × Option Bytes
unfolding persist_locked
add s client_id pub_b64 name now outcome = elim (decode_key pub_b64) [
  | err e ↦ (s, some e)
  | ok _ ↦
      let info : DeviceInfo = record { id = []; pub_key = pub_b64; name = name; paired_at = now } in
      persist_locked (record s { devices = insert client_id info s.devices }) outcome
]

unfoldable pub remove : DeviceStore → Bytes → Write → DeviceStore × Option Bytes
unfolding persist_locked
remove s client_id outcome = elim (lookup client_id s.devices) [
  | none ↦ (s, some (codes "secure: onbekend device " ++ quote client_id))
  | some _ ↦ persist_locked (record s { devices = delete client_id s.devices }) outcome
]

-- The public key of a paired device.
unfoldable pub get : DeviceStore → Bytes → Option Bytes
get s client_id = elim (lookup client_id s.devices) [
  | none ↦ none
  | some info ↦ elim (decode_key info.pub_key) [ err _ ↦ none | ok k ↦ some k ]
]

-- `PairedAt.Before`
unfoldable pub before : DeviceInfo → DeviceInfo → Bool
before d d' = ltb_ℤ d.paired_at d'.paired_at

unfoldable pub sort_in : DeviceInfo → List DeviceInfo → List DeviceInfo
sort_in d [] = d ∷ []
sort_in d (d' ∷ ds) = if before d' d then d' ∷ sort_in d ds else d ∷ d' ∷ ds

unfoldable pub listed : Map DeviceInfo → List DeviceInfo
listed [] = []
listed ((id, info) ∷ m) = sort_in (record info { id = id }) (listed m)

-- All devices, the oldest first.
unfoldable pub list : DeviceStore → List DeviceInfo
unfolding listed
list s = listed s.devices

unfoldable pub count : DeviceStore → ℕ
count s = length s.devices
