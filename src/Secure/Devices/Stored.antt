-- ===== src/Secure/Devices/Stored.antt =====
-- The file of the allowlist, across a restart of the agent.
use lockping_agent.Prelude.{none, some, [], ◌∷◌, ◌≡◌, refl, arith, Bytes, ok, err}
use lockping_agent.Secure.DeviceFile.{empty_info, marshal, unmarshal, unmarshal_legacy}
use mathlib.Core.Option
use lockping_agent.Prelude.Int.{ℤ}
use lockping_agent.Prelude.Maps.{Map, lookup, lookup-insert}
use lockping_agent.Secure.Keys.{decode_key}
use lockping_agent.Secure.Devices.{
  DeviceInfo, DeviceStore, Write, holding, written, failed, migrated, add, remove, get,
  load_devices,
}

-- What `add` and `remove` report as done is in the file, as text.
pub file-add :
    (s : DeviceStore) (id pub_b64 name : Bytes) (now : ℤ) (outcome : Write)
    → (add s id pub_b64 name now outcome).1 ≡ none
    → (add s id pub_b64 name now outcome).0.file
      ≡ holding (marshal (add s id pub_b64 name now outcome).0.devices)
unfolding add
file-add s id pub_b64 name now written h = ground arith
file-add s id pub_b64 name now (failed e left) h = ground arith

pub file-remove :
    (s : DeviceStore) (id : Bytes) (outcome : Write)
    → (remove s id outcome).1 ≡ none
    → (remove s id outcome).0.file ≡ holding (marshal (remove s id outcome).0.devices)
unfolding remove
file-remove s id written h = ground arith
file-remove s id (failed e left) h = ground arith

-- The text of a map reads back as the same devices.
abbrev pub ReadsBack : Map DeviceInfo → Map DeviceInfo → Type 0
ReadsBack m m' = (unmarshal (marshal m) ≡ some m') × ((id : Bytes) → lookup id m' ≡ lookup id m)

pub load_devices-marshal :
    (path : Bytes) (m m' : Map DeviceInfo)
    → unmarshal (marshal m) ≡ some m'
    → load_devices path (holding (marshal m))
      ≡ ok (record { path = path; devices = m'; file = holding (marshal m) })
unfolding load_devices
load_devices-marshal path m m' h = rw (h, load_devices) refl

pub get_same :
    (s s' : DeviceStore) (id : Bytes)
    → lookup id s'.devices ≡ lookup id s.devices
    → get s' id ≡ get s id
unfolding get
get_same s s' id h = rw (h, get) refl

-- An entry of the old format, under its key alone.
abbrev old_entry : Bytes → DeviceInfo
old_entry key = record empty_info { pub_key = key }

lookup-migrated :
    (id : Bytes) (m : Map Bytes) → lookup id (migrated m) ≡ Option.map old_entry (lookup id m)
unfolding lookup migrated
lookup-migrated id [] = refl
lookup-migrated id ((j, key) ∷ m) = rw (lookup-insert, lookup-migrated id m) (ground (arith))

-- A file of the old format keeps every device: each id is found with the key that the file gives.
pub get-load_devices_legacy :
    (path text : Bytes) {m : Map Bytes} (id : Bytes)
    → unmarshal text ≡ none
    → unmarshal_legacy text ≡ some m
    → (s : DeviceStore) × (load_devices path (holding text) ≡ ok s)
      × (get s id ≡ (elim (lookup id m) [
        | none ↦ none
        | some key ↦ elim (decode_key key) [ err _ ↦ none | ok k ↦ some k ]
      ]))
unfolding load_devices get
get-load_devices_legacy path text {m} id neither old = (
  record { path = path; devices = migrated m; file = holding text },
  rw (neither, load_devices) (rw old refl),
  ground (arith, lookup-migrated id m),
)
