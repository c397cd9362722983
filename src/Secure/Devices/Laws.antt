-- ===== src/Secure/Devices/Laws.antt =====
-- What `Add` and `Remove` of internal/secure/devices.go mean for `Get`.
use lockping_agent.Prelude.{
  [], ◌++◌, Option, ◌⊎◌, inl, inr, refl, ap, Option-cases, none, some, ◌≡◌, ◌∙◌, arith, Bytes,
  codes, bytes_eq, bytes_eq_iff, bytes_eq_refl, if◌then◌else◌, ok, err,
}
use lockping_agent.Prelude.Int.{ℤ}
use lockping_agent.Prelude.Maps.{Map, lookup, insert, delete, lookup-insert, lookup-delete}
use lockping_agent.Secure.Keys.{decode_key}
use lockping_agent.Secure.Devices.{
  DeviceInfo, DeviceFile, holding, DeviceStore, Write, written, failed, add, remove, get,
}
use lockping_agent.Secure.DeviceFile.{marshal}
use lockping_agent.Quote.{quote}

abbrev pub paired : Bytes → Bytes → ℤ → DeviceInfo
paired pub_b64 name now = record { id = []; pub_key = pub_b64; name = name; paired_at = now }

pub devices-add :
    (s : DeviceStore) (id pub_b64 name : Bytes) (now : ℤ) (outcome : Write) (k : Bytes)
    → decode_key pub_b64 ≡ ok k
    → (add s id pub_b64 name now outcome).0.devices ≡ insert id (paired pub_b64 name now) s.devices
unfolding add
devices-add s id pub_b64 name now written k key = rw (key, add)
devices-add s id pub_b64 name now (failed e left) k key = rw (key, add)

-- Removing an unknown id removes nothing.
abbrev without : Bytes → Map DeviceInfo → Map DeviceInfo
without id m = elim (lookup id m) [ none ↦ m | some _ ↦ delete id m ]

devices-remove :
    (s : DeviceStore) (id : Bytes) (outcome : Write)
    → (remove s id outcome).0.devices ≡ without id s.devices
unfolding remove
devices-remove s id written = ground arith
devices-remove s id (failed e left) = ground arith

lookup-remove :
    (s : DeviceStore) (id other : Bytes)
    → lookup other (without id s.devices)
      ≡ (if bytes_eq id other then none else lookup other s.devices)
lookup-remove s id other = ground (arith, lookup-delete id other s.devices, bytes_eq_iff id other)

-- A device whose key decodes is found under its id with this key from then on, whether or not the
-- file could be written, and every other id is found as before.
pub get-add :
    (s : DeviceStore) (id pub_b64 name : Bytes) (now : ℤ) (outcome : Write) (k other : Bytes)
    → decode_key pub_b64 ≡ ok k
    → get (add s id pub_b64 name now outcome).0 other
      ≡ (if bytes_eq id other then some k else get s other)
unfolding get
get-add s id pub_b64 name now outcome k other key =
    rw (devices-add s id pub_b64 name now outcome k key, get, lookup-insert) (ground (arith, key))

-- A key that does not decode changes nothing.
pub add_bad_key :
    (s : DeviceStore) (id pub_b64 name : Bytes) (now : ℤ) (outcome : Write) (e : Bytes)
    → decode_key pub_b64 ≡ err e
    → add s id pub_b64 name now outcome ≡ (s, some e)
unfolding add
add_bad_key s id pub_b64 name now outcome e key = rw (key, add)

-- The write of this map was done, or failed; with the error of `remove` and the file behind it.
abbrev pub Persisted : Map DeviceInfo → Write → DeviceFile → Option Bytes → Type 0
Persisted m outcome file error =
    ((outcome ≡ written) × (file ≡ holding (marshal m)) × (error ≡ none))
    ⊎ ((e : Bytes) × (outcome ≡ failed e file)
        × (error ≡ some (codes "secure: write devices: " ++ e)))

remove_known :
    (s : DeviceStore) (id : Bytes) (outcome : Write) {info : DeviceInfo}
    → lookup id s.devices ≡ some info
    → Persisted (delete id s.devices) outcome (remove s id outcome).0.file (remove s id outcome).1
unfolding remove
remove_known s id written known = inl (refl, ground (arith, known), ground (arith, known))
remove_known s id (failed e left) known =
    inr (e, ap (failed e) (ground (arith, known)), ground (arith, known))

remove_unknown :
    (s : DeviceStore) (id : Bytes) (outcome : Write)
    → lookup id s.devices ≡ none
    → remove s id outcome ≡ (s, some (codes "secure: onbekend device " ++ quote id))
unfolding remove
remove_unknown s id outcome unknown = ground (arith, unknown)

-- An unknown id changes nothing, the file included, and is reported with the id in quotes. The write
-- of the map without a known id gives the file and the error, if it fails. Whether or not it fails,
-- the id is not found from then on, and every other is found as before.
pub get-remove :
    (s : DeviceStore) (id : Bytes) (outcome : Write) (other : Bytes)
    → (get (remove s id outcome).0 other ≡ (if bytes_eq id other then none else get s other))
      × (((lookup id s.devices ≡ none)
            × (remove s id outcome ≡ (s, some (codes "secure: onbekend device " ++ quote id))))
          ⊎ ((info : DeviceInfo) × (lookup id s.devices ≡ some info)
              × Persisted
                  (delete id s.devices)
                  outcome
                  (remove s id outcome).0.file
                  (remove s id outcome).1))
unfolding get
get-remove s id outcome other = (
  rw (devices-remove s id outcome, get, lookup-remove s id other) (ground arith),
  elim (Option-cases (lookup id s.devices)) [
    | inl unknown ↦ inl (unknown, remove_unknown s id outcome unknown)
    | inr (info, known) ↦ inr (info, known, remove_known s id outcome known)
  ],
)

pub add_written :
    (s : DeviceStore) (id pub_b64 name : Bytes) (now : ℤ) (outcome : Write) (k : Bytes)
    → decode_key pub_b64 ≡ ok k
    → outcome ≡ written
    → (add s id pub_b64 name now outcome).1 ≡ none
unfolding add
add_written s id pub_b64 name now written k key h = rw (key, add)
add_written s id pub_b64 name now (failed e left) k key h = cc

pub add_failed :
    (s : DeviceStore) (id pub_b64 name : Bytes) (now : ℤ) (outcome : Write) (k e : Bytes)
    (left : DeviceFile)
    → decode_key pub_b64 ≡ ok k
    → outcome ≡ failed e left
    → (text : Bytes) × ((add s id pub_b64 name now outcome).1 ≡ some text)
unfolding add
add_failed s id pub_b64 name now written k e left key h = cc
add_failed s id pub_b64 name now (failed e' left') k e left key h =
    (codes "secure: write devices: " ++ e', rw (key, add))

-- The added device is found under its id.
pub get-add_self :
    (s : DeviceStore) (id pub_b64 name : Bytes) (now : ℤ) (outcome : Write) (k : Bytes)
    → decode_key pub_b64 ≡ ok k
    → get (add s id pub_b64 name now outcome).0 id ≡ some k
get-add_self s id pub_b64 name now outcome k key =
    get-add s id pub_b64 name now outcome k id key ∙ rw (bytes_eq_refl id)
