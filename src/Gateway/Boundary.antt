-- ===== src/Gateway/Boundary.antt =====
-- Deny by default: what a message must be to move the session or the allowlist, or to be answered.
use lockping_agent.Prelude.{
  true, none, some, ◌≡◌, ◌⊎◌, inl, inr, arith, Bytes, Option-cases, Bool-cases,
}
use lockping_agent.Wire.{Payload, kind_lock}
use lockping_agent.Wire.Codec
use lockping_agent.Session.{Controller}
use lockping_agent.Core.Handle.{check_freshness}
use lockping_agent.Core.Effects.{handle_session}
use lockping_agent.Secure.Crypto.{Crypto}
use lockping_agent.Secure.Crypt.{is_sealed, open_sealed}
use lockping_agent.Secure.Devices
use lockping_agent.Secure.Devices.{DeviceStore, DeviceInfo}
use lockping_agent.Gateway.Pair.{Requested, pair_cases, admit-get}
use lockping_agent.Gateway.{Gateway, Outside, handle, handle_sealed}

module _ (c : Crypto) {S : Type 0} (sess : Controller S) where
  -- A lock command that a paired device sealed for this agent, and that the core lets through.
  pub record Commanded (g : Gateway) (from payload : Bytes) (o : Outside) : Type 0 where
    pub key : Bytes
    pub plain : Bytes
    pub command : Payload
    pub sealed : is_sealed payload ≡ true
    pub paired : Devices.get g.devices from ≡ some key
    pub opened : open_sealed c payload key g.keys ≡ some plain
    pub decoded : Codec.decode plain ≡ some command
    pub is_lock : command.kind ≡ kind_lock
    pub fresh : (check_freshness g.core o.now o.now' command).1 ≡ none

  sealed_session :
      (g : Gateway) (s : S) (from payload : Bytes) (o : Outside)
      → is_sealed payload ≡ true
      → ((handle_sealed c sess g s from payload o).0.1 ≡ s)
        ⊎ (Commanded g from payload o
            × ((handle_sealed c sess g s from payload o).0.1 ≡ (sess.lock s).0))
  unfolding handle_sealed
  sealed_session g s from payload o sealed = elim (Option-cases (Devices.get g.devices from)) [
    | inl unpaired ↦ inl (ground arith)
    | inr (key, paired) ↦ elim (Option-cases (open_sealed c payload key g.keys)) [
      | inl unopened ↦ inl (ground arith)
      | inr (plain, opened) ↦ elim (Option-cases (Codec.decode plain)) [
        | inl undecoded ↦ inl (ground arith)
        | inr (command, decoded) ↦ elim (handle_session sess g.core s o.now o.now' command) [
          | inl same ↦ inl (ground arith)
          | inr (is_lock, fresh, locked, _) ↦ inr (
            record {
              key = key;
              plain = plain;
              command = command;
              sealed = sealed;
              paired = paired;
              opened = opened;
              decoded = decoded;
              is_lock = is_lock;
              fresh = fresh;
            },
            ground arith,
          )
        ]
      ]
    ]
  ]

  sealed_devices :
      (g : Gateway) (s : S) (from payload : Bytes) (o : Outside)
      → (handle_sealed c sess g s from payload o).0.0.devices ≡ g.devices
  unfolding handle_sealed
  sealed_devices g s from payload o = ground arith

  -- A message leaves the session as it was, or is a lock command that a paired device sealed
  -- with keys that open it, fresh and not replayed; then the session was asked to lock, once.
  pub session_boundary :
      (g : Gateway) (s : S) (from payload : Bytes) (o : Outside)
      → ((handle c sess g s from payload o).0.1 ≡ s)
        ⊎ (Commanded g from payload o × ((handle c sess g s from payload o).0.1 ≡ (sess.lock s).0))
  unfolding handle
  session_boundary g s from payload o = elim (Bool-cases (is_sealed payload)) [
    | inl sealed ↦ rw (sealed, handle) (sealed_session g s from payload o sealed)
    | inr plain ↦ inl (ground arith)
  ]

  -- The allowlist changes by a message in one way only: a valid proof for the current window lets
  -- the sender in under its own id. Every other id is found as before.
  pub devices_boundary :
      (g : Gateway) (s : S) (from payload : Bytes) (o : Outside) (id : Bytes)
      → (Devices.get (handle c sess g s from payload o).0.0.devices id ≡ Devices.get g.devices id)
        ⊎ (Requested c g from payload o × (from ≡ id))
  unfolding handle
  devices_boundary g s from payload o id = elim (Bool-cases (is_sealed payload)) [
    | inl sealed ↦ inl (rw (sealed, handle, sealed_devices g s from payload o))
    | inr plain ↦ elim (pair_cases c g from payload o plain) [
      | inl same ↦ inl (rw (plain, handle, same))
      | inr (r, admitted) ↦ elim (admit-get c g r.index r.window from r.request o id) [
        | inl same ↦ inl (rw (plain, handle, admitted) same)
        | inr own ↦ inr (r, own)
      ]
    ]
  ]
