-- ===== src/Gateway.antt =====
-- internal/gateway/gateway.go: the security boundary between the relay and the core.
-- The gateway holds a pointer to its current window; every window that was ever opened stands in
-- `windows`, so a request that works with an older pointer sees and marks that window.
pub mod Name
pub mod Pair
pub mod Boundary
pub mod Windows
pub mod Once
pub mod Replies
pub mod Answer
pub mod Stored
pub mod Lock
pub mod Flight
use lockping_agent.Prelude.{
  ℕ, zero, suc, Bool, true, false, not, List, [], ◌∷◌, ◌++◌, Option, none, some, Bytes, bytes_eq,
  length, get_elem?, set, leb, ltb, if◌then◌else◌, Result, ok, err,
}
use lockping_agent.Prelude.Int.{ℤ, pos, ◌+ℤ◌, ◌-ℤ◌, leb_ℤ}
use lockping_agent.Wire.{Payload, empty_payload, kind_pair_request, kind_pair_accept}
use lockping_agent.Wire.Codec
use lockping_agent.Session.{Controller}
use lockping_agent.Core.Handle.{Core}
use lockping_agent.Core.Handle as Core
use lockping_agent.Secure.Crypto.{Crypto}
use lockping_agent.Secure.Keys.{Keys, encode_key}
use lockping_agent.Secure.Crypt.{is_sealed, seal, open_sealed}
use lockping_agent.Secure.Pairing.{
  Window, window_ttl, new_window, consume, verify_request, accept_mac, encode_pair_code,
}
use lockping_agent.Secure.Devices
use lockping_agent.Secure.Devices.{DeviceStore, Write}
use lockping_agent.Gateway.Name.{sanitize_name}

pub record Gateway : Type 0 where
  pub core : Core
  pub keys : Keys
  pub agent_id : Bytes
  pub relay_url : Bytes
  pub devices : DeviceStore
  pub windows : List Window
  pub window : Option ℕ
  pub code : Bytes
  pub expires : ℤ

-- `New`
unfoldable pub new : Core → Keys → Bytes → Bytes → DeviceStore → Gateway
new core keys agent_id relay_url devices = record {
  core = core;
  keys = keys;
  agent_id = agent_id;
  relay_url = relay_url;
  devices = devices;
  windows = [];
  window = none;
  code = [];
  expires = pos 0;
}

-- What a call meets outside the agent: the clock's readings, the source of randomness, and the
-- outcome of writing the devices file.
pub record Outside : Type 0 where
  pub now : ℤ
  pub now' : ℤ
  pub random : Result Bytes
  pub outcome : Write

-- `OpenPairing`: the code, or the error of the source of randomness.
unfoldable pub open_pairing : Gateway → Outside → Gateway × Result Bytes
open_pairing g o = elim (new_window o.random o.now) [
  | err e ↦ (g, err e)
  | ok (w, secret_b64) ↦
      let code = encode_pair_code g.relay_url g.agent_id secret_b64 in
      (
        record g {
          windows = g.windows ++ w ∷ [];
          window = some (length g.windows);
          code = code;
          expires = o.now' +ℤ window_ttl;
        },
        ok code,
      )
]

-- `Pairing`: the code and what remains of its time; `none` if no pairing is active.
unfoldable pub pairing : Gateway → ℤ → Option (Bytes × ℤ)
pairing g now = elim g.window [
  | none ↦ none
  | some _ ↦
      let remaining = g.expires -ℤ now in
      if leb_ℤ remaining (pos 0) then none else some (g.code, remaining)
]

module _ (c : Crypto) where
  unfoldable pub accept_payload : Gateway → Window → Payload
  accept_payload g w =
      let agent_pub_b64 = encode_key g.keys.pub_key in
      record empty_payload {
        kind = kind_pair_accept;
        pub_key = agent_pub_b64;
        mac = accept_mac c w g.agent_id agent_pub_b64;
      }

  -- The part behind the verification, with the window that the pointer leads to.
  unfoldable pub admit : Gateway → ℕ → Window → Bytes → Payload → Outside → Gateway × Option Bytes
  unfolding accept_payload
  admit g i w from in' o =
      let (devices, failed) =
        Devices.add g.devices from in'.pub_key (sanitize_name in'.machine) o.now' o.outcome in
      elim failed [
        | some _ ↦ (record g { devices = devices }, none)
        | none ↦
            let g' = record g { devices = devices; windows = set g.windows i (consume w) } in
            elim (Codec.encode (accept_payload g w)) [
              | err _ ↦ (g', none)
              | ok enc ↦ (g', some enc)
            ]
      ]

  -- `handlePairRequest` from the point where it has read the pointer to the window.
  unfoldable pub pair_through :
      Gateway → Option ℕ → Bytes → Payload → Outside → Gateway × Option Bytes
  unfolding admit
  pair_through g none from in' o = (g, none)
  pair_through g (some i) from in' o = elim (get_elem? g.windows i) [
    | none ↦ (g, none)
    | some w ↦
        if verify_request c (some w) o.now from in'.pub_key in'.mac
        then admit g i w from in' o
        else (g, none)
  ]

  unfoldable pub handle_pair_request : Gateway → Bytes → Bytes → Outside → Gateway × Option Bytes
  handle_pair_request g from payload o = elim (Codec.decode payload) [
    | none ↦ (g, none)
    | some in' ↦
        if bytes_eq in'.kind kind_pair_request
        then pair_through g g.window from in' o
        else (g, none)
  ]

  unfoldable pub seal_reply : Gateway → Result Bytes → Payload → Bytes → Option Bytes
  seal_reply g random out peer_pub = elim (Codec.encode out) [
    | err _ ↦ none
    | ok enc ↦ elim (seal c random enc peer_pub g.keys) [ err _ ↦ none | ok sealed ↦ some sealed ]
  ]

  module _ {S : Type 0} (sess : Controller S) where
    unfoldable pub handle_sealed :
        Gateway → S → Bytes → Bytes → Outside → (Gateway × S) × Option Bytes
    handle_sealed g s from payload o = elim (Devices.get g.devices from) [
      | none ↦ ((g, s), none)
      | some peer_pub ↦ elim (open_sealed c payload peer_pub g.keys) [
        | none ↦ ((g, s), none)
        | some plain ↦ elim (Codec.decode plain) [
          | none ↦ ((g, s), none)
          | some in' ↦
              let ((core, s'), out) = Core.handle sess g.core s o.now o.now' in' in
              let g' = record g { core = core } in
              elim out [
                | none ↦ ((g', s'), none)
                | some reply ↦ ((g', s'), seal_reply g o.random reply peer_pub)
              ]
        ]
      ]
    ]

    -- `Handle`: the reply, if there is one.
    unfoldable pub handle : Gateway → S → Bytes → Bytes → Outside → (Gateway × S) × Option Bytes
    handle g s from payload o =
        if is_sealed payload
        then handle_sealed g s from payload o
        else (let (g', reply) = handle_pair_request g from payload o in ((g', s), reply))
