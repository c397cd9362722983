-- ===== src/Gateway/Answer.antt =====
-- What comes back: sealed replies, and the answers to pair requests.
use lockping_agent.Prelude.{true, none, some, ◌≡◌, refl, ap, ◌∙◌, Bytes, length, AllBytes, ok}
use lockping_agent.Prelude.Int.{ℤ}
use lockping_agent.Base64.{raw_url, encode}
use lockping_agent.Wire.{Payload, kind_status_request}
use lockping_agent.Wire.Codec
use lockping_agent.Session.{Controller}
use lockping_agent.Core.Handle.{check_freshness}
use lockping_agent.Core.Handle as Core
use lockping_agent.Core.Effects.{handle-status}
use lockping_agent.Secure.Crypto.{Crypto, IsSound}
use lockping_agent.Secure.Keys.{Keys, decode_key, encode_key}
use lockping_agent.Secure.Crypt.{is_sealed, open_sealed, nonce_size}
use lockping_agent.Secure.Crypt.Laws.{IsPair, open_sealed-seal}
use lockping_agent.Secure.Pairing.{verify_accept_mac}
use lockping_agent.Secure.Pairing.Laws.{verify_accept_mac-accept_mac}
use lockping_agent.Secure.Devices
use lockping_agent.Secure.Devices.{DeviceStore, DeviceInfo}
use lockping_agent.Secure.Devices.Laws.{get-add_self, add_written, add_failed}
use lockping_agent.Gateway.Name.{sanitize_name}
use lockping_agent.Gateway.Pair.{Requested, admit-devices}
use lockping_agent.Gateway.{Gateway, Outside, handle, seal_reply, pairing, accept_payload}
use lockping_agent.Gateway.Replies.{
  pairing_congr, sealed_handle, requested_handle, encode_total, admit_reply, admit_lost, shown_kept,
  sealed_value, seal_reply_value,
}

module _ (c : Crypto) (sound : IsSound c) {S : Type 0} (sess : Controller S) where
  -- A status request that a paired device sealed for this agent is answered by a sealed payload,
  -- given 24 random bytes. The device opens it with its own keys and the agent's public key, and
  -- reads the state of the session at the clock's reading. Nothing changes.
  pub status_is_answered :
      (g : Gateway) (s : S) (from payload plain text nonce : Bytes) (request : Payload)
      (o : Outside) (device : Keys)
      → IsPair c g.keys
      → IsPair c device
      → is_sealed payload ≡ true
      → Devices.get g.devices from ≡ some device.pub_key
      → open_sealed c payload device.pub_key g.keys ≡ some plain
      → Codec.decode plain ≡ some request
      → request.kind ≡ kind_status_request
      → Codec.encode (Core.status sess g.core s o.now) ≡ ok text
      → o.random ≡ ok nonce
      → length nonce ≡ nonce_size
      → AllBytes nonce
      → AllBytes text
      → (reply : Bytes) × (handle c sess g s from payload o ≡ ((g, s), some reply))
        × (open_sealed c reply g.keys.pub_key device ≡ some text)
  status_is_answered g s from payload plain text nonce request o device agent_pair device_pair
        sealed paired opened decoded is_status encoded random size nonce_bytes text_bytes =
      let (reply, made, _, reads) =
        open_sealed-seal c sound nonce text g.keys device agent_pair device_pair size nonce_bytes
          text_bytes in
      let answer = handle-status sess g.core s o.now o.now' request is_status in
      (
        reply,
        sealed_handle c sess g s from payload o sealed
            ∙ sealed_value c sess g s from payload device.pub_key plain request o _ g.core s paired
                opened decoded answer
            ∙ ap (λ t. ((g, s), t))
                (ap (λ t. seal_reply c g t (Core.status sess g.core s o.now) device.pub_key) random
                  ∙ seal_reply_value c sess g (ok nonce) _ device.pub_key text reply encoded made),
        reads,
      )

  -- A valid request for a key that decodes, when the file can be written: the sender is in the
  -- allowlist under its id with that key, and the answer carries the agent's key with a proof
  -- that a client which holds the window's code accepts.
  pub request_is_answered :
      (g : Gateway) (s : S) (from payload key : Bytes) (o : Outside)
      (r : Requested c g from payload o)
      → decode_key r.request.pub_key ≡ ok key
      → o.outcome ≡ Devices.written
      → AllBytes r.window.secret
      → (accept : Payload) × (reply : Bytes) × (Codec.encode accept ≡ ok reply)
        × ((handle c sess g s from payload o).1 ≡ some reply)
        × (Devices.get (handle c sess g s from payload o).0.0.devices from ≡ some key)
        × (accept.pub_key ≡ encode_key g.keys.pub_key)
        × (verify_accept_mac c (encode raw_url r.window.secret) g.agent_id accept.pub_key accept.mac
            ≡ true)
  request_is_answered g s from payload key o r good written' bytes =
      let w = r.window in
      let (reply, encoded) = encode_total c sess (accept_payload c g w) in
      let name = sanitize_name r.request.machine in
      let saved =
        add_written g.devices from r.request.pub_key name o.now' o.outcome key good written' in
      (
        accept_payload c g w,
        reply,
        encoded,
        rw (requested_handle c sess g s from payload o r)
            (admit_reply c sess g r.index w from r.request o reply saved encoded),
        rw
            (
              requested_handle c sess g s from payload o r,
              admit-devices c g r.index w from r.request o,
            )
            (get-add_self g.devices from r.request.pub_key name o.now' o.outcome key good),
        unfold accept_payload in refl,
        unfold accept_payload in
            verify_accept_mac-accept_mac c sound w g.agent_id (encode_key g.keys.pub_key) bytes,
      )

module _ (c : Crypto) {S : Type 0} (sess : Controller S) where
  -- A request that was verified, but whose device could not be written to the file, gets no
  -- answer. Yet its sender is in the allowlist from then on, and the window can be used again.
  pub unsaved_is_trusted :
      (g : Gateway) (s : S) (from payload key e : Bytes) (left : Devices.DeviceFile) (o : Outside)
      (r : Requested c g from payload o)
      → decode_key r.request.pub_key ≡ ok key
      → o.outcome ≡ Devices.failed e left
      → ((handle c sess g s from payload o).1 ≡ none)
        × (Devices.get (handle c sess g s from payload o).0.0.devices from ≡ some key)
        × ((handle c sess g s from payload o).0.0.windows ≡ g.windows)
  unsaved_is_trusted g s from payload key e left o r good failed' =
      let name = sanitize_name r.request.machine in
      let (text, lost) =
        add_failed g.devices from r.request.pub_key name o.now' o.outcome key e left good failed' in
      let (silent, unmarked) = admit_lost c sess g r.index r.window from r.request o text lost in
      rw
        (
          requested_handle c sess g s from payload o r,
          admit-devices c g r.index r.window from r.request o,
        )
        (
          silent,
          get-add_self g.devices from r.request.pub_key name o.now' o.outcome key good,
          unmarked,
        )

  -- No message changes what the UI shows of the pairing: after a code was used, it is still given
  -- as the active one until its time is over.
  pub pairing-handle :
      (g : Gateway) (s : S) (from payload : Bytes) (o : Outside) (now : ℤ)
      → pairing (handle c sess g s from payload o).0.0 now ≡ pairing g now
  unfolding pairing
  pairing-handle g s from payload o now =
      let (same_window, same_expires, same_code) = shown_kept c sess g s from payload o in
      pairing_congr g (handle c sess g s from payload o).0.0 now same_window same_expires same_code
