-- ===== src/Gateway/Lock.antt =====
-- A lock command through the whole of internal/gateway/gateway.go, and the sealed result.
use lockping_agent.Prelude.{[], true, none, some, ◌≡◌, ap, ◌∙◌, Bytes, length, AllBytes, ok}
use lockping_agent.Wire.{Payload, kind_lock}
use lockping_agent.Wire.Codec
use lockping_agent.Session.{Controller}
use lockping_agent.Core.Handle.{check_freshness, lock_result}
use lockping_agent.Core.Effects.{handle-lock}
use lockping_agent.Secure.Crypto.{Crypto, IsSound}
use lockping_agent.Secure.Keys.{Keys}
use lockping_agent.Secure.Crypt.{is_sealed, open_sealed, nonce_size}
use lockping_agent.Secure.Crypt.Laws.{IsPair, open_sealed-seal}
use lockping_agent.Secure.Devices
use lockping_agent.Secure.Devices.{DeviceStore}
use lockping_agent.Gateway.{Gateway, Outside, handle, seal_reply}
use lockping_agent.Gateway.Replies.{sealed_handle, sealed_value, seal_reply_value}

module _ (c : Crypto) (sound : IsSound c) {S : Type 0} (sess : Controller S) where
  -- A lock command that a paired device sealed for this agent and that is let through locks the
  -- session, when the session can be locked, and is answered, given 24 random bytes, by a sealed
  -- payload that the device opens with its own keys: the result true for the command's nonce.
  pub lock_is_answered :
      (g : Gateway) (s : S) (from payload plain text nonce : Bytes) (command : Payload)
      (o : Outside) (device : Keys)
      → IsPair c g.keys
      → IsPair c device
      → is_sealed payload ≡ true
      → Devices.get g.devices from ≡ some device.pub_key
      → open_sealed c payload device.pub_key g.keys ≡ some plain
      → Codec.decode plain ≡ some command
      → command.kind ≡ kind_lock
      → (check_freshness g.core o.now o.now' command).1 ≡ none
      → (sess.lock s).1 ≡ none
      → Codec.encode (lock_result command.nonce true []) ≡ ok text
      → o.random ≡ ok nonce
      → length nonce ≡ nonce_size
      → AllBytes nonce
      → AllBytes text
      → (reply : Bytes) × (handle c sess g s from payload o ≡ (
        (record g { core = (check_freshness g.core o.now o.now' command).0 }, (sess.lock s).0),
        some reply,
      ))
        × (open_sealed c reply g.keys.pub_key device ≡ some text)
  lock_is_answered g s from payload plain text nonce command o device agent_pair device_pair sealed
        paired opened decoded is_lock fresh locked encoded random size nonce_bytes text_bytes =
      let (reply, made, _, reads) =
        open_sealed-seal c sound nonce text g.keys device agent_pair device_pair size nonce_bytes
          text_bytes in
      let core = (check_freshness g.core o.now o.now' command).0 in
      let out = lock_result command.nonce true [] in
      let answer = handle-lock sess g.core s o.now o.now' command is_lock fresh locked in
      (
        reply,
        sealed_handle c sess g s from payload o sealed
            ∙ sealed_value c sess g s from payload device.pub_key plain command o out core _ paired
                opened decoded answer
            ∙ ap (λ t. ((record g { core = core }, (sess.lock s).0), t))
                (ap (λ t. seal_reply c g t out device.pub_key) random
                  ∙ seal_reply_value c sess g (ok nonce) out device.pub_key text reply encoded
                      made),
        reads,
      )
