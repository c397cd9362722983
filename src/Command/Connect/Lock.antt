-- ===== src/Command/Connect/Lock.antt =====
-- A lock command from the phone's envelope to the envelope of its result.
use lockping_agent.Prelude.{
  ℕ, suc, [], ◌∷◌, ◌++◌, true, none, some, ◌≡◌, ap, ◌∙◌, Bytes, codes, length, AllBytes, Result, ok,
}
use lockping_agent.Wire.{Payload, kind_lock}
use lockping_agent.Wire.Codec
use lockping_agent.Session.{Controller}
use lockping_agent.Core.Handle.{check_freshness, lock_result}
use lockping_agent.Secure.Crypto.{Crypto, IsSound}
use lockping_agent.Secure.Keys.{Keys}
use lockping_agent.Secure.Crypt.{is_sealed, open_sealed, nonce_size}
use lockping_agent.Secure.Crypt.Laws.{IsPair}
use lockping_agent.Secure.Devices
use lockping_agent.Gateway.{Gateway, Outside, handle}
use lockping_agent.Gateway.Lock.{lock_is_answered}
use lockping_agent.Relay.Conn.{Message, empty_message, Conn, read_into}
use lockping_agent.Relay.Serve.{envelope, serve}
use lockping_agent.Relay.Serve.Order.{serve-handled, handled_one, handled, envelopes}
use lockping_agent.Command.Connect.{Agent, gateway_handler}

module _ (c : Crypto) (sound : IsSound c) {S : Type 0} (sess : Controller S)
    (readings : ℕ → Outside) where
  one_handled :
      (a : Agent S) (m : Message) {g : Gateway} {s : S} {reply : Bytes}
      → m.typ ≡ codes "envelope"
      → handle c sess a.gateway a.session m.from m.payload (readings a.calls) ≡ ((g, s), some reply)
      → handled
          (gateway_handler c sess readings)
          a
          (envelopes (gateway_handler c sess readings) (m ∷ []))
        ≡ (record { gateway = g; session = s; calls = suc a.calls }, envelope m.from reply ∷ [])
  one_handled a m {reply} typ answer =
      handled_one (gateway_handler c sess readings) a _ m reply typ (
        unfold gateway_handler in
        ap (λ x. (record { gateway = x.0.0; session = x.0.1; calls = suc a.calls }, x.1)) answer)

  -- An envelope that the relay delivers, with a lock command that its sender, a paired device, has
  -- sealed for this agent and that is let through: the session is locked, when it can be, and one
  -- envelope goes back to the sender, with a payload that the device opens with its own keys: the
  -- result true for the command's nonce. (The write does not fail, and 24 random bytes are given.)
  pub lock_over_relay :
      (a : Agent S) (conn : Conn) (frame : Result Bytes) (m : Message) (plain text nonce : Bytes)
      (command : Payload) (device : Keys)
      → read_into empty_message frame ≡ ok m
      → m.typ ≡ codes "envelope"
      → conn.writes ≡ []
      → IsPair c a.gateway.keys
      → IsPair c device
      → is_sealed m.payload ≡ true
      → Devices.get a.gateway.devices m.from ≡ some device.pub_key
      → open_sealed c m.payload device.pub_key a.gateway.keys ≡ some plain
      → Codec.decode plain ≡ some command
      → command.kind ≡ kind_lock
      → (check_freshness a.gateway.core (readings a.calls).now (readings a.calls).now' command).1
        ≡ none
      → (sess.lock a.session).1 ≡ none
      → Codec.encode (lock_result command.nonce true []) ≡ ok text
      → (readings a.calls).random ≡ ok nonce
      → length nonce ≡ nonce_size
      → AllBytes nonce
      → AllBytes text
      → let served = serve (gateway_handler c sess readings) (frame ∷ []) a conn in
        (reply : Bytes) × (served.0.0.session ≡ (sess.lock a.session).0)
        × (served.0.1.sent ≡ conn.sent ++ envelope m.from reply ∷ [])
        × (open_sealed c reply a.gateway.keys.pub_key device ≡ some text)
  lock_over_relay a conn frame m plain text nonce command device read typ free agent_pair
        device_pair sealed paired opened decoded is_lock fresh locked encoded random size
        nonce_bytes text_bytes =
      let (reply, answer, reads) =
        lock_is_answered c sound sess a.gateway a.session m.from m.payload plain text nonce command
          (readings a.calls) device agent_pair device_pair sealed paired opened decoded is_lock
          fresh locked encoded random size nonce_bytes text_bytes in
      let (_, state, sent) =
        serve-handled (gateway_handler c sess readings) (frame ∷ []) (m ∷ []) a conn
          (ap (λ r. r ∷ []) read) free in
      let one = one_handled a m typ answer in
      (
        reply,
        ap (λ x. x.session) state ∙ ap (λ x. x.0.session) one,
        sent ∙ ap (λ x. conn.sent ++ x.1) one,
        reads,
      )
