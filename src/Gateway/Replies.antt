-- ===== src/Gateway/Replies.antt =====
-- What the steps of a handler return and leave, one lemma for each.
use lockping_agent.Prelude.{
  ℕ, true, none, some, ◌≡◌, refl, ap, inl, inr, arith, Bytes, Result, ok, Bool-cases,
}
use lockping_agent.Prelude.Int.{ℤ}
use lockping_agent.Wire.{Payload}
use lockping_agent.Wire.Codec
use lockping_agent.Session.{Controller}
use lockping_agent.Core.Handle.{check_freshness}
use lockping_agent.Core.Handle as Core
use lockping_agent.Secure.Crypto.{Crypto}
use lockping_agent.Secure.Crypt.{is_sealed, open_sealed, seal}
use lockping_agent.Secure.Pairing.{Window}
use lockping_agent.Secure.Devices
use lockping_agent.Secure.Devices.{DeviceStore, DeviceInfo}
use lockping_agent.Gateway.Name.{sanitize_name}
use lockping_agent.Gateway.Pair.{Requested, pair_cases, requested_pair}
use lockping_agent.Gateway.{
  Gateway, Outside, handle, handle_sealed, admit, seal_reply, pairing, accept_payload,
}

-- What is shown depends on three fields.
pub pairing_congr :
    (g g' : Gateway) (now : ℤ)
    → g'.window ≡ g.window
    → g'.expires ≡ g.expires
    → g'.code ≡ g.code
    → pairing g' now ≡ pairing g now
unfolding pairing
pairing_congr g g' now a b d = ground arith

module _ (c : Crypto) {S : Type 0} (sess : Controller S) where
  pub sealed_handle :
      (g : Gateway) (s : S) (from payload : Bytes) (o : Outside)
      → is_sealed payload ≡ true
      → handle c sess g s from payload o ≡ handle_sealed c sess g s from payload o
  unfolding handle
  sealed_handle g s from payload o sealed = rw (sealed, handle)

  pub requested_handle :
      (g : Gateway) (s : S) (from payload : Bytes) (o : Outside) (r : Requested c g from payload o)
      → handle c sess g s from payload o ≡ (
        ((admit c g r.index r.window from r.request o).0, s),
        (admit c g r.index r.window from r.request o).1,
      )
  unfolding handle
  requested_handle g s from payload o r = rw (r.plain, handle, requested_pair c g from payload o r)

  pub encode_total : (p : Payload) → (text : Bytes) × (Codec.encode p ≡ ok text)
  unfolding Codec.encode
  encode_total p = (_, refl)

  pub admit_reply :
      (g : Gateway) (i : ℕ) (w : Window) (from : Bytes) (request : Payload) (o : Outside)
      (reply : Bytes)
      → (Devices.add g.devices from request.pub_key
          (sanitize_name request.machine)
          o.now'
          o.outcome).1
        ≡ none
      → Codec.encode (accept_payload c g w) ≡ ok reply
      → (admit c g i w from request o).1 ≡ some reply
  unfolding admit
  admit_reply g i w from request o reply saved encoded = ground arith

  pub admit_lost :
      (g : Gateway) (i : ℕ) (w : Window) (from : Bytes) (request : Payload) (o : Outside)
      (text : Bytes)
      → (Devices.add g.devices from request.pub_key
          (sanitize_name request.machine)
          o.now'
          o.outcome).1
        ≡ some text
      → ((admit c g i w from request o).1 ≡ none)
        × ((admit c g i w from request o).0.windows ≡ g.windows)
  unfolding admit
  admit_lost g i w from request o text lost = (ground arith, ground arith)

  pub pair_shown :
      (g : Gateway) (i : ℕ) (w : Window) (from : Bytes) (request : Payload) (o : Outside)
      → ((admit c g i w from request o).0.window ≡ g.window)
        × ((admit c g i w from request o).0.expires ≡ g.expires)
        × ((admit c g i w from request o).0.code ≡ g.code)
  unfolding admit
  pair_shown g i w from request o = (ground arith, ground arith, ground arith)

  pub sealed_shown :
      (g : Gateway) (s : S) (from payload : Bytes) (o : Outside)
      → ((handle_sealed c sess g s from payload o).0.0.window ≡ g.window)
        × ((handle_sealed c sess g s from payload o).0.0.expires ≡ g.expires)
        × ((handle_sealed c sess g s from payload o).0.0.code ≡ g.code)
  unfolding handle_sealed
  sealed_shown g s from payload o = (ground arith, ground arith, ground arith)

  pub shown_kept :
      (g : Gateway) (s : S) (from payload : Bytes) (o : Outside)
      → ((handle c sess g s from payload o).0.0.window ≡ g.window)
        × ((handle c sess g s from payload o).0.0.expires ≡ g.expires)
        × ((handle c sess g s from payload o).0.0.code ≡ g.code)
  unfolding handle
  shown_kept g s from payload o = elim (Bool-cases (is_sealed payload)) [
    | inl sealed ↦ rw (sealed, handle) (sealed_shown g s from payload o)
    | inr plain ↦ elim (pair_cases c g from payload o plain) [
      | inl same ↦ rw (plain, handle, same) (refl, refl, refl)
      | inr (r, admitted) ↦
          rw (plain, handle, admitted) (pair_shown g r.index r.window from r.request o)
    ]
  ]

  pub sealed_value :
      (g : Gateway) (s : S) (from payload key plain : Bytes) (command : Payload) (o : Outside)
      (out : Payload) (core : Core.Core) (s' : S)
      → Devices.get g.devices from ≡ some key
      → open_sealed c payload key g.keys ≡ some plain
      → Codec.decode plain ≡ some command
      → Core.handle sess g.core s o.now o.now' command ≡ ((core, s'), some out)
      → handle_sealed c sess g s from payload o
        ≡ ((record g { core = core }, s'), seal_reply c g o.random out key)
  unfolding handle_sealed
  sealed_value g s from payload key plain command o out core s' paired opened decoded answer =
      let core_eq = ap (λ x. x.0.0) answer in
      let session_eq = ap (λ x. x.0.1) answer in
      let reply_eq = ap (λ x. x.1) answer in
      rw (paired, handle_sealed) (rw opened (rw decoded (rw reply_eq (rw (core_eq, session_eq)))))

  pub seal_reply_value :
      (g : Gateway) (random : Result Bytes) (out : Payload) (peer text reply : Bytes)
      → Codec.encode out ≡ ok text
      → seal c random text peer g.keys ≡ ok reply
      → seal_reply c g random out peer ≡ some reply
  unfolding seal_reply
  seal_reply_value g random out peer text reply encoded made = rw (encoded, seal_reply) (rw made)
