-- ===== src/Gateway/Stored.antt =====
-- The devices file of internal/gateway/gateway.go: what an answer leaves in it.
use lockping_agent.Prelude.{ℕ, false, none, some, ◌≡◌, inl, inr, arith, Bytes}
use lockping_agent.Wire.{Payload}
use lockping_agent.Session.{Controller}
use lockping_agent.Secure.Crypto.{Crypto}
use lockping_agent.Secure.Crypt.{is_sealed}
use lockping_agent.Secure.Pairing.{Window}
use lockping_agent.Secure.Devices
use lockping_agent.Secure.Devices.{holding}
use lockping_agent.Secure.DeviceFile.{marshal}
use lockping_agent.Secure.Devices.Stored.{file-add}
use lockping_agent.Gateway.Name.{sanitize_name}
use lockping_agent.Gateway.Pair.{pair_cases, admit-devices}
use lockping_agent.Gateway.{Gateway, Outside, handle, admit}

module _ (c : Crypto) {S : Type 0} (sess : Controller S) where
  admit_saved :
      (g : Gateway) (i : ℕ) (w : Window) (from : Bytes) (request : Payload) (o : Outside)
      {reply : Bytes}
      → (admit c g i w from request o).1 ≡ some reply
      → (Devices.add g.devices from request.pub_key
          (sanitize_name request.machine)
          o.now'
          o.outcome).1
        ≡ none
  unfolding admit
  admit_saved g i w from request o h = ground arith

  -- After an answered plaintext message the file holds the text of the devices.
  pub answered_saved :
      (g : Gateway) (s : S) (from payload : Bytes) (o : Outside) {reply : Bytes}
      → is_sealed payload ≡ false
      → (handle c sess g s from payload o).1 ≡ some reply
      → (handle c sess g s from payload o).0.0.devices.file
        ≡ holding (marshal (handle c sess g s from payload o).0.0.devices.devices)
  unfolding handle
  answered_saved g s from payload o {reply} plain h = elim (pair_cases c g from payload o plain) [
    | inl same ↦ ground arith
    | inr (r, admitted) ↦
        let name = sanitize_name r.request.machine in
        let saved =
          admit_saved g r.index r.window from r.request o {reply = reply} (ground arith) in
        rw (plain, handle, admitted, admit-devices c g r.index r.window from r.request o)
          (file-add g.devices from r.request.pub_key name o.now' o.outcome saved)
  ]
