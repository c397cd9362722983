-- ===== src/Gateway/Pair.antt =====
-- `handlePairRequest`: a request is passed over, or it is admitted by a valid proof.
use lockping_agent.Prelude.{
  ℕ, true, false, none, some, ◌≡◌, refl, ap, ◌∙◌, ◌⊎◌, inl, inr, arith, Bytes, bytes_eq,
  bytes_eq_iff, get_elem?, Option-cases, Result-cases, Bool-cases,
}
use lockping_agent.Wire.{Payload, kind_pair_request}
use lockping_agent.Wire.Codec
use lockping_agent.Secure.Crypto.{Crypto}
use lockping_agent.Secure.Keys.{decode_key}
use lockping_agent.Secure.Crypt.{is_sealed}
use lockping_agent.Secure.Pairing.{Window, verify_request}
use lockping_agent.Secure.Devices
use lockping_agent.Secure.Devices.{DeviceStore, DeviceInfo}
use lockping_agent.Secure.Devices.Laws.{get-add, add_bad_key}
use lockping_agent.Gateway.Name.{sanitize_name}
use lockping_agent.Gateway.{Gateway, Outside, handle_pair_request, pair_through, admit}

module _ (c : Crypto) where
  -- A pair request whose proof the current window accepts.
  pub record Requested (g : Gateway) (from payload : Bytes) (o : Outside) : Type 0 where
    pub request : Payload
    pub index : ℕ
    pub window : Window
    pub plain : is_sealed payload ≡ false
    pub decoded : Codec.decode payload ≡ some request
    pub is_request : request.kind ≡ kind_pair_request
    pub current : g.window ≡ some index
    pub found : get_elem? g.windows index ≡ some window
    pub verified : verify_request c (some window) o.now from request.pub_key request.mac ≡ true

  -- A valid request is admitted through the window that verified it.
  pub requested_pair :
      (g : Gateway) (from payload : Bytes) (o : Outside) (r : Requested g from payload o)
      → handle_pair_request c g from payload o ≡ admit c g r.index r.window from r.request o
  unfolding handle_pair_request pair_through
  requested_pair g from payload o r =
      rw (r.decoded, handle_pair_request)
        (rw ((bytes_eq_iff r.request.kind kind_pair_request).1 r.is_request) refl)
      ∙ ap (λ pointer. pair_through c g pointer from r.request o) r.current
      ∙ rw (r.found, pair_through) (rw r.verified)

  -- A plaintext message changes nothing and gets no reply, or is a valid request.
  pub pair_cases :
      (g : Gateway) (from payload : Bytes) (o : Outside)
      → is_sealed payload ≡ false
      → (handle_pair_request c g from payload o ≡ (g, none))
        ⊎ ((r : Requested g from payload o) × (handle_pair_request c g from payload o
              ≡ admit c g r.index r.window from r.request o))
  unfolding handle_pair_request pair_through
  pair_cases g from payload o plain = elim (Option-cases (Codec.decode payload)) [
    | inl undecoded ↦ inl (ground arith)
    | inr (request, decoded) ↦ elim (Bool-cases (bytes_eq request.kind kind_pair_request)) [
      | inr other ↦ inl (ground arith)
      | inl is_request ↦ elim (Option-cases g.window) [
        | inl nil' ↦ inl (ground arith)
        | inr (index, current) ↦ elim (Option-cases (get_elem? g.windows index)) [
          | inl dangling ↦ inl (ground arith)
          | inr (window, found) ↦
              elim (Bool-cases
                (verify_request c (some window) o.now from request.pub_key request.mac)) [
                  | inr refused ↦ inl (ground arith)
                  | inl verified ↦
                      let r : Requested g from payload o = record {
                        request = request;
                        index = index;
                        window = window;
                        plain = plain;
                        decoded = decoded;
                        is_request = (bytes_eq_iff request.kind kind_pair_request).0 is_request;
                        current = current;
                        found = found;
                        verified = verified;
                      } in
                      inr (r, requested_pair g from payload o r)
                ]
        ]
      ]
    ]
  ]

  pub admit-devices :
      (g : Gateway) (i : ℕ) (w : Window) (from : Bytes) (request : Payload) (o : Outside)
      → (admit c g i w from request o).0.devices
        ≡ (Devices.add g.devices from request.pub_key
            (sanitize_name request.machine)
            o.now'
            o.outcome).0
  unfolding admit
  admit-devices g i w from request o = ground arith

  -- Admitting a request changes the allowlist for its sender at most.
  pub admit-get :
      (g : Gateway) (i : ℕ) (w : Window) (from : Bytes) (request : Payload) (o : Outside)
      (id : Bytes)
      → (Devices.get (admit c g i w from request o).0.devices id ≡ Devices.get g.devices id)
        ⊎ (from ≡ id)
  admit-get g i w from request o id =
      rw (admit-devices g i w from request o) (elim (Result-cases (decode_key request.pub_key)) [
        | inr (e, bad) ↦
            inl (rw (add_bad_key g.devices from request.pub_key _ o.now' o.outcome e bad) refl)
        | inl (k, key) ↦ elim (Bool-cases (bytes_eq from id)) [
          | inl same ↦ inr ((bytes_eq_iff from id).0 same)
          | inr other ↦
              inl (get-add g.devices from request.pub_key _ o.now' o.outcome k id key ∙ rw other)
        ]
      ])
