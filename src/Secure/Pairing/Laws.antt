-- ===== src/Secure/Pairing/Laws.antt =====
-- When a proof of internal/secure/pairing.go is accepted, and what it binds.
use lockping_agent.Prelude.{
  true, false, ◌||◌, if◌then◌else◌, bytes_eq, [], ◌∷◌, ◌++◌, Option, none, some, ◌≡◌, ◌≢◌, ◌↔◌,
  refl, ap, sym, ◌∙◌, arith, Bytes, All, AllBytes, bytes_eq_iff, bytes_eq_refl, append_assoc, ok,
  Option-cases, inl, inr,
}
use lockping_agent.Prelude.Int.{ℤ, ltb_ℤ, ◌+ℤ◌, ◌≤ℤ◌}
use lockping_agent.Base64.{std, raw_url, encode, decode}
use lockping_agent.Base64.RoundTrip.{decode-encode-std, decode-encode-raw_url}
use lockping_agent.Secure.Keys.{decode_key}
use lockping_agent.Secure.Crypto.{Crypto, IsSound}
use lockping_agent.Secure.Pairing.{
  Window, window_ttl, new_window, consume, window_from_secret, label_request, label_accept,
  proof_message, mac, verify_request, accept_mac, request_mac, verify_accept_mac,
}

verified_parts :
    (c : Crypto) (w : Window) (now : ℤ) (id pub_b64 mac_b64 : Bytes)
    → verify_request c (some w) now id pub_b64 mac_b64 ≡ true
    → (window : Window) × (some w ≡ some window)
      × (window.used ≡ false)
      × (now ≤ℤ window.expires)
      × (decode std mac_b64 ≡ some (mac c window (label_request ∷ id ∷ pub_b64 ∷ [])))
unfolding verify_request
verified_parts c w now id pub_b64 mac_b64 h = elim (Option-cases (decode std mac_b64)) [
  | inl undecodable ↦ ground arith
  | inr (got, decoded) ↦
      let message = label_request ∷ id ∷ pub_b64 ∷ [] in
      (
        w,
        refl,
        ground arith,
        ground arith,
        decoded ∙ ap some (sym ((bytes_eq_iff (mac c w message) got).0 (ground arith))),
      )
]

verified_of_parts :
    (c : Crypto) (w : Window) (now : ℤ) (id pub_b64 mac_b64 : Bytes)
    → (window : Window) × (some w ≡ some window)
      × (window.used ≡ false)
      × (now ≤ℤ window.expires)
      × (decode std mac_b64 ≡ some (mac c window (label_request ∷ id ∷ pub_b64 ∷ [])))
    → verify_request c (some w) now id pub_b64 mac_b64 ≡ true
unfolding verify_request
verified_of_parts c w now id pub_b64 mac_b64 (window, same, unused, timely, decoded) =
    ground (arith, bytes_eq_refl (mac c window (label_request ∷ id ∷ pub_b64 ∷ [])))

-- A request is accepted exactly if a window is open, unused and not past its last instant, and
-- the MAC is base64 of the HMAC over the label, the client's id and the key as it was sent.
pub verify_request_iff :
    (c : Crypto) (w : Option Window) (now : ℤ) (id pub_b64 mac_b64 : Bytes)
    → (verify_request c w now id pub_b64 mac_b64 ≡ true) ↔ (
        (window : Window) × (w ≡ some window)
        × (window.used ≡ false)
        × (now ≤ℤ window.expires)
        × (decode std mac_b64 ≡ some (mac c window (label_request ∷ id ∷ pub_b64 ∷ []))))
verify_request_iff c none now id pub_b64 mac_b64 =
    (λ h. unfold verify_request in ground arith, λ (w, e, _, _, _). cc)
verify_request_iff c (some w) now id pub_b64 mac_b64 =
    (verified_parts c w now id pub_b64 mac_b64, verified_of_parts c w now id pub_b64 mac_b64)

module _ (c : Crypto) (sound : IsSound c) where
  -- A client that was shown the code of a new window, and computes the proof from it, is accepted
  -- by that window until its five minutes are over, and by no later reading.
  pub verify_request-request_mac :
      (secret : Bytes) (opened now : ℤ) (id pub_b64 : Bytes)
      → AllBytes secret
      → (w : Window) × (secret_b64 : Bytes) × (proof : Bytes) × (new_window (ok secret) opened
          ≡ ok (w, secret_b64))
        × (request_mac c secret_b64 id pub_b64 ≡ ok proof)
        × ((verify_request c (some w) now id pub_b64 proof ≡ true) ↔ (now ≤ℤ opened +ℤ window_ttl))
        × (verify_request c (some (consume w)) now id pub_b64 proof ≡ false)
  unfolding new_window request_mac window_from_secret verify_request consume mac
  verify_request-request_mac secret opened now id pub_b64 bytes =
      let message = proof_message (label_request ∷ id ∷ pub_b64 ∷ []) in
      let code = c.hmac_sha256 secret message in
      let decoded = decode-encode-std code (sound.hmac-AllBytes secret message) in
      let read = decode-encode-raw_url secret bytes in
      (
        record { secret = secret; expires = opened +ℤ window_ttl; used = false },
        encode raw_url secret,
        encode std code,
        refl,
        rw (read, request_mac, window_from_secret),
        (λ h. ground arith, λ h. ground (arith, decoded, bytes_eq_refl code)),
        refl,
      )

  -- The agent's answer is accepted by the client that holds the window's code.
  pub verify_accept_mac-accept_mac :
      (w : Window) (agent_id pub_b64 : Bytes)
      → AllBytes w.secret
      → verify_accept_mac c
          (encode raw_url w.secret)
          agent_id
          pub_b64
          (accept_mac c w agent_id pub_b64)
        ≡ true
  unfolding verify_accept_mac window_from_secret accept_mac mac
  verify_accept_mac-accept_mac w agent_id pub_b64 bytes =
      let message = proof_message (label_accept ∷ agent_id ∷ pub_b64 ∷ []) in
      let code = c.hmac_sha256 w.secret message in
      let decoded = decode-encode-std code (sound.hmac-AllBytes w.secret message) in
      let read = decode-encode-raw_url w.secret bytes in
      ground (arith, read, decoded, bytes_eq_refl code)

-- A client's id holds no line end.
abbrev pub IsOneLine : Bytes → Type 0
IsOneLine = All (λ b. b ≢ 10)

append_cut :
    (a b s t : Bytes) → IsOneLine a → IsOneLine b → a ++ 10 ∷ s ≡ b ++ 10 ∷ t → (a ≡ b) × (s ≡ t)
append_cut [] [] s t ha hb h = (refl, cc)
append_cut [] (y ∷ b) s t ha (hy, hb) h = absurd (hy (cc))
append_cut (x ∷ a) [] s t (hx, ha) hb h = absurd (hx (cc))
append_cut (x ∷ a) (y ∷ b) s t (hx, ha) (hy, hb) h =
    let (e, e') = append_cut a b s t ha hb (cc) in (cc, e')

-- The message that a proof authenticates determines the label's side, and with ids of one line
-- also the id and the key: no client's proof serves as an agent's, or for another id or key.
pub proof_message_injective :
    (id id' pub_b64 pub_b64' : Bytes)
    → IsOneLine id
    → IsOneLine id'
    → proof_message (label_request ∷ id ∷ pub_b64 ∷ [])
      ≡ proof_message (label_request ∷ id' ∷ pub_b64' ∷ [])
    → (id ≡ id') × (pub_b64 ≡ pub_b64')
unfolding proof_message
proof_message_injective id id' p p' h h' e = append_cut id id' p p' h h' (cc)

pub proof_messages_apart :
    (id id' pub_b64 pub_b64' : Bytes)
    → proof_message (label_request ∷ id ∷ pub_b64 ∷ [])
      ≢ proof_message (label_accept ∷ id' ∷ pub_b64' ∷ [])
unfolding proof_message
proof_messages_apart id id' p p' e = ground arith

message_ambiguous :
    (id pub_b64 : Bytes)
    → proof_message (label_request ∷ (id ++ 10 ∷ []) ∷ pub_b64 ∷ [])
      ≡ proof_message (label_request ∷ id ∷ (10 ∷ pub_b64) ∷ [])
unfolding proof_message
message_ambiguous id pub_b64 = rw (append_assoc id (10 ∷ []) (10 ∷ pub_b64))

-- A line end behind the id is not told from one before the key: the window accepts a proof for the
-- one exactly if it accepts it for the other, and the key decodes to the same with the line end.
pub verify_request_ambiguous :
    (c : Crypto) (w : Window) (now : ℤ) (id pub_b64 mac_b64 : Bytes)
    → (verify_request c (some w) now (id ++ 10 ∷ []) pub_b64 mac_b64
        ≡ verify_request c (some w) now id (10 ∷ pub_b64) mac_b64)
      × (decode_key (10 ∷ pub_b64) ≡ decode_key pub_b64)
unfolding verify_request mac decode_key decode
verify_request_ambiguous c w now id pub_b64 mac_b64 = (
  ap
      (λ message. if w.used || ltb_ℤ w.expires now then false else elim (decode std mac_b64) [
        | none ↦ false
        | some got ↦ bytes_eq (c.hmac_sha256 w.secret message) got
      ])
      (message_ambiguous id pub_b64),
  refl,
)
