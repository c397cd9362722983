-- ===== src/Tests/Gateway.antt =====
-- A pair request of the phone, and what comes after it.
use lockping_agent.Prelude.{
  true, false, [], ◌∷◌, none, some, ◌≡◌, ◌≢◌, refl, ◌⊎◌, arith, Bytes, codes, bytes_eq, has_prefix,
  ok,
}
use lockping_agent.Prelude.Int.{pos, ◌-ℤ◌}
use lockping_agent.Base64.{raw_url, encode, decode}
use lockping_agent.Utf8.{runes, encode_runes}
use lockping_agent.Wire.{Payload}
use lockping_agent.Wire.Codec
use lockping_agent.Secure.Keys.{encode_key, decode_key}
use lockping_agent.Secure.Crypt.{is_sealed}
use lockping_agent.Secure.Pairing.{
  Window, new_window, mac, proof_message, verify_request, verify_accept_mac,
}
use lockping_agent.Secure.Devices
use lockping_agent.Secure.Devices.{
  DeviceInfo, DeviceStore, DeviceFile, Write, written, failed, missing,
}
use lockping_agent.Gateway.{Outside, pairing, handle}
use lockping_agent.Gateway.Name.{max_name, sanitize_name}
use lockping_agent.Gateway.Name.Reference.{shown_runes, sanitize_name-take}
use lockping_agent.Prelude.{Option, take, get_elem?}
use lockping_agent.Gateway.{Gateway, open_pairing, pair_through, admit}
use lockping_agent.Gateway.Windows.{IsSpent}
use lockping_agent.Gateway.Flight.{Passes, in_flight}
use lockping_agent.Gateway.Pair.{Requested}
use lockping_agent.Gateway.Boundary.{devices_boundary}
use lockping_agent.Gateway.Once.{message, unpair, run, code_pairs_once}
use lockping_agent.Gateway.Answer.{request_is_answered, unsaved_is_trusted, pairing-handle}
use lockping_agent.Tests.Toy.{sum, toy, toy-IsSound, screen, agent_keys, phone_keys}
use lockping_agent.Tests.Phone.{
  open_window, store, gateway, outside, request, request_text, request_decoded, request_verified,
  good_key,
}

requested :
    (outcome : Write) → Requested toy (gateway []) (codes "phone") request_text (outside outcome)
requested outcome = record {
  request = request;
  index = 0;
  window = open_window;
  plain = (unfold is_sealed has_prefix in refl);
  decoded = request_decoded;
  is_request = refl;
  current = refl;
  found = refl;
  verified = request_verified;
}

request_is_answered_example :
    (accept : Payload) × (reply : Bytes) × (Codec.encode accept ≡ ok reply)
    × ((handle toy screen (gateway []) false (codes "phone") request_text (outside written)).1
        ≡ some reply)
    × (Devices.get
          (handle toy screen
            (gateway [])
            false
            (codes "phone")
            request_text
            (outside written)).0.0.devices
          (codes "phone")
        ≡ some phone_keys.pub_key)
    × (accept.pub_key ≡ encode_key agent_keys.pub_key)
    × (verify_accept_mac toy
          (encode raw_url open_window.secret)
          (codes "agent-1")
          accept.pub_key
          accept.mac
        ≡ true)
unfolding requested encode
request_is_answered_example =
    request_is_answered toy toy-IsSound screen (gateway []) false (codes "phone") request_text
      phone_keys.pub_key (outside written) (requested written) good_key refl (ground arith)

abbrev disk_full : Write
disk_full = failed (codes "disk full") missing

unsaved_is_trusted_example :
    ((handle toy screen (gateway []) false (codes "phone") request_text (outside disk_full)).1
      ≡ none)
    × (Devices.get
          (handle toy screen
            (gateway [])
            false
            (codes "phone")
            request_text
            (outside disk_full)).0.0.devices
          (codes "phone")
        ≡ some phone_keys.pub_key)
    × ((handle toy screen
          (gateway [])
          false
          (codes "phone")
          request_text
          (outside disk_full)).0.0.windows
        ≡ open_window ∷ [])
unfolding requested encode
unsaved_is_trusted_example =
    unsaved_is_trusted toy screen (gateway []) false (codes "phone") request_text phone_keys.pub_key
      (codes "disk full") missing (outside disk_full) (requested disk_full) good_key refl

answered :
    (reply : Bytes) × ((handle toy screen
        (gateway [])
        false
        (codes "phone")
        request_text
        (outside written)).1
      ≡ some reply)
unfolding requested encode
answered =
    let (_, reply, _, answer, _, _, _) =
      request_is_answered toy toy-IsSound screen (gateway []) false (codes "phone") request_text
        phone_keys.pub_key (outside written) (requested written) good_key refl (ground arith) in
    (reply, answer)

code_pairs_once_example :
    let after = run toy screen (gateway []) false (
      message (codes "phone") request_text (outside written)
      ∷ unpair (codes "phone") written
      ∷ []) in
    handle toy screen after.0 after.1 (codes "mallory") request_text (outside written)
    ≡ (after, none)
code_pairs_once_example =
    code_pairs_once toy screen (gateway []) false (codes "phone") request_text (outside written)
      {reply = answered.0} (unpair (codes "phone") written ∷ []) (codes "mallory") request_text
      (outside written) (unfold is_sealed has_prefix in refl) answered.1 (tt, tt)
      (unfold is_sealed has_prefix in refl)

devices_boundary_example :
    (Devices.get
        (handle toy screen
          (gateway [])
          false
          (codes "phone")
          request_text
          (outside written)).0.0.devices
        (codes "tablet")
      ≡ Devices.get (store []) (codes "tablet"))
    ⊎ (Requested toy (gateway []) (codes "phone") request_text (outside written)
        × (codes "phone" ≡ codes "tablet"))
devices_boundary_example =
    devices_boundary toy screen (gateway []) false (codes "phone") request_text (outside written)
      (codes "tablet")

pairing-handle_example :
    pairing
      (handle toy screen (gateway []) false (codes "phone") request_text (outside written)).0.0
      (pos 50)
    ≡ some (codes "lockping:code", pos 50)
unfolding pairing ◌-ℤ◌
pairing-handle_example =
    pairing-handle toy screen (gateway []) false (codes "phone") request_text (outside written)
      (pos 50)

cleaned : sanitize_name (codes "Pixel\n8") ≡ codes "Pixel8"
unfolding sanitize_name runes encode_runes
cleaned = refl

sanitize_name-take_example :
    sanitize_name (codes "Pixel\n8")
    ≡ encode_runes (take max_name (shown_runes (runes (codes "Pixel\n8"))))
sanitize_name-take_example = sanitize_name-take (codes "Pixel\n8")

-- The UI opens a second window while the request is in flight.
abbrev reopening : Outside
reopening = outside written

abbrev late_result : Gateway × Option Bytes
late_result =
    pair_through toy (open_pairing (gateway []) reopening).0 (some 0) (codes "phone") request
      (outside written)

answered_meanwhile : late_result.1 ≢ none
unfolding pair_through open_pairing new_window verify_request decode encode mac sum proof_message
    bytes_eq Devices.add decode_key Codec.encode
answered_meanwhile e = cc

in_flight_example :
    ((Passes toy open_window (codes "phone") request (outside written) true
        × (late_result
            ≡ admit toy
                (open_pairing (gateway []) reopening).0
                0
                open_window
                (codes "phone")
                request
                (outside written))
        × ((late_result.1 ≡ none) ⊎ IsSpent 0 late_result.0))
      ⊎ (Passes toy open_window (codes "phone") request (outside written) false
          × (late_result ≡ ((open_pairing (gateway []) reopening).0, none))))
    × ((fresh : Window) × (late_result.0.window ≡ some 1)
        × (get_elem? late_result.0.windows 1 ≡ some fresh)
        × (fresh.used ≡ false)
        × (fresh.secret ≡ codes "twenty-four random bytes"))
in_flight_example =
    in_flight toy (gateway []) 0 (codes "phone") request reopening (outside written)
      {w = open_window} refl refl
