-- ===== src/Tests/Secure.antt =====
-- Two peers with keys, a pairing window, and an allowlist.
use lockping_agent.Prelude.{
  true, false, [], ◌∷◌, ◌++◌, none, some, ◌≡◌, refl, ◌⊎◌, ◌↔◌, arith, Bytes, codes, bytes_eq,
  has_prefix, drop, ok,
}
use lockping_agent.Prelude.Int.{pos, ◌≤ℤ◌}
use lockping_agent.Base64.{std, encode, decode}
use lockping_agent.Secure.Crypt.{is_sealed, seal, open_sealed}
use lockping_agent.Secure.Crypt.Laws.{open_sealed-seal, open_sealed_authentic}
use lockping_agent.Secure.Keys.{decode_key}
use lockping_agent.Secure.Pairing.{Window, label_request, mac, verify_request}
use lockping_agent.Secure.Pairing.Laws.{verify_request_iff, verify_request_ambiguous}
use lockping_agent.Secure.Devices
use lockping_agent.Secure.Devices.{
  DeviceInfo, DeviceStore, Write, written, failed, missing, load_devices, list, count,
}
use lockping_agent.Secure.Devices.Laws.{Persisted, get-remove}
use lockping_agent.Prelude.Maps.{lookup, delete}
use lockping_agent.Quote.{quote}
use lockping_agent.Tests.Toy.{sum, open_tagged, toy, toy-IsSound, agent_keys, phone_keys}

abbrev nonce : Bytes
nonce = codes "twenty-four random bytes"

open_sealed-seal_example :
    (sealed : Bytes) × (seal toy (ok nonce) (codes "hello") phone_keys.pub_key agent_keys
      ≡ ok sealed)
    × (is_sealed sealed ≡ true)
    × (open_sealed toy sealed agent_keys.pub_key phone_keys ≡ some (codes "hello"))
open_sealed-seal_example =
    open_sealed-seal toy toy-IsSound nonce (codes "hello") agent_keys phone_keys refl refl refl
      (ground arith) (ground arith)

abbrev sealed_hello : Bytes
sealed_hello =
    codes "e1:"
    ++ encode std
        (nonce ++ toy.box_seal (codes "hello") nonce agent_keys.pub_key phone_keys.priv_key)

opened_hello : open_sealed toy sealed_hello phone_keys.pub_key agent_keys ≡ some (codes "hello")
unfolding open_sealed is_sealed encode decode open_tagged sum has_prefix
opened_hello = refl

open_sealed_authentic_example :
    (is_sealed sealed_hello ≡ true)
    × ((used : Bytes) × (decode std (drop 3 sealed_hello)
          ≡ some
              (used ++ toy.box_seal (codes "hello") used phone_keys.pub_key agent_keys.priv_key)))
open_sealed_authentic_example =
    open_sealed_authentic toy toy-IsSound sealed_hello phone_keys.pub_key agent_keys
      {plain = codes "hello"} opened_hello

abbrev window : Window
window = record {
  secret = codes "thirty-two bytes of shared secret";
  expires = pos 100;
  used = false;
}

verify_request_iff_example :
    (verify_request toy (some window) (pos 100) (codes "phone") (codes "key") (codes "AA==") ≡ true)
    ↔ ((w : Window) × (some window ≡ some w)
        × (w.used ≡ false)
        × (pos 100 ≤ℤ w.expires)
        × (decode std (codes "AA==")
            ≡ some (mac toy w (label_request ∷ codes "phone" ∷ codes "key" ∷ []))))
verify_request_iff_example =
    verify_request_iff toy (some window) (pos 100) (codes "phone") (codes "key") (codes "AA==")

verify_request_ambiguous_example :
    (verify_request toy
        (some window)
        (pos 9)
        (codes "phone" ++ 10 ∷ [])
        (codes "key")
        (codes "AA==")
      ≡ verify_request toy (some window) (pos 9) (codes "phone") (10 ∷ codes "key") (codes "AA=="))
    × (decode_key (10 ∷ codes "key") ≡ decode_key (codes "key"))
verify_request_ambiguous_example =
    verify_request_ambiguous toy window (pos 9) (codes "phone") (codes "key") (codes "AA==")

abbrev empty_store : DeviceStore
empty_store = record { path = codes "devices.json"; devices = []; file = missing }

abbrev phone_b64 : Bytes
phone_b64 = encode std phone_keys.pub_key

good_key : decode_key phone_b64 ≡ ok phone_keys.pub_key
unfolding decode_key encode decode
good_key = refl

abbrev paired_store : DeviceStore
paired_store =
    (unfold Devices.add in
      (Devices.add empty_store (codes "phone") phone_b64 (codes "Pixel") (pos 7) written).0)

get-remove_example :
    (Devices.get (Devices.remove paired_store (codes "phone") written).0 (codes "phone") ≡ none)
    × (((lookup (codes "phone") paired_store.devices ≡ none)
          × (Devices.remove paired_store (codes "phone") written
              ≡ (paired_store, some (codes "secure: onbekend device " ++ quote (codes "phone")))))
        ⊎ ((info : DeviceInfo) × (lookup (codes "phone") paired_store.devices ≡ some info)
            × Persisted
                (delete (codes "phone") paired_store.devices)
                written
                (Devices.remove paired_store (codes "phone") written).0.file
                (Devices.remove paired_store (codes "phone") written).1))
unfolding bytes_eq
get-remove_example = get-remove paired_store (codes "phone") written (codes "phone")
