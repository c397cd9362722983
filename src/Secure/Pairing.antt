-- ===== src/Secure/Pairing.antt =====
-- internal/secure/pairing.go: the one-time pairing window and its proofs of possession.
-- Times are nanoseconds.
pub mod Laws
use lockping_agent.Prelude.{
  ℕ, ◌*◌, Bool, true, false, ◌||◌, [], ◌∷◌, ◌++◌, Option, none, some, ◌≡◌, refl, Bytes, List, codes,
  bytes_eq, join, if◌then◌else◌, Result, ok, err,
}
use lockping_agent.Prelude.Int.{ℤ, pos, ◌+ℤ◌, ltb_ℤ}
use lockping_agent.Base64.{std, raw_url, encode, decode}
use lockping_agent.Json.Print.{print_string, print_int, member, object}
use lockping_agent.Secure.Crypto.{Crypto}

pub record Window : Type 0 where
  pub secret : Bytes
  pub expires : ℤ
  pub used : Bool

-- Five minutes.
abbrev pub window_ttl : ℤ
window_ttl = pos (5 * 60 * 1000000000)

-- The first argument is what the source of randomness gives for the 32 bytes of the secret.
unfoldable pub new_window : Result Bytes → ℤ → Result (Window × Bytes)
new_window (err e) now = err (codes "secure: pairing secret: " ++ e)
new_window (ok secret) now =
    ok
      (record { secret = secret; expires = now +ℤ window_ttl; used = false }, encode raw_url secret)

unfoldable pub consume : Window → Window
consume w = record w { used = true }

unfoldable pub window_from_secret : Bytes → Result Window
window_from_secret secret_b64 = elim (decode raw_url secret_b64) [
  | none ↦ err (codes "secure: bad pairing secret encoding")
  | some secret ↦ ok (record { secret = secret; expires = pos 0; used = false })
]

abbrev pub label_request : Bytes
label_request = codes "pair_request"

abbrev pub label_accept : Bytes
label_accept = codes "pair_accept"

-- The message that a proof authenticates.
unfoldable pub proof_message : List Bytes → Bytes
unfolding join
proof_message parts = join parts (codes "\n")

module _ (c : Crypto) where
  unfoldable pub mac : Window → List Bytes → Bytes
  mac w parts = c.hmac_sha256 w.secret (proof_message parts)

  -- The window is the gateway's pointer, nil if none was opened.
  unfoldable pub verify_request : Option Window → ℤ → Bytes → Bytes → Bytes → Bool
  verify_request none now client_id client_pub_b64 mac_b64 = false
  verify_request (some w) now client_id client_pub_b64 mac_b64 =
      if w.used || ltb_ℤ w.expires now then false else elim (decode std mac_b64) [
        | none ↦ false
        | some got ↦ bytes_eq (mac w (label_request ∷ client_id ∷ client_pub_b64 ∷ [])) got
      ]

  unfoldable pub accept_mac : Window → Bytes → Bytes → Bytes
  accept_mac w agent_id agent_pub_b64 =
      encode std (mac w (label_accept ∷ agent_id ∷ agent_pub_b64 ∷ []))

  -- The client's proof.
  unfoldable pub request_mac : Bytes → Bytes → Bytes → Result Bytes
  request_mac secret_b64 client_id client_pub_b64 = elim (window_from_secret secret_b64) [
    | err e ↦ err e
    | ok w ↦ ok (encode std (mac w (label_request ∷ client_id ∷ client_pub_b64 ∷ [])))
  ]

  -- The client's check of the agent's answer.
  unfoldable pub verify_accept_mac : Bytes → Bytes → Bytes → Bytes → Bool
  verify_accept_mac secret_b64 agent_id agent_pub_b64 mac_b64 =
      elim (window_from_secret secret_b64) [
        | err e ↦ false
        | ok w ↦ elim (decode std mac_b64) [
          | none ↦ false
          | some got ↦ bytes_eq (mac w (label_accept ∷ agent_id ∷ agent_pub_b64 ∷ [])) got
        ]
      ]

-- The code that the QR or the terminal shows.
unfoldable pub encode_pair_code : Bytes → Bytes → Bytes → Bytes
encode_pair_code relay_url agent_id secret_b64 =
    codes "lockping:"
    ++ encode raw_url (
        object (
          member (codes "v") (print_int (pos 1))
          ∷ member (codes "relay") (print_string relay_url)
          ∷ member (codes "agent") (print_string agent_id)
          ∷ member (codes "secret") (print_string secret_b64)
          ∷ []))
