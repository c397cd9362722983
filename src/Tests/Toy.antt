-- ===== src/Tests/Toy.antt =====
-- A sound stand-in for the cryptography, a session that a Boolean stands for, and two peers.
use lockping_agent.Prelude.{
  ℕ, ◌+◌, ◌%◌, Bool, true, [], ◌∷◌, Option, none, some, ◌≡◌, arith, Bytes, codes, ◌==◌,
  if◌then◌else◌, ok,
}
use lockping_agent.Session.{Controller}
use lockping_agent.Secure.Crypto.{Crypto, IsSound}
use lockping_agent.Secure.Keys.{Keys}

unfoldable pub sum : Bytes → ℕ
sum [] = 0
sum (b ∷ s) = b + sum s

-- The byte that stands for an authenticator.
abbrev tag : Bytes → Bytes → ℕ
tag peer priv = (sum peer + sum priv) % 256

unfoldable pub open_tagged : Bytes → ℕ → Option Bytes
open_tagged [] t = none
open_tagged (u ∷ msg) t = if u == t then some msg else none

abbrev pub toy : Crypto
toy = record {
  hmac_sha256 = λ key msg. (sum key + sum msg) % 256 ∷ [];
  sha256 = λ s. sum s % 256 ∷ [];
  x25519 = λ priv peer. ok (tag peer priv ∷ []);
  public_key = λ priv. priv;
  box_seal = λ msg nonce peer priv. tag peer priv ∷ msg;
  box_open = λ box nonce peer priv. open_tagged box (tag peer priv);
}

open-seal_toy : (msg a b : Bytes) → open_tagged (tag b a ∷ msg) (tag a b) ≡ some msg
unfolding open_tagged
open-seal_toy msg a b = ground arith

open_authentic_toy : (box msg : Bytes) (t : ℕ) → open_tagged box t ≡ some msg → box ≡ t ∷ msg
unfolding open_tagged
open_authentic_toy [] msg t h = ground arith
open_authentic_toy (u ∷ box) msg t h = ground arith

pub toy-IsSound : IsSound toy
toy-IsSound = record {
  hmac-AllBytes = λ key msg. (omega arith, tt);
  seal-AllBytes = λ msg nonce peer priv bytes. (omega arith, bytes);
  open-seal = λ msg nonce a b. open-seal_toy msg a b;
  open_authentic = λ box nonce peer priv {msg} h. open_authentic_toy box msg (tag peer priv) h;
}

-- A session that is locked or not, and locks without an error.
abbrev pub screen : Controller Bool
screen = record { locked = λ s. ok s; lock = λ _. (true, none) }

abbrev pub agent_keys : Keys
agent_keys = record {
  pub_key = codes "agent's key of thirty-two bytes!";
  priv_key = codes "agent's key of thirty-two bytes!";
}

abbrev pub phone_keys : Keys
phone_keys = record {
  pub_key = codes "phone's key of thirty-two bytes!";
  priv_key = codes "phone's key of thirty-two bytes!";
}
