-- ===== src/Secure/Crypt/Laws.antt =====
-- Sealing and opening together (internal/secure/crypt.go).
use lockping_agent.Prelude.{
  ◌≤◌, true, some, ◌++◌, ◌≡◌, refl, ap, sym, ◌∙◌, arith, Bytes, length, take, drop,
  has_prefix-append, ok, AllBytes, All-append, IsByte, length-append, take-append, drop-append,
  take-append-drop, Option-cases, inl, inr,
}
use lockping_agent.Base64.{std, encode, decode}
use lockping_agent.Base64.RoundTrip.{decode-encode-std}
use lockping_agent.Secure.Crypto.{Crypto, IsSound}
use lockping_agent.Secure.Keys.{Keys}
use lockping_agent.Secure.Crypt.{sealed_prefix, nonce_size, is_sealed, seal, open_sealed}

abbrev pub IsPair : Crypto → Keys → Type 0
IsPair c keys = keys.pub_key ≡ c.public_key keys.priv_key

open_of_raw :
    (c : Crypto) (sealed raw peer : Bytes) (keys : Keys)
    → is_sealed sealed ≡ true
    → decode std (drop 3 sealed) ≡ some raw
    → nonce_size ≤ length raw
    → open_sealed c sealed peer keys
      ≡ c.box_open (drop nonce_size raw) (take nonce_size raw) peer keys.priv_key
unfolding open_sealed
open_of_raw c sealed raw peer keys prefixed decoded size =
    rw (prefixed, decoded, open_sealed) (ground arith)

module _ (c : Crypto) (sound : IsSound c) where
  -- What one side seals for the other's public key, under any nonce of 24 bytes, the other side
  -- opens with its own keys and the first side's public key.
  pub open_sealed-seal :
      (nonce plain : Bytes) (a b : Keys)
      → IsPair c a
      → IsPair c b
      → length nonce ≡ nonce_size
      → AllBytes nonce
      → AllBytes plain
      → (sealed : Bytes) × (seal c (ok nonce) plain b.pub_key a ≡ ok sealed)
        × (is_sealed sealed ≡ true)
        × (open_sealed c sealed a.pub_key b ≡ some plain)
  unfolding seal is_sealed
  open_sealed-seal nonce plain a b pair_a pair_b size bytes text =
      let box = c.box_seal plain nonce b.pub_key a.priv_key in
      let prefixed = has_prefix-append sealed_prefix (encode std (nonce ++ box)) in
      let decoded =
        decode-encode-std (nonce ++ box)
          (All-append IsByte nonce box bytes (sound.seal-AllBytes plain nonce _ _ text)) in
      (
        sealed_prefix ++ encode std (nonce ++ box),
        refl,
        prefixed,
        open_of_raw c _ (nonce ++ box) a.pub_key b prefixed decoded
              (omega (arith, length-append nonce box))
            ∙ rw
                (
                  take-append nonce_size nonce box size,
                  drop-append nonce_size nonce box size,
                  pair_a,
                  pair_b,
                )
                (sound.open-seal plain nonce a.priv_key b.priv_key),
      )

  -- Whatever opens under a peer's public key is base64 of a nonce and of the box of the opened
  -- text between the two keys under this nonce.
  pub open_sealed_authentic :
      (sealed peer : Bytes) (keys : Keys) {plain : Bytes}
      → open_sealed c sealed peer keys ≡ some plain
      → (is_sealed sealed ≡ true)
        × ((nonce : Bytes) × (decode std (drop 3 sealed)
              ≡ some (nonce ++ c.box_seal plain nonce peer keys.priv_key)))
  unfolding open_sealed
  open_sealed_authentic sealed peer keys {plain} h =
      elim (Option-cases (decode std (drop 3 sealed))) [
        | inl undecodable ↦ ground arith
        | inr (raw, decoded) ↦
            let opened : c.box_open (drop nonce_size raw) (take nonce_size raw) peer keys.priv_key
                ≡ some plain =
              ground arith in
            (
              ground arith,
              (
                take nonce_size raw,
                decoded
                    ∙ ap some (
                        rw (← sound.open_authentic _ _ _ _ opened)
                          (sym (take-append-drop nonce_size raw))),
              ),
            )
      ]
