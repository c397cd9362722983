-- ===== src/Base64/RoundTrip.antt =====
-- Decoding undoes encoding, in both encodings.
use lockping_agent.Prelude.{
  ℕ, ◌+◌, ◌*◌, ◌/◌, ◌%◌, ◌<◌, false, [], ◌∷◌, ◌++◌, none, some, ◌≡◌, refl, ◌⊎◌, inl, inr, arith,
  Bytes, AllBytes,
}
use lockping_agent.Base64.{
  Encoding, std, raw_url, symbol, value, pad, encode, decode, groups, group, skip_line_ends,
  is_line_end, short_two, short_three, last_one, last_two, one_byte, two_bytes, three_bytes,
}

-- What the two encodings share: their last two symbols are no other symbol, padding or line end.
abbrev IsAlphabet : Encoding → Type 0
IsAlphabet e = ((e.sym62 ≡ b'+') × (e.sym63 ≡ b'/')) ⊎ ((e.sym62 ≡ b'-') × (e.sym63 ≡ b'_'))

module _ (e : Encoding) (alphabet : IsAlphabet e) where
  value-symbol : (v : ℕ) → v < 64 → value e (symbol e v) ≡ some v
  unfolding value symbol
  value-symbol v h = ground arith

  symbol_keeps : (v : ℕ) → is_line_end (symbol e v) ≡ false
  unfolding is_line_end symbol
  symbol_keeps v = ground arith

  skip-symbol :
      (v : ℕ) (s : Bytes) → skip_line_ends (symbol e v ∷ s) ≡ symbol e v ∷ skip_line_ends s
  unfolding skip_line_ends
  skip-symbol v s = rw (symbol_keeps v)

  skip-pad_one : skip_line_ends (pad e (b'=' ∷ [])) ≡ pad e (b'=' ∷ [])
  unfolding skip_line_ends pad is_line_end
  skip-pad_one = ground arith

  skip-pad_two : skip_line_ends (pad e (b'=' ∷ b'=' ∷ [])) ≡ pad e (b'=' ∷ b'=' ∷ [])
  unfolding skip_line_ends pad is_line_end
  skip-pad_two = ground arith

  -- An encoded text holds no line end.
  skip-encode : (s : Bytes) → skip_line_ends (encode e s) ≡ encode e s
  unfolding encode
  skip-encode [] = unfold skip_line_ends in refl
  skip-encode (a ∷ []) = simp (skip-symbol, skip-pad_two)
  skip-encode (a ∷ b ∷ []) = simp (skip-symbol, skip-pad_one)
  skip-encode (a ∷ b ∷ c ∷ r) = simp (skip-symbol, skip-encode r)

  pad_value : value e b'=' ≡ none
  unfolding value
  pad_value = ground arith

  groups-one :
      (x y : ℕ)
      → x < 64
      → y < 64
      → groups e (symbol e x ∷ symbol e y ∷ pad e (b'=' ∷ b'=' ∷ [])) ≡ some (one_byte x y)
  unfolding groups group pad short_two last_one
  groups-one x y hx hy = ground (arith, value-symbol x, value-symbol y, pad_value)

  groups-two :
      (x y z : ℕ)
      → x < 64
      → y < 64
      → z < 64
      → groups e (symbol e x ∷ symbol e y ∷ symbol e z ∷ pad e (b'=' ∷ [])) ≡ some (two_bytes x y z)
  unfolding groups group pad short_three last_two
  groups-two x y z hx hy hz =
      ground (arith, value-symbol x, value-symbol y, value-symbol z, pad_value)

  group-symbols :
      (x y z w : ℕ) (r : Bytes) (t : Bytes)
      → x < 64
      → y < 64
      → z < 64
      → w < 64
      → group e (symbol e x) (symbol e y) (symbol e z) (symbol e w) r (some t)
        ≡ some (three_bytes x y z w ++ t)
  unfolding group
  group-symbols x y z w r t hx hy hz hw =
      ground (arith, value-symbol x, value-symbol y, value-symbol z, value-symbol w)

  groups-encode : (s : Bytes) → AllBytes s → groups e (encode e s) ≡ some s
  unfolding encode groups
  groups-encode [] _ = refl
  groups-encode (a ∷ []) h =
      rw (groups-one (a / 4) (a % 4 * 16) (omega arith) (omega arith))
        (unfold one_byte in ground arith)
  groups-encode (a ∷ b ∷ []) h =
      rw
        (groups-two (a / 4) (a % 4 * 16 + b / 16) (b % 16 * 4) (omega arith) (omega arith)
          (omega arith))
        (unfold two_bytes in ground arith)
  groups-encode (a ∷ b ∷ c ∷ r) (ha, (hb, (hc, hr))) = rw (groups-encode r hr) (
      rw
        (group-symbols (a / 4) (a % 4 * 16 + b / 16) (b % 16 * 4 + c / 64) (c % 64) (encode e r) r
          (omega arith) (omega arith) (omega arith) (omega arith))
        (unfold three_bytes in ground arith))

  -- For every string of bytes.
  decode-encode : (s : Bytes) → AllBytes s → decode e (encode e s) ≡ some s
  unfolding decode
  decode-encode s h = rw (skip-encode s) (groups-encode s h)

-- Decoding by `StdEncoding` gives back every byte string that it encoded.
pub decode-encode-std : (s : Bytes) → AllBytes s → decode std (encode std s) ≡ some s
decode-encode-std s h = decode-encode std (inl (refl, refl)) s h

-- Decoding by `RawURLEncoding` gives back every byte string that it encoded.
pub decode-encode-raw_url : (s : Bytes) → AllBytes s → decode raw_url (encode raw_url s) ≡ some s
decode-encode-raw_url s h = decode-encode raw_url (inr (refl, refl)) s h
