-- ===== src/Identity/Uuid.antt =====
-- `newUUID` of internal/identity/identity.go.
use lockping_agent.Prelude.{
  ℕ, zero, suc, ◌-◌, ◌+◌, ◌/◌, ◌%◌, ◌<◌, ◌≤◌, [], ◌∷◌, ◌++◌, ◌≡◌, ◌≢◌, ◌∙◌, ◌⊎◌, refl, ap, arith,
  Bytes, AllBytes, All, codes, join, length, take, drop, ltb, if◌then◌else◌, Result, ok, err,
}

abbrev pub hex_digit : ℕ → ℕ
hex_digit n = if ltb n 10 then b'0' + n else b'a' + (n - 10)

-- `%x` of a byte slice.
unfoldable pub hex : Bytes → Bytes
hex [] = []
hex (b ∷ s) = hex_digit (b / 16) ∷ hex_digit (b % 16) ∷ hex s

-- `(b & 0x0f) | 0x40` and `(b & 0x3f) | 0x80`, of a byte.
abbrev pub with_version : ℕ → ℕ
with_version b = b % 16 + 0x40

abbrev pub with_variant : ℕ → ℕ
with_variant b = b % 64 + 0x80

unfoldable pub change_at : ℕ → (ℕ → ℕ) → Bytes → Bytes
change_at i f [] = []
change_at zero f (b ∷ s) = f b ∷ s
change_at (suc i) f (b ∷ s) = b ∷ change_at i f s

unfoldable pub uuid : Bytes → Bytes
unfolding hex
uuid b =
    join
      (hex (take 4 b)
        ∷ hex (take 2 (drop 4 b))
        ∷ hex (take 2 (drop 6 b))
        ∷ hex (take 2 (drop 8 b))
        ∷ hex (take 6 (drop 10 b))
        ∷ [])
      (codes "-")

-- The argument is what the source of randomness gives: 16 bytes, or an error.
unfoldable pub new_uuid : Result Bytes → Result Bytes
unfolding uuid change_at
new_uuid (err e) = err (codes "identity: entropy: " ++ e)
new_uuid (ok b) = ok (uuid (change_at 8 with_variant (change_at 6 with_version b)))

ok_inj : (s t : Bytes) → ok s ≡ ok t → s ≡ t
ok_inj s t h = cc

joined : (a rest : Bytes) → a ++ 45 ∷ rest ≢ []
joined [] rest e = ground arith
joined (x ∷ a) rest e = ground arith

pub new_uuid_filled : (random : Result Bytes) {s : Bytes} → new_uuid random ≡ ok s → s ≢ []
unfolding new_uuid uuid join
new_uuid_filled (err e) h empty = ground arith
new_uuid_filled (ok b) {s} h empty =
    let b' = change_at 8 with_variant (change_at 6 with_version b) in
    joined (hex (take 4 b')) _ (ok_inj _ s h ∙ empty)

-- A lower-case hexadecimal digit.
abbrev pub IsHex : ℕ → Type 0
IsHex d = ((b'0' ≤ d) × (d ≤ b'9')) ⊎ ((b'a' ≤ d) × (d ≤ b'f'))

-- `8-4-4-4-12` digits, the first of the third group a 4, that of the fourth an 8, 9, a or b.
pub record IsUuid (s : Bytes) : Type 0 where
  pub low : Bytes
  pub mid : Bytes
  pub high : Bytes
  pub variant : ℕ
  pub seq : Bytes
  pub node : Bytes
  pub spelled : s ≡ join (low ∷ mid ∷ (b'4' ∷ high) ∷ (variant ∷ seq) ∷ node ∷ []) (codes "-")
  pub sizes :
      (length low ≡ 8)
      × (length mid ≡ 4)
      × (length high ≡ 3)
      × (length seq ≡ 3)
      × (length node ≡ 12)
  pub variant_digit : (variant ≡ b'8') ⊎ ((variant ≡ b'9') ⊎ ((variant ≡ b'a') ⊎ (variant ≡ b'b')))
  pub digits : All IsHex low × All IsHex mid × All IsHex high × All IsHex seq × All IsHex node

hex_digit-IsHex : (n : ℕ) → n < 16 → IsHex (hex_digit n)
hex_digit-IsHex n h = ground arith

hex-IsHex : (s : Bytes) → AllBytes s → All IsHex (hex s)
unfolding hex
hex-IsHex [] _ = tt
hex-IsHex (b ∷ s) (h, hs) = (
  hex_digit-IsHex (b / 16) (omega arith),
  (hex_digit-IsHex (b % 16) (omega arith), hex-IsHex s hs),
)

version_lem : (b : ℕ) → hex_digit (with_version b / 16) ≡ b'4'
version_lem b = ground arith

variant_of : ℕ → ℕ
variant_of b = hex_digit (with_variant b / 16)

variant_lem :
    (b : ℕ)
    → (variant_of b ≡ b'8')
      ⊎ ((variant_of b ≡ b'9') ⊎ ((variant_of b ≡ b'a') ⊎ (variant_of b ≡ b'b')))
unfolding variant_of
variant_lem b = ground arith

-- Of any sixteen random bytes the new id is a UUID of version 4.
pub new_uuid-IsUuid :
    (b0 b1 b2 b3 b4 b5 b6 b7 b8 b9 b10 b11 b12 b13 b14 b15 : ℕ)
    → AllBytes
        (b0 ∷ b1 ∷ b2 ∷ b3 ∷ b4 ∷ b5 ∷ b6 ∷ b7 ∷ b8 ∷ b9 ∷ b10 ∷ b11 ∷ b12 ∷ b13 ∷ b14 ∷ b15 ∷ [])
    → (s : Bytes) × (new_uuid (
          ok (
            b0 ∷ b1 ∷ b2 ∷ b3 ∷ b4 ∷ b5 ∷ b6 ∷ b7 ∷ b8 ∷ b9 ∷ b10 ∷ b11 ∷ b12 ∷ b13 ∷ b14 ∷ b15
            ∷ []))
        ≡ ok s)
      × IsUuid s
unfolding new_uuid uuid change_at hex variant_of
new_uuid-IsUuid b0 b1 b2 b3 b4 b5 b6 b7 b8 b9 b10 b11 b12 b13 b14 b15
      (
        h0,
        (
          h1,
          (
            h2,
            (h3, (h4, (h5, (h6, (h7, (h8, (h9, (h10, (h11, (h12, (h13, (h14, (h15, _))))))))))))),
          ),
        ),
      ) =
    let low = hex (b0 ∷ b1 ∷ b2 ∷ b3 ∷ []) in
    let mid = hex (b4 ∷ b5 ∷ []) in
    let high = hex_digit (with_version b6 % 16) ∷ hex (b7 ∷ []) in
    let seq = hex_digit (with_variant b8 % 16) ∷ hex (b9 ∷ []) in
    let node = hex (b10 ∷ b11 ∷ b12 ∷ b13 ∷ b14 ∷ b15 ∷ []) in
    (
      _,
      refl,
      record {
        low = low;
        mid = mid;
        high = high;
        variant = variant_of b8;
        seq = seq;
        node = node;
        spelled =
            ap (λ d. join (low ∷ mid ∷ (d ∷ high) ∷ (variant_of b8 ∷ seq) ∷ node ∷ []) (codes "-"))
              (version_lem b6);
        sizes = (refl, refl, refl, refl, refl);
        variant_digit = variant_lem b8;
        digits = (
          hex-IsHex (b0 ∷ b1 ∷ b2 ∷ b3 ∷ []) (h0, (h1, (h2, (h3, tt)))),
          hex-IsHex (b4 ∷ b5 ∷ []) (h4, (h5, tt)),
          (hex_digit-IsHex (with_version b6 % 16) (omega arith), hex-IsHex (b7 ∷ []) (h7, tt)),
          (hex_digit-IsHex (with_variant b8 % 16) (omega arith), hex-IsHex (b9 ∷ []) (h9, tt)),
          hex-IsHex (b10 ∷ b11 ∷ b12 ∷ b13 ∷ b14 ∷ b15 ∷ [])
              (h10, (h11, (h12, (h13, (h14, (h15, tt)))))),
        );
      },
    )
