-- ===== src/Base64.antt =====
-- `encoding/base64` as the program uses it: `StdEncoding` (padded) for keys, MACs and sealed
-- payloads, `RawURLEncoding` (no padding) for the pairing secret and the pairing code.
pub mod RoundTrip
pub mod Ascii
use lockping_agent.Prelude.{
  ℕ, ◌+◌, ◌-◌, ◌*◌, ◌/◌, ◌%◌, Bool, true, false, ◌&&◌, ◌||◌, List, [], ◌∷◌, ◌++◌, Option, none,
  some, ◌≡◌, refl, Bytes, codes, ltb, leb, ◌==◌, if◌then◌else◌,
}
use mathlib.Core.Option

-- The two symbols that differ, and whether a last short group is padded by `=`.
pub record Encoding : Type 0 where
  pub sym62 : ℕ
  pub sym63 : ℕ
  pub padded : Bool

abbrev pub std : Encoding
std = record { sym62 = b'+'; sym63 = b'/'; padded = true }

abbrev pub raw_url : Encoding
raw_url = record { sym62 = b'-'; sym63 = b'_'; padded = false }

symbol : Encoding → ℕ → ℕ
symbol e v =
    if ltb v 26
    then b'A' + v
    else if ltb v 52
    then b'a' + (v - 26)
    else if ltb v 62
    then b'0' + (v - 52)
    else if v == 62
    then e.sym62
    else e.sym63

-- `decodeMap`
value : Encoding → ℕ → Option ℕ
value e c =
    if leb b'A' c && leb c b'Z'
    then some (c - b'A')
    else if leb b'a' c && leb c b'z'
    then some (26 + (c - b'a'))
    else if leb b'0' c && leb c b'9'
    then some (52 + (c - b'0'))
    else if c == e.sym62
    then some 62
    else if c == e.sym63
    then some 63
    else none

pad : Encoding → Bytes → Bytes
pad e p = if e.padded then p else []

-- `EncodeToString`
unfoldable pub encode : Encoding → Bytes → Bytes
unfolding symbol pad
encode e [] = []
encode e (a ∷ []) = symbol e (a / 4) ∷ symbol e (a % 4 * 16) ∷ pad e (b'=' ∷ b'=' ∷ [])
encode e (a ∷ b ∷ []) =
    symbol e (a / 4) ∷ symbol e (a % 4 * 16 + b / 16) ∷ symbol e (b % 16 * 4) ∷ pad e (b'=' ∷ [])
encode e (a ∷ b ∷ c ∷ r) =
    symbol e (a / 4)
    ∷ symbol e (a % 4 * 16 + b / 16)
    ∷ symbol e (b % 16 * 4 + c / 64)
    ∷ symbol e (c % 64)
    ∷ encode e r

-- The decoder skips line ends wherever they stand.
is_line_end : ℕ → Bool
is_line_end c = c == 10 || c == 13

skip_line_ends : Bytes → Bytes
skip_line_ends [] = []
skip_line_ends (c ∷ s) = if is_line_end c then skip_line_ends s else c ∷ skip_line_ends s

one_byte : ℕ → ℕ → Bytes
one_byte x y = (x * 4 + y / 16) ∷ []

two_bytes : ℕ → ℕ → ℕ → Bytes
two_bytes x y z = (x * 4 + y / 16) ∷ (y % 16 * 16 + z / 4) ∷ []

three_bytes : ℕ → ℕ → ℕ → ℕ → Bytes
three_bytes x y z w = (x * 4 + y / 16) ∷ (y % 16 * 16 + z / 4) ∷ (z % 4 * 64 + w) ∷ []

-- What follows a group's second symbol when its third is no symbol: the padding `==`, at the end.
last_one : Encoding → ℕ → ℕ → ℕ → ℕ → Bytes → Option Bytes
last_one e x y c d [] = if e.padded && (c == b'=' && d == b'=') then some (one_byte x y) else none
last_one e x y c d (_ ∷ _) = none

-- A group of three symbols and the padding `=`, at the end.
last_two : Encoding → ℕ → ℕ → ℕ → ℕ → Bytes → Option Bytes
last_two e x y z d [] = if e.padded && d == b'=' then some (two_bytes x y z) else none
last_two e x y z d (_ ∷ _) = none

-- One group of four characters, and how the rest decodes: `decodeQuantum`.
group : Encoding → ℕ → ℕ → ℕ → ℕ → Bytes → Option Bytes → Option Bytes
group e a b c d r rest = elim (value e a) [
  | none ↦ none
  | some x ↦ elim (value e b) [
    | none ↦ none
    | some y ↦ elim (value e c) [
      | none ↦ last_one e x y c d r
      | some z ↦ elim (value e d) [
        | none ↦ last_two e x y z d r
        | some w ↦ Option.map (λ t. three_bytes x y z w ++ t) rest
      ]
    ]
  ]
]

-- A short last group, which only the unpadded encoding has.
short_two : Encoding → ℕ → ℕ → Option Bytes
short_two e a b =
    if e.padded
    then none
    else elim (value e a) [ none ↦ none | some x ↦ Option.map (λ y. one_byte x y) (value e b) ]

short_three : Encoding → ℕ → ℕ → ℕ → Option Bytes
short_three e a b c = if e.padded then none else elim (value e a) [
  | none ↦ none
  | some x ↦ elim (value e b) [
    | none ↦ none
    | some y ↦ Option.map (λ z. two_bytes x y z) (value e c)
  ]
]

groups : Encoding → Bytes → Option Bytes
groups e [] = some []
groups e (a ∷ []) = none
groups e (a ∷ b ∷ []) = short_two e a b
groups e (a ∷ b ∷ c ∷ []) = short_three e a b c
groups e (a ∷ b ∷ c ∷ d ∷ r) = group e a b c d r (groups e r)

-- `DecodeString`; the error says only where the input is corrupt, and no caller reads it.
unfoldable pub decode : Encoding → Bytes → Option Bytes
unfolding groups group short_two short_three last_one last_two one_byte two_bytes three_bytes value
    skip_line_ends is_line_end
decode e s = groups e (skip_line_ends s)

encode_padded : encode std (codes "light w") ≡ codes "bGlnaHQgdw=="
unfolding encode
encode_padded = refl

decode_unpadded : decode raw_url (codes "bGlnaHQgdw") ≡ some (codes "light w")
unfolding decode
decode_unpadded = refl

decode_wrapped : decode std (codes "bGln\naHQgdw=\n=") ≡ some (codes "light w")
unfolding decode
decode_wrapped = refl

decode_refused : (decode std (codes "bGlnaHQgdw") ≡ none) × (decode std (codes "bG=naHQg") ≡ none)
unfolding decode
decode_refused = (refl, refl)
