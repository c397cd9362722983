-- ===== src/Json/Parse/Text.antt =====
-- String literals: escapes, surrogate pairs, and bytes that are no UTF-8.
pub mod Unquote
pub mod Valid
use lockping_agent.Prelude.{
  ℕ, zero, suc, ◌+◌, ◌-◌, ◌*◌, ◌&&◌, ◌||◌, [], ◌∷◌, ◌++◌, Option, none, some, Bytes, ltb, ◌==◌,
  if◌then◌else◌,
}
use lockping_agent.Utf8.{rune_error, next_rune, rune_of, encode_rune, in_range}
use mathlib.Core.Option

-- Strings: `unquote`.
hex_digit : ℕ → Option ℕ
hex_digit c =
    if in_range b'0' b'9' c
    then some (c - b'0')
    else if in_range b'a' b'f' c
    then some (c - b'a' + 10)
    else if in_range b'A' b'F' c
    then some (c - b'A' + 10)
    else none

hex_four : Bytes → Option (ℕ × Bytes)
hex_four (a ∷ b ∷ c ∷ d ∷ s) = elim (hex_digit a) [
  | none ↦ none
  | some w ↦ elim (hex_digit b) [
    | none ↦ none
    | some x ↦ elim (hex_digit c) [
      | none ↦ none
      | some y ↦ Option.map (λ z. (w * 4096 + x * 256 + y * 16 + z, s)) (hex_digit d)
    ]
  ]
]
hex_four _ = none

-- What a string goes on with: its end, a piece of text, or a fault.
pub data Piece : Type 0 where
  close : Bytes → Piece
  emit : Bytes → Bytes → Piece
  bad_piece : Piece

-- A low surrogate behind the high surrogate `r`; without it `r` is replaced.
low_half : ℕ → Bytes → Option (ℕ × Bytes)
low_half r (a ∷ b ∷ s) =
    if a == b'\\' && b == b'u'
    then elim (hex_four s) [
      | none ↦ none
      | some (r', rest) ↦
          if in_range 0xd800 0xdbff r && in_range 0xdc00 0xdfff r'
          then some (0x10000 + (r - 0xd800) * 1024 + (r' - 0xdc00), rest)
          else none
    ]
    else none
low_half r _ = none

unicode_escape : Bytes → Piece
unicode_escape s = elim (hex_four s) [
  | none ↦ bad_piece
  | some (r, rest) ↦
      if in_range 0xd800 0xdfff r
      then elim (low_half r rest) [
        | none ↦ emit (encode_rune rune_error) rest
        | some (r', rest') ↦ emit (encode_rune r') rest'
      ]
      else emit (encode_rune r) rest
]

escape : Bytes → Piece
escape [] = bad_piece
escape (c ∷ s) =
    if c == b'"' || c == b'\\' || c == b'/'
    then emit (c ∷ []) s
    else if c == b'b'
    then emit (8 ∷ []) s
    else if c == b'f'
    then emit (12 ∷ []) s
    else if c == b'n'
    then emit (10 ∷ []) s
    else if c == b'r'
    then emit (13 ∷ []) s
    else if c == b't'
    then emit (9 ∷ []) s
    else if c == b'u'
    then unicode_escape s
    else bad_piece

plain : ℕ → Bytes → Piece
plain c s = let (r, rest) = next_rune c s in emit (encode_rune (rune_of r)) rest

piece : ℕ → Bytes → Piece
piece c s =
    if c == b'"'
    then close s
    else if ltb c 0x20
    then bad_piece
    else if c == b'\\'
    then escape s
    else plain c s

-- The text up to the closing quote, and what follows it.
unfoldable pub string : ℕ → Bytes → Option (Bytes × Bytes)
unfolding piece plain escape unicode_escape low_half hex_four hex_digit
string zero s = none
string (suc f) [] = none
string (suc f) (c ∷ s) = elim (piece c s) [
  | close rest ↦ some ([], rest)
  | bad_piece ↦ none
  | emit t rest ↦ elim (string f rest) [ none ↦ none | some (u, rest') ↦ some (t ++ u, rest') ]
]
