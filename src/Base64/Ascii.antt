-- ===== src/Base64/Ascii.antt =====
-- An encoded text is ASCII.
use lockping_agent.Prelude.{ℕ, ◌/◌, ◌%◌, ◌*◌, ◌+◌, ◌<◌, [], ◌∷◌, arith, Bytes}
use lockping_agent.Utf8.RoundTrip.{IsAscii}
use lockping_agent.Base64.{std, symbol, pad, encode}

symbol_small : (v : ℕ) → symbol std v < 0x80
unfolding symbol
symbol_small v = ground arith

pub encode-IsAscii : (s : Bytes) → IsAscii (encode std s)
unfolding encode IsAscii pad
encode-IsAscii [] = tt
encode-IsAscii (a ∷ []) =
    (symbol_small (a / 4), (symbol_small (a % 4 * 16), (omega arith, (omega arith, tt))))
encode-IsAscii (a ∷ b ∷ []) = (
  symbol_small (a / 4),
  (symbol_small (a % 4 * 16 + b / 16), (symbol_small (b % 16 * 4), (omega arith, tt))),
)
encode-IsAscii (a ∷ b ∷ c ∷ r) = (
  symbol_small (a / 4),
  (
    symbol_small (a % 4 * 16 + b / 16),
    (symbol_small (b % 16 * 4 + c / 64), (symbol_small (c % 64), encode-IsAscii r)),
  ),
)
