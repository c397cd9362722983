-- ===== src/Json/Parse/Members/Names.antt =====
-- The names of members that need no escape.
use lockping_agent.Prelude.{ℕ, Bool, true, ◌||◌, ◌&&◌, [], ◌∷◌, ◌≡◌, refl, arith, Bytes, inl, ◌==◌}
use lockping_agent.Utf8.{encode_rune, encode_runes, in_range}
use lockping_agent.Utf8.RoundTrip.{IsRune}
use lockping_agent.Json.Print.{ascii}
use lockping_agent.Json.Print.Printed.{printed_rune, printed}
use lockping_agent.Json.Parse.Members.{IsPlain}

unfoldable pub is_name : Bytes → Bool
is_name [] = true
is_name (c ∷ s) = (in_range b'a' b'z' c || c == b'_') && is_name s

name-IsRune :
    (c : ℕ)
    → in_range b'a' b'z' c || c == b'_' ≡ true
    → IsRune c × (printed_rune c ≡ c ∷ []) × (encode_rune c ≡ c ∷ [])
unfolding printed_rune ascii encode_rune
name-IsRune c h = (inl (ground arith), ground arith, ground arith)

-- A name of small letters and underlines is printed as it is.
pub is_name-IsPlain : (s : Bytes) → is_name s ≡ true → IsPlain s
unfolding is_name printed encode_runes
is_name-IsPlain [] h = (tt, refl, refl)
is_name-IsPlain (c ∷ s) h =
    let (valid, shown, own) = name-IsRune c (ground arith) in
    let (valids, showns, owns) = is_name-IsPlain s (ground arith) in
    ((valid, valids), rw (shown, showns), rw (own, owns))
