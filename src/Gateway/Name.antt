-- ===== src/Gateway/Name.antt =====
-- `sanitizeName` of internal/gateway/gateway.go.
pub mod Reference
use lockping_agent.Prelude.{
  ℕ, ◌+◌, ◌≤◌, ◌<◌, Bool, false, not, ◌&&◌, List, [], ◌∷◌, ◌++◌, ◌≡◌, ◌≢◌, refl, sym, ◌∙◌, arith,
  All, All-append, Bytes, length, length-append, append_assoc, append-nil, leb, ◌==◌, if◌then◌else◌,
  Bool-cases, inl, inr,
}
use lockping_agent.Utf8.{runes, encode_runes}
use lockping_agent.Utf8.RoundTrip.{IsRune, runes-encode_runes, runes-IsRune}

abbrev pub max_name : ℕ
max_name = 40

abbrev is_shown : ℕ → Bool
is_shown r = leb 32 r && not (r == 127)

abbrev kept : List ℕ → ℕ → List ℕ
kept clean r = if is_shown r then clean ++ r ∷ [] else clean

-- The loop stops as soon as there are 40 runes.
sanitize : List ℕ → List ℕ → List ℕ
sanitize clean [] = clean
sanitize clean (r ∷ rs) =
    let rest = sanitize (kept clean r) rs in
    if leb max_name (length (kept clean r)) then kept clean r else rest

unfoldable pub sanitize_name : Bytes → Bytes
unfolding sanitize
sanitize_name name = encode_runes (sanitize [] (runes name))

abbrev pub IsShown : ℕ → Type 0
IsShown r = (32 ≤ r) × (r ≢ 127)

-- Held of the runes collected so far.
record IsClean (clean : List ℕ) : Type 0 where
  shown : All IsShown clean
  valid : All IsRune clean

kept-IsClean : (clean : List ℕ) (r : ℕ) → IsClean clean → IsRune r → IsClean (kept clean r)
kept-IsClean clean r h valid = elim (Bool-cases (is_shown r)) [
  | inl yes' ↦ rw yes' (record {
    shown = All-append IsShown clean (r ∷ []) h.shown (ground arith, tt);
    valid = All-append IsRune clean (r ∷ []) h.valid (valid, tt);
  })
  | inr not' ↦ rw not' h
]

length-kept : (clean : List ℕ) (r : ℕ) → length (kept clean r) ≤ length clean + 1
length-kept clean r = ground (arith, length-append clean (r ∷ []))

sanitize-IsClean :
    (clean rs : List ℕ)
    → length clean < max_name
    → IsClean clean
    → All IsRune rs
    → IsClean (sanitize clean rs) × (length (sanitize clean rs) ≤ max_name)
unfolding sanitize
sanitize-IsClean clean [] small h _ = (h, omega arith)
sanitize-IsClean clean (r ∷ rs) small h (valid, valids) =
    let next = kept-IsClean clean r h valid in
    elim (Bool-cases (leb max_name (length (kept clean r)))) [
      | inl full ↦ rw full (next, omega (arith, length-kept clean r))
      | inr room ↦ rw room (sanitize-IsClean (kept clean r) rs (ground arith) next valids)
    ]

kept_shown : (clean : List ℕ) (r : ℕ) → IsShown r → kept clean r ≡ clean ++ r ∷ []
kept_shown clean r shown = ground arith

-- A text of shown runes, not too long, is left as it is.
sanitize_shown :
    (clean rs : List ℕ)
    → All IsShown rs
    → length clean + length rs ≤ max_name
    → sanitize clean rs ≡ clean ++ rs
unfolding sanitize
sanitize_shown clean [] _ fits = sym (append-nil clean)
sanitize_shown clean (r ∷ []) (shown, _) fits = rw (kept_shown clean r shown) (ground arith)
sanitize_shown clean (r ∷ r' ∷ rs) (shown, all_shown) fits =
    let size = length-append clean (r ∷ []) in
    let room : leb max_name (length (clean ++ r ∷ [])) ≡ false = ground arith in
    rw (kept_shown clean r shown, room)
      (sanitize_shown (clean ++ r ∷ []) (r' ∷ rs) all_shown (omega (arith, size))
        ∙ append_assoc clean (r ∷ []) (r' ∷ rs))

-- Whatever name a device reports, the stored one reads as at most 40 runes, none of them a
-- control character below 32 or the delete character.
pub sanitize_name-IsShown :
    (name : Bytes)
    → All IsShown (runes (sanitize_name name)) × (length (runes (sanitize_name name)) ≤ max_name)
unfolding sanitize_name
sanitize_name-IsShown name =
    let (clean, fits) =
      sanitize-IsClean [] (runes name) (omega arith) (record { shown = tt; valid = tt })
        (runes-IsRune name) in
    rw (runes-encode_runes _ clean.valid) (clean.shown, fits)

-- A stored name is stored as it is when it is reported again.
pub sanitize_name_idem : (name : Bytes) → sanitize_name (sanitize_name name) ≡ sanitize_name name
unfolding sanitize_name
sanitize_name_idem name =
    let (clean, fits) =
      sanitize-IsClean [] (runes name) (omega arith) (record { shown = tt; valid = tt })
        (runes-IsRune name) in
    rw (runes-encode_runes _ clean.valid, sanitize_shown [] _ clean.shown (omega arith)) refl
