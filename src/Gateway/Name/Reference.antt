-- ===== src/Gateway/Name/Reference.antt =====
-- The loop of `sanitizeName` against what it computes.
use lockping_agent.Prelude.{
  ℕ, zero, suc, ◌≤◌, ◌<◌, List, [], ◌∷◌, ◌++◌, ◌≡◌, refl, sym, ap, ◌∙◌, arith, Bytes, length,
  length-append, append_assoc, append-nil, leb, take, take-append, if◌then◌else◌, Bool-cases, inl,
  inr,
}
use lockping_agent.Utf8.{runes, encode_runes}
use lockping_agent.Gateway.Name.{max_name, is_shown, kept, sanitize, sanitize_name}

-- The runes that may be shown.
unfoldable pub shown_runes : List ℕ → List ℕ
shown_runes [] = []
shown_runes (r ∷ rs) = if is_shown r then r ∷ shown_runes rs else shown_runes rs

take_all : {A : Type 0} (n : ℕ) (xs : List A) → length xs ≤ n → take n xs ≡ xs
take_all zero [] h = refl
take_all zero (x ∷ xs) h = absurd (omega arith)
take_all (suc n) [] h = refl
take_all (suc n) (x ∷ xs) h = ap (λ l. x ∷ l) (take_all n xs (omega arith))

kept-shown :
    (clean : List ℕ) (r : ℕ) (rs : List ℕ)
    → kept clean r ++ shown_runes rs ≡ clean ++ shown_runes (r ∷ rs)
unfolding shown_runes
kept-shown clean r rs = elim (Bool-cases (is_shown r)) [
  | inl yes' ↦ rw yes' (append_assoc clean (r ∷ []) (shown_runes rs))
  | inr no' ↦ rw no'
]

sanitize-take :
    (clean rs : List ℕ)
    → length clean < max_name
    → sanitize clean rs ≡ take max_name (clean ++ shown_runes rs)
unfolding sanitize
sanitize-take clean [] small =
    unfold shown_runes in rw (append-nil clean) (sym (take_all max_name clean (omega arith)))
sanitize-take clean (r ∷ rs) small = elim (Bool-cases (leb max_name (length (kept clean r)))) [
  | inl full ↦
      let size : length (kept clean r) ≡ max_name = ground (arith, length-append clean (r ∷ [])) in
      rw full (
        sym (take-append max_name (kept clean r) (shown_runes rs) size)
        ∙ ap (take max_name) (kept-shown clean r rs))
  | inr open' ↦
      rw open' (
        sanitize-take (kept clean r) rs (ground arith) ∙ ap (take max_name) (kept-shown clean r rs))
]

-- The stored name is the first 40 of the runes that may be shown: the loop, which stops at the
-- fortieth, and the whole text filtered and cut off are the same.
pub sanitize_name-take :
    (name : Bytes) → sanitize_name name ≡ encode_runes (take max_name (shown_runes (runes name)))
unfolding sanitize_name
sanitize_name-take name = ap encode_runes (sanitize-take [] (runes name) (omega arith))
