-- ===== src/Gateway/Flight.antt =====
-- A pair request in flight while the UI opens a new window: `handlePairRequest` of
-- internal/gateway/gateway.go has read the pointer, and goes on with the window it found there.
use lockping_agent.Prelude.{
  none, ℕ, zero, suc, false, List, [], ◌∷◌, ◌++◌, some, ◌≡◌, refl, ap, sym, subst, ◌∙◌, ◌⊎◌, Bool,
  true, inl, inr, arith, Option-cases, Bytes, length, get_elem?, set, ok, Bool-cases,
}
use lockping_agent.Prelude.Int.{◌+ℤ◌}
use lockping_agent.Wire.{Payload}
use lockping_agent.Secure.Crypto.{Crypto}
use lockping_agent.Secure.Pairing.{Window, verify_request, consume, new_window, window_ttl}
use lockping_agent.Gateway.Windows.{
  IsSpent, get_elem?-append, get_elem?-set, admit_answered, admit-windows, admit-window,
}
use lockping_agent.Gateway.{Gateway, Outside, admit, pair_through, open_pairing}

-- A write before the end leaves what stands behind.
get_elem?-last : (ws : List Window) (x : Window) → get_elem? (ws ++ x ∷ []) (length ws) ≡ some x
get_elem?-last [] x = refl
get_elem?-last (y ∷ ws) x = get_elem?-last ws x

get_elem?-set_before :
    (ws : List Window) (x v : Window) (i : ℕ) {w : Window}
    → get_elem? ws i ≡ some w
    → get_elem? (set (ws ++ x ∷ []) i v) (length ws) ≡ some x
get_elem?-set_before [] x v i h = cc
get_elem?-set_before (y ∷ ws) x v zero h = get_elem?-last ws x
get_elem?-set_before (y ∷ ws) x v (suc i) h = get_elem?-set_before ws x v i h

opened :
    (g : Gateway) (o : Outside) {secret : Bytes}
    → o.random ≡ ok secret
    → (w : Window) × ((open_pairing g o).0.windows ≡ g.windows ++ w ∷ [])
      × ((open_pairing g o).0.window ≡ some (length g.windows))
      × (w.used ≡ false)
      × (w.secret ≡ secret)
unfolding open_pairing new_window
opened g o {secret} random = (
  record { secret = secret; expires = o.now +ℤ window_ttl; used = false },
  ground (arith, random),
  ground (arith, random),
  refl,
  refl,
)

-- The window at the end stays, whichever of the two becomes of the list.
last_kept :
    (ws after : List Window) (x v : Window) (i : ℕ) {w : Window}
    → get_elem? ws i ≡ some w
    → (after ≡ ws ++ x ∷ []) ⊎ (after ≡ set (ws ++ x ∷ []) i v)
    → get_elem? after (length ws) ≡ some x
last_kept ws after x v i h (inl same) = rw same (get_elem?-last ws x)
last_kept ws after x v i h (inr marked) = rw marked (get_elem?-set_before ws x v i h)

module _ (c : Crypto) where
  -- The request and its sender pass the window's check.
  abbrev pub Passes : Window → Bytes → Payload → Outside → Bool → Type 0
  Passes w from request o b = verify_request c (some w) o.now from request.pub_key request.mac ≡ b

  through :
      (g : Gateway) (i : ℕ) (from : Bytes) (request : Payload) (o : Outside) {w : Window}
      → get_elem? g.windows i ≡ some w
      → (Passes w from request o true
          × (pair_through c g (some i) from request o ≡ admit c g i w from request o))
        ⊎ (Passes w from request o false × (pair_through c g (some i) from request o ≡ (g, none)))
  unfolding pair_through
  through g i from request o {w} found =
      elim (Bool-cases (verify_request c (some w) o.now from request.pub_key request.mac)) [
        | inr refused ↦ inr (refused, rw (found, pair_through) (rw refused refl))
        | inl verified ↦ inl (verified, rw (found, pair_through) (rw verified refl))
      ]

  admit_spends :
      (g : Gateway) (i : ℕ) (w : Window) (from : Bytes) (request : Payload) (o : Outside)
      → get_elem? g.windows i ≡ some w
      → ((admit c g i w from request o).1 ≡ none) ⊎ IsSpent i (admit c g i w from request o).0
  admit_spends g i w from request o found = elim (Option-cases (admit c g i w from request o).1) [
    | inl silent ↦ inl silent
    | inr (reply, answered) ↦ inr (
      consume w,
      ap (λ ws. get_elem? ws i) (admit_answered c g i w from request o {r = reply} answered)
          ∙ get_elem?-set g.windows i found,
      unfold consume in refl,
    )
  ]

  -- A request in flight is decided by the window whose pointer it read, also when the UI opens a
  -- new one meanwhile, with a secret that the source of randomness gives. If that window's check
  -- accepts it, it is admitted through that window, which is spent if there is an answer; otherwise
  -- it is ignored, and nothing changes. In each case the new window is untouched: it is the current
  -- one, with its secret, not used, so that its code is still good for a device.
  pub in_flight :
      (g : Gateway) (i : ℕ) (from : Bytes) (request : Payload) (o o' : Outside) {w : Window}
      {secret : Bytes}
      → get_elem? g.windows i ≡ some w
      → o.random ≡ ok secret
      → let reopened = (open_pairing g o).0 in
        let result = pair_through c reopened (some i) from request o' in
        ((Passes w from request o' true
            × (result ≡ admit c reopened i w from request o')
            × ((result.1 ≡ none) ⊎ IsSpent i result.0))
          ⊎ (Passes w from request o' false × (result ≡ (reopened, none))))
        × ((fresh : Window) × (result.0.window ≡ some (length g.windows))
            × (get_elem? result.0.windows (length g.windows) ≡ some fresh)
            × (fresh.used ≡ false)
            × (fresh.secret ≡ secret))
  in_flight g i from request o o' {w} {secret} found random =
      let (fresh, windows, current, unused, same) = opened g o random in
      let reopened = (open_pairing g o).0 in
      let kept : get_elem? reopened.windows i ≡ some w =
        ap (λ ws. get_elem? ws i) windows ∙ get_elem?-append g.windows fresh i found in
      elim (through reopened i from request o' kept) [
        | inr (refused, ignored) ↦ (
          inr (refused, ignored),
          (
            fresh,
            ap (λ r. r.0.window) ignored ∙ current,
            ap (λ r. get_elem? r.0.windows (length g.windows)) ignored
                ∙ last_kept g.windows reopened.windows fresh w i found (inl windows),
            unused,
            same,
          ),
        )
        | inl (verified, admitted) ↦ (
          inl (
            verified,
            admitted,
            subst (λ r. (r.1 ≡ none) ⊎ IsSpent i r.0) (sym admitted)
                (admit_spends reopened i w from request o' kept),
          ),
          (
            fresh,
            ap (λ r. r.0.window) admitted ∙ admit-window c reopened i w from request o' ∙ current,
            ap (λ r. get_elem? r.0.windows (length g.windows)) admitted
                ∙ last_kept g.windows (admit c reopened i w from request o').0.windows fresh
                    (consume w) i found
                    (rw (sym windows) (admit-windows c reopened i w from request o')),
            unused,
            same,
          ),
        )
      ]
