-- ===== src/Gateway/Windows.antt =====
-- The list of windows in internal/gateway/gateway.go, and what marking a window as used does to it.
use lockping_agent.Prelude.{
  ℕ, zero, suc, true, false, List, [], ◌∷◌, some, ◌≡◌, ◌≢◌, refl, ◌⊎◌, inl, inr, arith, Bytes,
  get_elem?, set, ◌++◌, Result-cases,
}
use lockping_agent.Prelude.Int.{ℤ}
use lockping_agent.Wire.{Payload}
use lockping_agent.Secure.Crypto.{Crypto}
use lockping_agent.Secure.Pairing.{Window, verify_request, consume, new_window}
use lockping_agent.Gateway.{Gateway, Outside, admit, open_pairing}

-- The window at this place was used.
abbrev pub IsSpent : ℕ → Gateway → Type 0
IsSpent i g = (w : Window) × (get_elem? g.windows i ≡ some w) × (w.used ≡ true)

pub get_elem?-append :
    (ws : List Window) (v : Window) (i : ℕ) {w : Window}
    → get_elem? ws i ≡ some w
    → get_elem? (ws ++ v ∷ []) i ≡ some w
get_elem?-append [] v i h = cc
get_elem?-append (x ∷ ws) v zero h = h
get_elem?-append (x ∷ ws) v (suc i) h = get_elem?-append ws v i h

-- Consuming a window keeps every used window used.
pub set-consume :
    (ws : List Window) (i j : ℕ) {v w : Window}
    → get_elem? ws j ≡ some v
    → get_elem? ws i ≡ some w
    → w.used ≡ true
    → (w' : Window) × (get_elem? (set ws j (consume v)) i ≡ some w') × (w'.used ≡ true)
unfolding consume
set-consume [] i j h k u = cc
set-consume (x ∷ ws) zero zero {v} {w} h k u = (consume v, refl, refl)
set-consume (x ∷ ws) (suc i) zero {v} {w} h k u = (w, k, u)
set-consume (x ∷ ws) zero (suc j) {v} {w} h k u = (w, k, u)
set-consume (x ∷ ws) (suc i) (suc j) h k u = set-consume ws i j h k u

pub get_elem?-set :
    (ws : List Window) (j : ℕ) {v w : Window}
    → get_elem? ws j ≡ some v
    → get_elem? (set ws j w) j ≡ some w
get_elem?-set [] j h = cc
get_elem?-set (x ∷ ws) zero h = refl
get_elem?-set (x ∷ ws) (suc j) h = get_elem?-set ws j h

pub opening-IsSpent :
    (i : ℕ) (g : Gateway) (o : Outside) → IsSpent i g → IsSpent i (open_pairing g o).0
unfolding open_pairing
opening-IsSpent i g o (w, found, used) = elim (Result-cases (new_window o.random o.now)) [
  | inl (fresh, opened) ↦
      rw (opened, open_pairing) (w, get_elem?-append g.windows fresh.0 i found, used)
  | inr (e, failed) ↦ rw (failed, open_pairing) (w, found, used)
]

pub current_index : (i j : ℕ) → some i ≡ some j → i ≡ j
current_index i j h = cc

pub same_index :
    (ws : List Window) (i j : ℕ) {v w : Window}
    → get_elem? ws i ≡ some v
    → get_elem? ws j ≡ some w
    → i ≡ j
    → v ≡ w
same_index ws i j h k e = cc

pub true≢false : true ≢ false
true≢false h = cc

module _ (c : Crypto) where
  pub admit-windows :
      (g : Gateway) (i : ℕ) (w : Window) (from : Bytes) (request : Payload) (o : Outside)
      → ((admit c g i w from request o).0.windows ≡ g.windows)
        ⊎ ((admit c g i w from request o).0.windows ≡ set g.windows i (consume w))
  unfolding admit
  admit-windows g i w from request o = ground arith

  pub admit_answered :
      (g : Gateway) (i : ℕ) (w : Window) (from : Bytes) (request : Payload) (o : Outside)
      {r : Bytes}
      → (admit c g i w from request o).1 ≡ some r
      → (admit c g i w from request o).0.windows ≡ set g.windows i (consume w)
  unfolding admit
  admit_answered g i w from request o h = ground arith

  pub admit-window :
      (g : Gateway) (i : ℕ) (w : Window) (from : Bytes) (request : Payload) (o : Outside)
      → (admit c g i w from request o).0.window ≡ g.window
  unfolding admit
  admit-window g i w from request o = ground arith

  -- A used window verifies nothing.
  pub spent_refuses :
      (w : Window) (now : ℤ) (id pub_b64 mac_b64 : Bytes)
      → w.used ≡ true
      → verify_request c (some w) now id pub_b64 mac_b64 ≡ false
  unfolding verify_request
  spent_refuses w now id pub_b64 mac_b64 u = rw (u, verify_request)
