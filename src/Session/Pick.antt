-- ===== src/Session/Pick.antt =====
-- internal/session/pick.go: the choice of the session that the agent tracks.
pub mod Best
use lockping_agent.Prelude.{
  ℕ, suc, ◌+◌, Bool, true, false, ◌&&◌, ◌||◌, List, [], ◌∷◌, Option, none, some, Bytes, codes,
  bytes_eq, get_elem?, if◌then◌else◌,
}
use lockping_agent.Prelude.Int.{ℤ, pos, negsuc, ltb_ℤ}

pub record Candidate : Type 0 where
  pub id : Bytes
  pub class : Bytes
  pub active : Bool
  pub graphical : Bool

unfoldable pub is_graphical : Bytes → Bool
is_graphical t =
    bytes_eq t (codes "x11") || bytes_eq t (codes "wayland") || bytes_eq t (codes "mir")

unfoldable pub is_lockable : Candidate → Bool
is_lockable c = bytes_eq c.class (codes "user")

unfoldable pub score : Candidate → ℕ
score c = (if c.active then 2 else 0) + (if c.graphical then 1 else 0)

-- The loop at index `i`, with the best index and its score so far, both -1 at first.
unfoldable pub pick_loop : ℕ → ℤ → ℤ → List Candidate → ℤ
pick_loop i best best_score [] = best
pick_loop i best best_score (c ∷ cands) =
    let better = is_lockable c && ltb_ℤ best_score (pos (score c)) in
    pick_loop (suc i) (if better then pos i else best)
      (if better then pos (score c) else best_score) cands

chosen : List Candidate → ℤ → Option Candidate
chosen cands (pos i) = get_elem? cands i
chosen cands (negsuc _) = none

unfoldable pub pick_candidate : List Candidate → Option Candidate
unfolding chosen
pick_candidate cands = chosen cands (pick_loop 0 (negsuc 0) (negsuc 0) cands)
