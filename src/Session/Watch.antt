-- ===== src/Session/Watch.antt =====
-- What `Watch` of internal/session/session.go promises: the current state, then every change.
use lockping_agent.Prelude.{
  Bool, true, false, not, List, [], ◌∷◌, ◌≡◌, ◌≢◌, refl, arith, if◌then◌else◌, Bool-cases, inl, inr,
}

abbrev pub same_state : Bool → Bool → Bool
same_state true b = b
same_state false b = not b

-- The specification: of a row of readings, those that differ from the one before.
unfoldable pub changes : Bool → List Bool → List Bool
changes last [] = []
changes last (b ∷ bs) = if same_state b last then changes last bs else b ∷ changes b bs

unfoldable pub last_of : Bool → List Bool → Bool
last_of last [] = last
last_of last (b ∷ bs) = last_of b bs

-- No state is reported twice in a row.
abbrev pub IsChanging : Bool → List Bool → Type 0
IsChanging last [] = Unit {0}
IsChanging last (b ∷ bs) = (b ≢ last) × IsChanging b bs

pub same_state_iff : (a b : Bool) → same_state a b ≡ true → a ≡ b
same_state_iff a b h = ground arith

other_state : (a b : Bool) → same_state a b ≡ false → a ≢ b
other_state a b h e = ground arith

pub changes-IsChanging : (last : Bool) (bs : List Bool) → IsChanging last (changes last bs)
unfolding changes
changes-IsChanging last [] = tt
changes-IsChanging last (b ∷ bs) = elim (Bool-cases (same_state b last)) [
  | inl same ↦ rw same (changes-IsChanging last bs)
  | inr other ↦ rw other (other_state b last other, changes-IsChanging b bs)
]

-- The last report is the last reading.
pub last_of-changes :
    (last : Bool) (bs : List Bool) → last_of last (changes last bs) ≡ last_of last bs
unfolding changes last_of
last_of-changes last [] = refl
last_of-changes last (b ∷ bs) = elim (Bool-cases (same_state b last)) [
  | inl same ↦ rw same (rw (same_state_iff b last same) (last_of-changes last bs))
  | inr other ↦ rw other (last_of-changes b bs)
]
