-- ===== src/Secure/Devices/Listed.antt =====
-- The list that the UI shows.
use lockping_agent.Prelude.{
  suc, true, false, List, [], ◌∷◌, ◌≡◌, refl, ap, ◌∙◌, arith, length, All, inl, inr, Bool-cases,
}
use lockping_agent.Prelude.Maps.{Map}
use lockping_agent.Secure.Devices.{DeviceInfo, DeviceStore, before, sort_in, listed, list, count}

-- No device stands behind one that was paired later.
abbrev pub IsOldestFirst : List DeviceInfo → Type 0
IsOldestFirst [] = Unit {0}
IsOldestFirst (d ∷ ds) = All (λ d'. before d' d ≡ false) ds × IsOldestFirst ds

before_trans : (a b c : DeviceInfo) → before b a ≡ false → before c b ≡ false → before c a ≡ false
unfolding before
before_trans a b c h k = ground arith

before_asym : (a b : DeviceInfo) → before a b ≡ true → before b a ≡ false
unfolding before
before_asym a b h = ground arith

All-sort_in :
    (P : DeviceInfo → Type 0) (d : DeviceInfo) (ds : List DeviceInfo)
    → P d
    → All P ds
    → All P (sort_in d ds)
unfolding sort_in
All-sort_in P d [] p ps = (p, tt)
All-sort_in P d (d' ∷ ds) p (p', ps) = elim (Bool-cases (before d' d)) [
  | inl earlier ↦ rw earlier (p', All-sort_in P d ds p ps)
  | inr later ↦ rw later (p, (p', ps))
]

not_before-All :
    (d d' : DeviceInfo) (ds : List DeviceInfo)
    → before d' d ≡ false
    → All (λ e. before e d' ≡ false) ds
    → All (λ e. before e d ≡ false) ds
not_before-All d d' [] h _ = tt
not_before-All d d' (e ∷ ds) h (k, ks) = (before_trans d d' e h k, not_before-All d d' ds h ks)

sort_in-IsOldestFirst :
    (d : DeviceInfo) (ds : List DeviceInfo) → IsOldestFirst ds → IsOldestFirst (sort_in d ds)
unfolding sort_in
sort_in-IsOldestFirst d [] _ = (tt, tt)
sort_in-IsOldestFirst d (d' ∷ ds) (h, hs) = elim (Bool-cases (before d' d)) [
  | inl earlier ↦ rw earlier (
    All-sort_in (λ e. before e d' ≡ false) d ds (before_asym d' d earlier) h,
    sort_in-IsOldestFirst d ds hs,
  )
  | inr later ↦ rw later ((later, not_before-All d d' ds later h), (h, hs))
]

length-sort_in : (d : DeviceInfo) (ds : List DeviceInfo) → length (sort_in d ds) ≡ suc (length ds)
unfolding sort_in
length-sort_in d [] = refl
length-sort_in d (d' ∷ ds) = ground (arith, length-sort_in d ds)

listed-IsOldestFirst : (m : Map DeviceInfo) → IsOldestFirst (listed m)
unfolding listed
listed-IsOldestFirst [] = tt
listed-IsOldestFirst ((id, info) ∷ m) = sort_in-IsOldestFirst _ (listed m) (listed-IsOldestFirst m)

length-listed : (m : Map DeviceInfo) → length (listed m) ≡ length m
unfolding listed
length-listed [] = refl
length-listed ((id, info) ∷ m) = length-sort_in _ (listed m) ∙ ap suc (length-listed m)

-- The list is the oldest first, and has as many devices as `count` gives.
pub list-IsOldestFirst : (s : DeviceStore) → IsOldestFirst (list s) × (length (list s) ≡ count s)
unfolding list count
list-IsOldestFirst s = (listed-IsOldestFirst s.devices, length-listed s.devices)
