-- ===== src/Session/Logind/Watching.antt =====
-- `Watch` of internal/session/logind_linux.go against its promise.
use lockping_agent.Prelude.{
  ℕ, Bool, true, false, List, [], ◌∷◌, Option, none, ◌≡◌, refl, ap, arith, ok, err, Bool-cases,
  Result-cases, inl, inr,
}
use lockping_agent.Session.Watch.{
  same_state, changes, last_of, IsChanging, changes-IsChanging, last_of-changes,
}
use lockping_agent.Session.Logind.{Bus, BodyValue, mentions_locked_hint, locked, watch_loop, watch}

module _ {S : Type 0} (bus : Bus S) (uid : ℕ) where
  -- What is read at the signals that mention the hint, where it can be read.
  unfoldable pub readings : List (Option (List BodyValue) × S) → List Bool
  readings [] = []
  readings ((sig, s) ∷ signals) = elim (mentions_locked_hint sig) [
    | false ↦ readings signals
    | true ↦ elim (locked bus uid s) [ err _ ↦ readings signals | ok b ↦ b ∷ readings signals ]
  ]

  watch_loop-changes :
      (last : Bool) (signals : List (Option (List BodyValue) × S))
      → watch_loop bus uid last signals ≡ changes last (readings signals)
  unfolding watch_loop readings changes
  watch_loop-changes last [] = refl
  watch_loop-changes last ((sig, s) ∷ signals) = elim (Bool-cases (mentions_locked_hint sig)) [
    | inr other ↦ rw (other, watch_loop, readings) (watch_loop-changes last signals)
    | inl mentioned ↦ elim (Result-cases (locked bus uid s)) [
      | inr (e, failed) ↦
          rw (mentioned, failed, watch_loop, readings) (watch_loop-changes last signals)
      | inl (b, is) ↦ elim (Bool-cases (same_state b last)) [
        | inl same ↦
            rw (mentioned, is, same, watch_loop, readings, changes)
              (((watch_loop-changes last signals)))
        | inr new ↦
            rw (mentioned, is, new, watch_loop, readings, changes)
              (((ap (λ l. b ∷ l) (watch_loop-changes b signals))))
      ]
    ]
  ]

  -- A watch reports the state that it reads at first, and then exactly the changes among the
  -- states that it reads at the signals that mention the hint: never the same state twice in a
  -- row, and the last report is the last state that was read.
  pub watch-changes :
      (s : S) (signals : List (Option (List BodyValue) × S)) {reports : List Bool}
      → watch bus uid none s signals ≡ ok reports
      → (b : Bool) × (rest : List Bool) × (locked bus uid s ≡ ok b)
        × (reports ≡ b ∷ rest)
        × (rest ≡ changes b (readings signals))
        × IsChanging b rest
        × (last_of b rest ≡ last_of b (readings signals))
  unfolding watch
  watch-changes s signals h = elim (Result-cases (locked bus uid s)) [
    | inr (e, failed) ↦ ground arith
    | inl (b, is) ↦
        let same = watch_loop-changes b signals in
        (
          b,
          watch_loop bus uid b signals,
          is,
          ground arith,
          same,
          rw same (changes-IsChanging b (readings signals)),
          rw same (last_of-changes b (readings signals)),
        )
  ]
