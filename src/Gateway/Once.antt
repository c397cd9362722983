-- ===== src/Gateway/Once.antt =====
-- Runs of internal/gateway/gateway.go, with the config UI's calls in between the messages.
use lockping_agent.Prelude.{
  ℕ, false, List, [], ◌∷◌, none, some, ◌≡◌, refl, sym, ◌∙◌, inl, inr, arith, Bytes, All, Bool-cases,
}
use lockping_agent.Session.{Controller}
use lockping_agent.Secure.Crypto.{Crypto}
use lockping_agent.Secure.Crypt.{is_sealed}
use lockping_agent.Secure.Pairing.{consume}
use lockping_agent.Secure.Devices
use lockping_agent.Secure.Devices.{DeviceStore, DeviceInfo}
use lockping_agent.Gateway.Windows.{
  IsSpent, get_elem?-set, set-consume, opening-IsSpent, current_index, same_index, true≢false,
  admit-windows, admit_answered, admit-window, spent_refuses,
}
use lockping_agent.Gateway.Pair.{pair_cases}
use lockping_agent.Gateway.{Gateway, Outside, handle, handle_sealed, open_pairing}

-- What happens to the gateway: a message from the relay, or the UI opens a window or removes a
-- device. The relay delivers one message after another; the mutexes make the UI's calls steps.
pub data Event : Type 0 where
  message : Bytes → Bytes → Outside → Event
  open_window : Outside → Event
  unpair : Bytes → Devices.Write → Event

abbrev pub IsNoOpening : Event → Type 0
IsNoOpening (open_window _) = ⊥
IsNoOpening _ = Unit {0}

module _ (c : Crypto) where
  module _ {S : Type 0} (sess : Controller S) where
    -- The gateway and the session after an event.
    unfoldable pub step : Gateway → S → Event → Gateway × S
    step g s (message from payload o) = (handle c sess g s from payload o).0
    step g s (open_window o) = ((open_pairing g o).0, s)
    step g s (unpair id outcome) =
        (record g { devices = (Devices.remove g.devices id outcome).0 }, s)

    unfoldable pub run : Gateway → S → List Event → Gateway × S
    run g s [] = (g, s)
    run g s (e ∷ es) = let (g', s') = step g s e in run g' s' es

    sealed_keeps :
        (g : Gateway) (s : S) (from payload : Bytes) (o : Outside)
        → ((handle_sealed c sess g s from payload o).0.0.windows ≡ g.windows)
          × ((handle_sealed c sess g s from payload o).0.0.window ≡ g.window)
    unfolding handle_sealed
    sealed_keeps g s from payload o = (ground arith, ground arith)

    message-IsSpent :
        (i : ℕ) (g : Gateway) (s : S) (from payload : Bytes) (o : Outside)
        → IsSpent i g
        → IsSpent i (handle c sess g s from payload o).0.0
    unfolding handle
    message-IsSpent i g s from payload o (w, found, used) = elim (Bool-cases (is_sealed payload)) [
      | inl sealed ↦ rw (sealed, handle, (sealed_keeps g s from payload o).0) (w, found, used)
      | inr plain ↦ elim (pair_cases c g from payload o plain) [
        | inl same ↦ rw (plain, handle, same) (w, found, used)
        | inr (r, admitted) ↦ elim (admit-windows c g r.index r.window from r.request o) [
          | inl kept ↦ rw (plain, handle, admitted, kept) (w, found, used)
          | inr marked ↦
              rw (plain, handle, admitted, marked)
                (set-consume g.windows i r.index r.found found used)
        ]
      ]
    ]

    message-window :
        (g : Gateway) (s : S) (from payload : Bytes) (o : Outside)
        → (handle c sess g s from payload o).0.0.window ≡ g.window
    unfolding handle
    message-window g s from payload o = elim (Bool-cases (is_sealed payload)) [
      | inl sealed ↦ rw (sealed, handle) (sealed_keeps g s from payload o).1
      | inr plain ↦ elim (pair_cases c g from payload o plain) [
        | inl same ↦ rw (plain, handle, same)
        | inr (r, admitted) ↦
            rw (plain, handle, admitted) (admit-window c g r.index r.window from r.request o)
      ]
    ]

    -- A used window stays used, whatever happens.
    step-IsSpent :
        (i : ℕ) (g : Gateway) (s : S) (e : Event) → IsSpent i g → IsSpent i (step g s e).0
    unfolding step open_pairing
    step-IsSpent i g s (message from payload o) h = message-IsSpent i g s from payload o h
    step-IsSpent i g s (open_window o) h = opening-IsSpent i g o h
    step-IsSpent i g s (unpair id outcome) h = h

    step-window :
        (g : Gateway) (s : S) (e : Event) → IsNoOpening e → (step g s e).0.window ≡ g.window
    unfolding step
    step-window g s (message from payload o) _ = message-window g s from payload o
    step-window g s (open_window o) no' = absurd no'
    step-window g s (unpair id outcome) _ = refl

    run-IsSpent :
        (i : ℕ) (g : Gateway) (s : S) (es : List Event) → IsSpent i g → IsSpent i (run g s es).0
    unfolding run
    run-IsSpent i g s [] h = h
    run-IsSpent i g s (e ∷ es) h =
        run-IsSpent i (step g s e).0 (step g s e).1 es (step-IsSpent i g s e h)

    pub run-window :
        (g : Gateway) (s : S) (es : List Event)
        → All IsNoOpening es
        → (run g s es).0.window ≡ g.window
    unfolding run
    run-window g s [] _ = refl
    run-window g s (e ∷ es) (no', nos) =
        run-window (step g s e).0 (step g s e).1 es nos ∙ step-window g s e no'

    -- An answered plaintext message has spent the current window.
    answered-IsSpent :
        (g : Gateway) (s : S) (from payload : Bytes) (o : Outside) {reply : Bytes}
        → is_sealed payload ≡ false
        → (handle c sess g s from payload o).1 ≡ some reply
        → (i : ℕ) × (g.window ≡ some i) × IsSpent i (handle c sess g s from payload o).0.0
    unfolding handle
    answered-IsSpent g s from payload o {reply} plain h =
        elim (pair_cases c g from payload o plain) [
          | inl same ↦ ground arith
          | inr (r, admitted) ↦
              let marked =
                admit_answered c g r.index r.window from r.request o {r = reply} (ground arith) in
              (
                r.index,
                r.current,
                rw (plain, handle, admitted, marked)
                    (
                      consume r.window,
                      get_elem?-set g.windows r.index r.found,
                      unfold consume in refl,
                    ),
              )
        ]

    spent_ignores :
        (i : ℕ) (g : Gateway) (s : S) (from payload : Bytes) (o : Outside)
        → is_sealed payload ≡ false
        → g.window ≡ some i
        → IsSpent i g
        → handle c sess g s from payload o ≡ ((g, s), none)
    unfolding handle
    spent_ignores i g s from payload o plain current (w, found, used) =
        elim (pair_cases c g from payload o plain) [
          | inl same ↦ rw (plain, handle, same)
          | inr (r, admitted) ↦
              let same_window : w ≡ r.window =
                same_index g.windows i r.index found r.found
                  (current_index i r.index (sym current ∙ r.current)) in
              let refused =
                spent_refuses c r.window o.now from r.request.pub_key r.request.mac
                  (rw (← same_window) used) in
              absurd (true≢false (sym r.verified ∙ refused))
        ]

    pub closed_ignores :
        (g : Gateway) (s : S) (from payload : Bytes) (o : Outside)
        → is_sealed payload ≡ false
        → g.window ≡ none
        → handle c sess g s from payload o ≡ ((g, s), none)
    unfolding handle
    closed_ignores g s from payload o plain shut = elim (pair_cases c g from payload o plain) [
      | inl same ↦ rw (plain, handle, same)
      | inr (r, admitted) ↦ absurd (ground (arith, r.current))
    ]

    -- A code pairs one device. After a plaintext message that was answered, so a pair request that
    -- was accepted, and any further messages and removals by the UI, but no new window, every
    -- plaintext message is ignored: there is no reply, and nothing changes.
    pub code_pairs_once :
        (g : Gateway) (s : S) (from payload : Bytes) (o : Outside) {reply : Bytes} (es : List Event)
        (from' payload' : Bytes) (o' : Outside)
        → is_sealed payload ≡ false
        → (handle c sess g s from payload o).1 ≡ some reply
        → All IsNoOpening es
        → is_sealed payload' ≡ false
        → let after = run g s (message from payload o ∷ es) in
          handle c sess after.0 after.1 from' payload' o' ≡ (after, none)
    unfolding run step
    code_pairs_once g s from payload o es from' payload' o' plain answered quiet plain' =
        let first = handle c sess g s from payload o in
        let (i, current, spent) = answered-IsSpent g s from payload o plain answered in
        let kept = run-window first.0.0 first.0.1 es quiet ∙ message-window g s from payload o in
        spent_ignores i _ _ from' payload' o' plain' (kept ∙ current)
          (run-IsSpent i first.0.0 first.0.1 es spent)
