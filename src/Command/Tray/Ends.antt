-- ===== src/Command/Tray/Ends.antt =====
-- How `runWithTray` ends.
use lockping_agent.Prelude.{
  true, false, Option, none, some, ◌≡◌, ◌≢◌, refl, ◌⊎◌, inl, inr, arith, Bytes, Bool-cases,
}
use lockping_agent.Command.Tray.{
  Connection, connecting, delivered, finished, delivered_result, Tray, shown, select, return, Step,
  stopped, connect_ends, connection_quits, open_clicked, quit_clicked, menu_quits, returns, Reach,
  here, after,
}

-- Held from the start until `runWithTray` returns, and the second part for ever.
record IsSteady (t : Tray) : Type 0 where
  quit_why :
      t.quit ≡ true
      → t.returned ≡ none
      → ((e : Option Bytes) × (delivered_result t.connection ≡ some e)) ⊎ (t.cancelled ≡ true)
  menu_shut : t.menu_open ≡ false → t.quit ≡ true

step-IsSteady : {t u : Tray} → IsSteady t → Step t u → IsSteady u
step-IsSteady h stopped = record { quit_why = λ q r. inr refl; menu_shut = h.menu_shut }
step-IsSteady h (connect_ends e is) = record {
  quit_why = λ q r. inl (e, refl);
  menu_shut = h.menu_shut;
}
step-IsSteady h (connection_quits e is) = record {
  quit_why = λ q r. inl (e, refl);
  menu_shut = λ m. refl;
}
step-IsSteady h (open_clicked m) = record { quit_why = h.quit_why; menu_shut = h.menu_shut }
step-IsSteady h (quit_clicked m) = record { quit_why = λ q r. inr refl; menu_shut = h.menu_shut }
step-IsSteady h (menu_quits m c) = record { quit_why = λ q r. inr c; menu_shut = λ _. refl }
step-IsSteady {t} h (returns q r) = record {
  quit_why = λ _ r'. inr (unfold return in refl);
  menu_shut = unfold return in h.menu_shut;
}

Reach-IsSteady : {t : Tray} → Reach shown t → IsSteady t
Reach-IsSteady here = record {
  quit_why = λ q r. absurd (ground arith);
  menu_shut = λ m. absurd (ground arith);
}
Reach-IsSteady (after path step) = step-IsSteady (Reach-IsSteady path) step

result_cases :
    (n : Connection)
    → (n ≡ connecting) ⊎ ((e : Option Bytes) × (delivered_result n ≡ some e) × (select n ≡ e))
unfolding select
result_cases connecting = inl refl
result_cases (delivered e) = inr (e, refl, refl)
result_cases (finished e) = inr (e, refl, refl)

-- When runWithTray returns, whatever the threads did before, it returns the connection's own
-- result, or it returns none while the connection is still at work and the context of the tray is
-- cancelled: as long as nobody asked to stop, no error of the connection is lost.
pub tray_result :
    (t : Tray)
    → Reach shown t
    → t.quit ≡ true
    → t.returned ≡ none
    → ((e : Option Bytes) × (delivered_result t.connection ≡ some e)
        × ((return t).returned ≡ some e))
      ⊎ ((t.connection ≡ connecting) × (t.cancelled ≡ true) × ((return t).returned ≡ some none))
unfolding return select
tray_result t path quit running = elim (result_cases t.connection) [
  | inr (e, got, chosen) ↦ inl (e, got, rw chosen)
  | inl working ↦ elim ((Reach-IsSteady path).quit_why quit running) [
    | inl (e, got) ↦ absurd (ground arith)
    | inr cancelled ↦ inr (working, cancelled, rw working)
  ]
]

return-returned : (t : Tray) → (return t).returned ≢ none
unfolding return
return-returned t h = ground arith

return-connection : (t : Tray) → (return t).connection ≡ t.connection
unfolding return
return-connection t = refl

-- Once the context of the tray is cancelled, by a click on the menu or by the caller, runWithTray
-- can always come to its end from where it is, and without the connection: it need not return.
pub tray_stops :
    (t : Tray)
    → Reach shown t
    → t.cancelled ≡ true
    → t.returned ≡ none
    → (u : Tray) × Reach t u × (u.connection ≡ t.connection) × (u.returned ≢ none)
tray_stops t path cancelled running = elim (Bool-cases t.menu_open) [
  | inl shows ↦
      let u = record t { menu_open = false; quit = true } in
      (
        return u,
        after (after here (menu_quits shows cancelled)) (returns refl running),
        return-connection u,
        return-returned u,
      )
  | inr shut ↦ (
    return t,
    after here (returns ((Reach-IsSteady path).menu_shut shut) running),
    return-connection t,
    return-returned t,
  )
]
