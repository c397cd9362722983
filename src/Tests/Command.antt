-- ===== src/Tests/Command.antt =====
-- A desktop on which the UI answers at the second request, and an icon in the tray.
use lockping_agent.Prelude.{
  ℕ, ◌<◌, true, false, [], ◌∷◌, ◌++◌, Option, none, some, ◌≡◌, ◌≢◌, refl, ◌⊎◌, All, Bytes, codes,
  bytes_eq, take, drop, ok, err,
}
use lockping_agent.Prelude.Int.{pos}
use lockping_agent.Command.Open.{
  Desktop, request, ran, url, browser, next_is_ok, behind, ui_alive, start_agent, no_answer,
  open_companion, poll,
}
use lockping_agent.Command.Open.Polls.{waits, IsDead, started, open_companion_ends}
use lockping_agent.Command.Tray.{
  Tray, connecting, delivered_result, shown, return, Reach, here, after, quit_clicked, menu_quits,
}
use lockping_agent.Command.Tray.Ends.{tray_result, tray_stops}

-- Refused, refused again, then answered.
abbrev desktop : Desktop
desktop = record {
  goos = codes "linux";
  answers = err (codes "refused") ∷ err (codes "refused") ∷ ok 200 ∷ [];
  unit_starts = true;
  executable = ok (codes "lockping-agent");
  spawned = none;
  events = [];
}

starts : (start_agent (ui_alive desktop (pos 41800)).0).1 ≡ none
unfolding start_agent ui_alive bytes_eq
starts = refl

opened : (open_companion desktop (pos 41800)).1 ≡ none
unfolding open_companion poll start_agent ui_alive bytes_eq
opened = refl

open_companion_ends_example :
    ((k : ℕ) × (k < 20)
      × All IsDead (take k (behind desktop.answers))
      × (next_is_ok (drop k (behind desktop.answers)) ≡ true)
      × ((open_companion desktop (pos 41800)).1 ≡ none)
      × ((open_companion desktop (pos 41800)).0.events
          ≡ (started desktop (pos 41800)).events
            ++ (waits k (pos 41800)
                ++ request (pos 41800) ∷ ran (browser (codes "linux") (url (pos 41800))) ∷ [])))
    ⊎ (All IsDead (take 20 (behind desktop.answers))
        × ((open_companion desktop (pos 41800)).1 ≡ some (no_answer (pos 41800)))
        × ((open_companion desktop (pos 41800)).0.events
            ≡ (started desktop (pos 41800)).events ++ waits 20 (pos 41800)))
open_companion_ends_example = open_companion_ends desktop (pos 41800) refl starts

-- A click on the last entry of the menu.
abbrev clicked : Tray
clicked = record shown { cancelled = true }

abbrev quitting : Tray
quitting = record clicked { menu_open = false; quit = true }

to_clicked : Reach shown clicked
to_clicked = after here (quit_clicked refl)

to_quitting : Reach shown quitting
to_quitting = after to_clicked (menu_quits refl refl)

tray_result_example :
    ((e : Option Bytes) × (delivered_result connecting ≡ some e)
      × ((return quitting).returned ≡ some e))
    ⊎ ((connecting ≡ connecting) × (true ≡ true) × ((return quitting).returned ≡ some none))
tray_result_example = tray_result quitting to_quitting refl refl

tray_stops_example :
    (u : Tray) × Reach clicked u × (u.connection ≡ connecting) × (u.returned ≢ none)
tray_stops_example = tray_stops clicked to_clicked refl refl
