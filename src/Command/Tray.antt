-- ===== src/Command/Tray.antt =====
-- cmd/lockping-agent/tray.go: the connection to the relay with an icon in the tray beside it. Three
-- threads: the caller, in the loop of the tray's library until `Quit`; the connection; the menu.
pub mod Ends
use lockping_agent.Prelude.{
  ℕ, zero, suc, Bool, true, false, Option, none, some, ◌≡◌, Bytes, codes, bytes_eq, if◌then◌else◌,
}

-- The goroutine of `connect`: at work; with its result (an error, or none) sent to the channel; or
-- behind its call of `Quit`.
pub data Connection : Type 0 where
  connecting : Connection
  delivered : Option Bytes → Connection
  finished : Option Bytes → Connection

-- The result in the channel.
abbrev pub delivered_result : Connection → Option (Option Bytes)
delivered_result connecting = none
delivered_result (delivered e) = some e
delivered_result (finished e) = some e

-- `cancelled`: the context of the tray is done; `quit`: `Quit` was called; `menu_open`: the
-- goroutine of the menu is in its loop; `browsed` counts its openings of the UI.
pub record Tray : Type 0 where
  pub cancelled : Bool
  pub connection : Connection
  pub menu_open : Bool
  pub quit : Bool
  pub browsed : ℕ
  pub returned : Option (Option Bytes)

abbrev pub shown : Tray
shown = record {
  cancelled = false;
  connection = connecting;
  menu_open = true;
  quit = false;
  browsed = 0;
  returned = none;
}

-- The `select` behind the loop of the library: the result if there is one, else no error.
unfoldable pub select : Connection → Option Bytes
select connecting = none
select (delivered e) = e
select (finished e) = e

-- The end of `runWithTray`, with the deferred call of `cancel`.
unfoldable pub return : Tray → Tray
unfolding select
return t = record t { returned = some (select t.connection); cancelled = true }

-- The steps of the three threads, and `stopped`, the end of the context that the caller gave.
pub data Step (t : Tray) : Tray → Type 0 where
  stopped : Step t (record t { cancelled = true })
  connect_ends :
      (e : Option Bytes)
      → t.connection ≡ connecting
      → Step t (record t { connection = delivered e })
  connection_quits :
      (e : Option Bytes)
      → t.connection ≡ delivered e
      → Step t (record t { connection = finished e; quit = true })
  open_clicked : t.menu_open ≡ true → Step t (record t { browsed = suc t.browsed })
  quit_clicked : t.menu_open ≡ true → Step t (record t { cancelled = true })
  menu_quits :
      t.menu_open ≡ true → t.cancelled ≡ true → Step t (record t { menu_open = false; quit = true })
  returns : t.quit ≡ true → t.returned ≡ none → Step t (return t)

pub data Reach (t : Tray) : Tray → Type 0 where
  here : Reach t t
  after : {u v : Tray} → Reach t u → Step u v → Reach t v

pub data Icon : Type 0 where
  ico png : Icon

-- `trayIcon`, of `runtime.GOOS`.
unfoldable pub tray_icon : Bytes → Icon
unfolding bytes_eq
tray_icon goos = if bytes_eq goos (codes "windows") then ico else png
