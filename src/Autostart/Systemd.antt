-- ===== src/Autostart/Systemd.antt =====
-- internal/autostart/autostart_linux.go: autostart by a systemd user unit. The command `systemctl`
-- is a parameter.
use lockping_agent.Prelude.{
  Bool, true, false, List, [], ◌∷◌, ◌++◌, Option, none, some, ◌≡◌, arith, Bytes, codes, bytes_eq,
  if◌then◌else◌,
}
use lockping_agent.Utf8.Space.{trim_space}
use lockping_agent.Autostart.{Manager, IsSwitch}

-- What a command leaves: its standard output, that with its standard error, and whether it failed.
pub record Finished : Type 0 where
  pub output : Bytes
  pub combined : Bytes
  pub failed : Bool

abbrev pub service : Bytes
service = codes "lockping-agent"

abbrev pub arguments : Bytes → List Bytes
arguments verb = codes "--user" ∷ verb ∷ service ∷ []

-- A run of `systemctl` with its arguments in a state of systemd. (`is-enabled` reads only; the
-- state behind it is not used.)
abbrev pub Systemctl : Type 0 → Type 0
Systemctl A = A → List Bytes → A × Finished

module _ {A : Type 0} (systemctl : Systemctl A) where
  unfoldable pub status : A → Bool × Bool
  unfolding bytes_eq trim_space
  status a =
      let out = (systemctl a (arguments (codes "is-enabled"))).1 in
      if out.failed
      then (false, bytes_eq (trim_space out.output) (codes "disabled"))
      else (bytes_eq (trim_space out.output) (codes "enabled"), true)

  unfoldable pub switch_to : Bytes → A → A × Option Bytes
  unfolding trim_space
  switch_to verb a =
      let (a', out) = systemctl a (arguments verb) in
      if out.failed
      then (a', some (codes "systemctl " ++ (verb ++ (codes ": " ++ trim_space out.combined))))
      else (a', none)

  unfoldable pub enable : A → A × Option Bytes
  unfolding switch_to
  enable a = switch_to (codes "enable") a

  unfoldable pub disable : A → A × Option Bytes
  unfolding switch_to
  disable a = switch_to (codes "disable") a

  unfoldable pub systemd : Manager A
  unfolding status enable disable
  systemd = record { status = status; enable = enable; disable = disable }

  -- What the manual of `systemctl` says of these three commands.
  pub record IsDocumented : Type 0 where
    pub is_enabled :
        (a : A)
        → (systemctl a (arguments (codes "enable"))).1.failed ≡ false
        → let out =
            (systemctl
              (systemctl a (arguments (codes "enable"))).0
              (arguments (codes "is-enabled"))).1 in
          (out.output ≡ codes "enabled\n") × (out.failed ≡ false)
    pub is_disabled :
        (a : A)
        → (systemctl a (arguments (codes "disable"))).1.failed ≡ false
        → let out =
            (systemctl
              (systemctl a (arguments (codes "disable"))).0
              (arguments (codes "is-enabled"))).1 in
          (out.output ≡ codes "disabled\n") × (out.failed ≡ true)

  switch_to_done :
      (verb : Bytes) (a : A)
      → (switch_to verb a).1 ≡ none
      → ((systemctl a (arguments verb)).1.failed ≡ false)
        × ((switch_to verb a).0 ≡ (systemctl a (arguments verb)).0)
  unfolding switch_to
  switch_to_done verb a h = ground arith

  -- Given what the manual says, the switch of systemd stands where it was put without an error.
  pub systemd-IsSwitch : IsDocumented → IsSwitch systemd
  unfolding systemd
  systemd-IsSwitch doc = record {
    enabled = λ a h.
        let (fine, left) = switch_to_done (codes "enable") a h in
        let (printed, exit) = doc.is_enabled a fine in
        rw left (unfold status in rw (exit, printed));
    disabled = λ a h.
        let (fine, left) = switch_to_done (codes "disable") a h in
        let (printed, exit) = doc.is_disabled a fine in
        rw left (unfold status in rw (exit, printed));
  }
