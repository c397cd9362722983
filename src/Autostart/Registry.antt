-- ===== src/Autostart/Registry.antt =====
-- internal/autostart/autostart_windows.go: autostart by a value of the registry's Run key. The
-- registry is a parameter: what its calls do with that key.
use lockping_agent.Prelude.{
  Bool, true, false, ◌++◌, Option, none, some, ◌≡◌, arith, Bytes, codes, Result, ok, err,
  Result-cases, Option-cases, inl, inr,
}
use lockping_agent.Autostart.{Manager, IsSwitch}

abbrev pub value_name : Bytes
value_name = codes "LockPing"

-- Opening the Run key to read and to write (the error, if there is one), and the calls on it.
pub record Registry (A : Type 0) : Type 0 where
  pub open_read : A → Option Bytes
  pub open_write : A → Option Bytes
  pub get_string : A → Bytes → Result Bytes
  pub set_string : A → Bytes → Bytes → A × Option Bytes
  pub delete_value : A → Bytes → A × Option Bytes

module _ {A : Type 0} (reg : Registry A) (executable : Result Bytes) where
  unfoldable pub status : A → Bool × Bool
  status a = elim (reg.open_read a) [
    | some _ ↦ (false, true)
    | none ↦ elim (reg.get_string a value_name) [ err _ ↦ (false, true) | ok _ ↦ (true, true) ]
  ]

  abbrev pub command : Bytes → Bytes
  command exe = codes "\"" ++ (exe ++ codes "\" run")

  abbrev no_key : Bytes → Option Bytes
  no_key e = some (codes "autostart: registersleutel: " ++ e)

  unfoldable pub enable : A → A × Option Bytes
  enable a = elim executable [
    | err e ↦ (a, some e)
    | ok exe ↦ elim (reg.open_write a) [
      | some e ↦ (a, no_key e)
      | none ↦ reg.set_string a value_name (command exe)
    ]
  ]

  unfoldable pub disable : A → A × Option Bytes
  disable a = elim (reg.open_write a) [
    | some e ↦ (a, no_key e)
    | none ↦ reg.delete_value a value_name
  ]

  unfoldable pub run_key : Manager A
  unfolding status enable disable
  run_key = record { status = status; enable = enable; disable = disable }

  deleted_off : {a : A} {e : Bytes} → reg.get_string a value_name ≡ err e → status a ≡ (false, true)
  unfolding status
  deleted_off gone = ground (arith, gone)

  set_on :
      {a : A} {v : Bytes}
      → reg.open_read a ≡ none
      → reg.get_string a value_name ≡ ok v
      → status a ≡ (true, true)
  unfolding status
  set_on opened found = ground (arith, opened, found)

  -- What the registry's calls are documented to do: a value that was set is read, one that was
  -- deleted is not.
  pub record IsDocumented : Type 0 where
    pub opens :
        (a : A) (name value : Bytes)
        → (reg.set_string a name value).1 ≡ none
        → reg.open_read (reg.set_string a name value).0 ≡ none
    pub set :
        (a : A) (name value : Bytes)
        → (reg.set_string a name value).1 ≡ none
        → reg.get_string (reg.set_string a name value).0 name ≡ ok value
    pub deleted :
        (a : A) (name : Bytes)
        → (reg.delete_value a name).1 ≡ none
        → (e : Bytes) × (reg.get_string (reg.delete_value a name).0 name ≡ err e)

  set_done :
      (a : A)
      → (enable a).1 ≡ none
      → (exe : Bytes) × ((reg.set_string a value_name (command exe)).1 ≡ none)
        × ((enable a).0 ≡ (reg.set_string a value_name (command exe)).0)
  unfolding enable
  set_done a h = elim (Result-cases executable) [
    | inl (exe, found) ↦ elim (Option-cases (reg.open_write a)) [
      | inl opened ↦ (exe, ground (arith, found, opened), ground (arith, found, opened))
      | inr (e, shut) ↦ absurd (ground (arith, found, shut))
    ]
    | inr (e, missing) ↦ absurd (ground (arith, missing))
  ]

  delete_done :
      (a : A)
      → (disable a).1 ≡ none
      → ((reg.delete_value a value_name).1 ≡ none)
        × ((disable a).0 ≡ (reg.delete_value a value_name).0)
  unfolding disable
  delete_done a h = ground arith

  -- Given what the registry documents, the Run key's switch stands where it was put without an error.
  pub run_key-IsSwitch : IsDocumented → IsSwitch run_key
  unfolding run_key
  run_key-IsSwitch doc = record {
    enabled = λ a h.
        let (exe, fine, left) = set_done a h in
        let line = command exe in
        rw left (set_on (doc.opens a value_name line fine) (doc.set a value_name line fine));
    disabled = λ a h.
        let (fine, left) = delete_done a h in
        let (e, gone) = doc.deleted a value_name fine in rw left (deleted_off gone);
  }
