-- ===== src/Command/Main/Effects.antt =====
-- What each command may touch.
use lockping_agent.Prelude.{
  List, ◌≡◌, refl, ◌⊎◌, inl, inr, arith, Bytes, codes, bytes_eq, bytes_eq_iff, Result-cases,
  Bool-cases, ok,
}
use lockping_agent.Session.{Controller}
use lockping_agent.Command.Main.{
  World, Program, install_autostart, uninstall_autostart, switched, open_ui, status, lock, watch,
  with_session, run,
}

module _ {A S : Type 0} where
  install_session :
      (p : Program A S) (w : World A S) → (install_autostart p w).0.session ≡ w.session
  unfolding install_autostart switched
  install_session p w = ground arith

  uninstall_session :
      (p : Program A S) (w : World A S) → (uninstall_autostart p w).0.session ≡ w.session
  unfolding uninstall_autostart switched
  uninstall_session p w = ground arith

  status_session : (sess : Controller S) (w : World A S) → (status sess w).0.session ≡ w.session
  unfolding status
  status_session sess w = ground arith

  watch_session : (p : Program A S) (w : World A S) → (watch p w).0.session ≡ w.session
  unfolding watch
  watch_session p w = refl

  open_session : (w : World A S) → (open_ui w).0.session ≡ w.session
  unfolding open_ui
  open_session w = refl

  lock_session :
      (sess : Controller S) (w : World A S) → (lock sess w).0.session ≡ (sess.lock w.session).0
  unfolding lock
  lock_session sess w = refl

  -- The session is as it was, or `lock` asked for its lock, once, or the agent ran.
  Touched : Program A S → World A S → Bytes → World A S → Type 0
  Touched p w cmd w' =
      (w'.session ≡ w.session)
      ⊎ (((sess : Controller S) × (p.controller ≡ ok sess)
            × (cmd ≡ codes "lock")
            × (w'.session ≡ (sess.lock w.session).0))
          ⊎ (cmd ≡ codes "run"))

  with_session-Touched :
      (p : Program A S) (sess : Controller S) (w : World A S) (cmd : Bytes) (args : List Bytes)
      → p.controller ≡ ok sess
      → Touched p w cmd (with_session p sess w cmd args).0
  unfolding with_session Touched
  with_session-Touched p sess w cmd args found = elim (Bool-cases (bytes_eq cmd (codes "status"))) [
    | inl is ↦ inl (rw is (status_session sess w))
    | inr not_status ↦ elim (Bool-cases (bytes_eq cmd (codes "lock"))) [
      | inl is ↦ inr (
          inl (
            sess,
            found,
            (bytes_eq_iff cmd (codes "lock")).0 is,
            rw (not_status, is) (lock_session sess w),
          ))
      | inr not_lock ↦ elim (Bool-cases (bytes_eq cmd (codes "watch"))) [
        | inl is ↦ inl (rw (not_status, not_lock, is) (watch_session p w))
        | inr not_watch ↦ elim (Bool-cases (bytes_eq cmd (codes "run"))) [
          | inl is ↦ inr (inr ((bytes_eq_iff cmd (codes "run")).0 is))
          | inr not_run ↦ inl (rw (not_status, not_lock, not_watch, not_run))
        ]
      ]
    ]
  ]

  -- Whatever the command, the session is left as it was; or the command is lock, the session was
  -- found, and it was asked to lock, once; or the command is run, the agent.
  pub run_touched :
      (p : Program A S) (w : World A S) (cmd : Bytes) (args : List Bytes)
      → ((run p w cmd args).0.session ≡ w.session)
        ⊎ (((sess : Controller S) × (p.controller ≡ ok sess)
              × (cmd ≡ codes "lock")
              × ((run p w cmd args).0.session ≡ (sess.lock w.session).0))
            ⊎ (cmd ≡ codes "run"))
  unfolding run Touched
  run_touched p w cmd args = elim (Bool-cases (bytes_eq cmd (codes "install"))) [
    | inl is ↦ inl (rw is (install_session p w))
    | inr not_install ↦ elim (Bool-cases (bytes_eq cmd (codes "uninstall"))) [
      | inl is ↦ inl (rw (not_install, is) (uninstall_session p w))
      | inr not_uninstall ↦ elim (Bool-cases (bytes_eq cmd (codes "open"))) [
        | inl is ↦ inl (rw (not_install, not_uninstall, is) (open_session w))
        | inr not_open ↦ elim (Result-cases p.controller) [
          | inr (e, failed) ↦ inl (rw (not_install, not_uninstall, not_open, failed))
          | inl (sess, found) ↦
              let same : run p w cmd args ≡ with_session p sess w cmd args =
                ground (arith, found) in
              rw same (with_session-Touched p sess w cmd args found)
        ]
      ]
    ]
  ]
