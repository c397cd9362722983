-- ===== src/Session/Windows/Watch/Again.antt =====
-- One watcher after another, in one process.
use lockping_agent.Prelude.{
  ℕ, Bool, false, List, refl, [], ◌∷◌, ◌++◌, none, some, ◌≡◌, subst, ap, sym, ◌∙◌, inl, inr, arith,
  Bytes, codes, ok, err, Result-cases, Bool-cases, Option-cases,
}
use lockping_agent.Session.Windows.{locked}
use lockping_agent.Session.Windows.Watch.{
  Win32, class_name, failed, Course, Process, create_message_window, open_loop, on_destroy,
  wnd_proc, closed, watch_window, watch,
}

-- What Win32 documents of a window class: it is registered until the process ends, as far as the
-- program's calls go, those that fail included, and a second registration of its name fails.
pub record IsDocumented {W : Type 0} (api : Win32 W) (HasClass : W → Type 0) : Type 0 where
  pub registered :
      (w : W)
      → (api.register_class w class_name).1 ≡ none
      → HasClass (api.register_class w class_name).0
  pub kept : (w : W) → HasClass w → HasClass (api.register_class w class_name).0
  pub taken : (w : W) → HasClass w → (e : Bytes) × ((api.register_class w class_name).1 ≡ some e)
  pub created : (w : W) → HasClass w → HasClass (api.create_window w class_name).0
  pub destroyed : (w : W) (hwnd : ℕ) → HasClass w → HasClass (api.destroy_window w hwnd)
  pub notified : (w : W) (hwnd : ℕ) → HasClass w → HasClass (api.register_session w hwnd).0
  pub unnotified : (w : W) (hwnd : ℕ) → HasClass w → HasClass (api.unregister_session w hwnd)
  pub posted : (w : W) → HasClass w → HasClass (api.post_quit w)

module _ {W : Type 0} (api : Win32 W) where
  -- Whatever happens, a Watch that returns has let go of the flag that it took: the process is as
  -- free for the next one as it was, and a Watch beside another does nothing but fail.
  pub watch-active : (p : Process W) (course : Course) → (watch api p course).0.active ≡ p.active
  unfolding watch
  watch-active p course = elim (Bool-cases p.active) [
    | inl busy ↦ ground (arith, busy)
    | inr free ↦ elim (Result-cases (locked (api.query_session p.win))) [
      | inl (last, known) ↦ ground (arith, free, known)
      | inr (e, lost) ↦ ground (arith, free, lost)
    ]
  ]

  -- Watches one after the other.
  unfoldable pub watches : Process W → List Course → Process W
  watches p [] = p
  watches p (course ∷ courses) = watches (watch api p course).0 courses

  watches-active : (p : Process W) (courses : List Course) → (watches p courses).active ≡ p.active
  unfolding watches
  watches-active p [] = refl
  watches-active p (course ∷ courses) =
      watches-active (watch api p course).0 courses ∙ watch-active p course

  module _ (HasClass : W → Type 0) (doc : IsDocumented api HasClass) where
    create_HasClass :
        (w : W) {hwnd : ℕ}
        → (create_message_window api w).1 ≡ ok hwnd
        → HasClass (create_message_window api w).0
    unfolding create_message_window
    create_HasClass w {hwnd} h = elim (Option-cases (api.register_class w class_name).1) [
      | inr (e, refused) ↦ absurd (ground (arith, refused))
      | inl fine ↦
          elim (Result-cases (api.create_window (api.register_class w class_name).0 class_name).1) [
            | inr (e, refused) ↦ absurd (ground (arith, fine, refused))
            | inl (window, made) ↦
                rw (fine, create_message_window) (rw made (doc.created _ (doc.registered w fine)))
          ]
    ]

    open_loop-HasClass :
        (w : W) {hwnd : ℕ} → (open_loop api w).1 ≡ ok hwnd → HasClass (open_loop api w).0
    unfolding open_loop
    open_loop-HasClass w {hwnd} h = elim (Result-cases (create_message_window api w).1) [
      | inr (e, refused) ↦ absurd (ground (arith, refused))
      | inl (window, made) ↦
          elim (Option-cases (api.register_session (create_message_window api w).0 window).1) [
            | inr (e, refused) ↦ absurd (ground (arith, made, refused))
            | inl fine ↦
                rw (made, open_loop) (rw fine (doc.notified _ window (create_HasClass w made)))
          ]
    ]

    closed-HasClass : (w : W) (hwnd : ℕ) → HasClass w → HasClass (closed api w hwnd)
    unfolding closed wnd_proc on_destroy
    closed-HasClass w hwnd h = doc.posted _ (doc.unnotified _ hwnd (doc.destroyed w hwnd h))

    taken_refuses :
        (w : W)
        → HasClass w
        → (e : Bytes) × ((create_message_window api w).1
            ≡ err (codes "session: RegisterClassEx: " ++ e))
          × HasClass (create_message_window api w).0
    unfolding create_message_window
    taken_refuses w h =
        let (e, refused) = doc.taken w h in
        (e, ground (arith, refused), rw (refused, create_message_window) (doc.kept w h))

    taken_fails :
        (w : W)
        → HasClass w
        → (e : Bytes) × ((open_loop api w).1 ≡ err (codes "session: RegisterClassEx: " ++ e))
          × HasClass (open_loop api w).0
    unfolding open_loop
    taken_fails w h =
        let (e, refused, has) = taken_refuses w h in
        (e, ground (arith, refused), rw (refused, open_loop) has)

    window-HasClass :
        (w : W) (last : Bool) (course : Course) {hwnd : ℕ}
        → (open_loop api w).1 ≡ ok hwnd
        → HasClass (watch_window api w last course).0
    unfolding watch_window
    window-HasClass w last course {hwnd} h = elim (Bool-cases course.by_context) [
      | inl by_context ↦
          rw (h, watch_window) (rw by_context (closed-HasClass _ hwnd (open_loop-HasClass w h)))
      | inr by_loop ↦ rw (h, watch_window) (rw by_loop (open_loop-HasClass w h))
    ]

    watched :
        (p : Process W) (course : Course) {last : Bool}
        → p.active ≡ false
        → locked (api.query_session p.win) ≡ ok last
        → watch api p course ≡ (
          record { win = (watch_window api p.win last course).0; active = false },
          (watch_window api p.win last course).1,
        )
    unfolding watch
    watched p course free known = ground (arith, free, known)

    window_fails :
        (w : W) (last : Bool) (course : Course) {e : Bytes}
        → (open_loop api w).1 ≡ err e
        → (watch_window api w last course).1 ≡ (last ∷ [], failed e)
    unfolding watch_window
    window_fails w last course h = ground (arith, h)

    window_fails-HasClass :
        (w : W) (last : Bool) (course : Course) {e : Bytes}
        → (open_loop api w).1 ≡ err e
        → HasClass (open_loop api w).0
        → HasClass (watch_window api w last course).0
    unfolding watch_window
    window_fails-HasClass w last course refused has = rw (refused, watch_window) has

    -- A class that is there stays, whatever a Watch meets.
    watch-HasClass :
        (p : Process W) (course : Course) → HasClass p.win → HasClass (watch api p course).0.win
    unfolding watch
    watch-HasClass p course has = elim (Bool-cases p.active) [
      | inl busy ↦ rw (busy, watch) has
      | inr free ↦ elim (Result-cases (locked (api.query_session p.win))) [
        | inr (e, lost) ↦ rw (free, watch) (rw lost has)
        | inl (last, known) ↦
            let (e, refused, still) = taken_fails p.win has in
            subst (λ x. HasClass x.0.win) (sym (watched p course free known))
              (window_fails-HasClass p.win last course refused still)
      ]
    ]

    watches-HasClass :
        (p : Process W) (courses : List Course) → HasClass p.win → HasClass (watches p courses).win
    unfolding watches
    watches-HasClass p [] has = has
    watches-HasClass p (course ∷ courses) has =
        watches-HasClass (watch api p course).0 courses (watch-HasClass p course has)

    -- A process can watch once. After a Watch that had its window, whether it ended by its context
    -- or by the window's loop, and after any further ones, a Watch that can read the state at first
    -- reports it and then fails: the window's class is registered already, and is never
    -- unregistered.
    pub second_watch_fails :
        (p : Process W) (course : Course) (courses : List Course) (course' : Course)
        {last last' : Bool} {hwnd : ℕ}
        → p.active ≡ false
        → locked (api.query_session p.win) ≡ ok last
        → (open_loop api p.win).1 ≡ ok hwnd
        → locked (api.query_session (watches (watch api p course).0 courses).win) ≡ ok last'
        → (e : Bytes) × ((watch api (watches (watch api p course).0 courses) course').1
            ≡ (last' ∷ [], failed (codes "session: RegisterClassEx: " ++ e)))
    second_watch_fails p course courses course' {last} {last'} free known opened known' =
        let first = watched p course free known in
        let has : HasClass (watch api p course).0.win =
          subst (λ x. HasClass x.0.win) (sym first) (window-HasClass p.win last course opened) in
        let (e, refused, _) = taken_fails _ (watches-HasClass _ courses has) in
        let idle = watches-active (watch api p course).0 courses ∙ watch-active p course ∙ free in
        (e, ap (λ x. x.1) (watched _ course' idle known') ∙ window_fails _ last' course' refused)
