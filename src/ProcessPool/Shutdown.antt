-- ===== src/ProcessPool/Shutdown.antt =====
-- process/processpool/processpool.h: what run_parent does with signals, and in the parent that the
-- constructor gives.
use advanced_programming_in.Base.{
  ℕ, zero, suc, ◌+◌, ◌<◌, ◌≡◌, refl, ap, sym, ◌∙◌, Bool-cases, inl, inr, Bool, false, ◌&&◌, ◌||◌,
  List, [], ◌∷◌, ◌++◌, ◌==◌, if◌then◌else◌, get_or, length, append_assoc, append-nil, arith,
}
use advanced_programming_in.Kernel.{Kernel}
use advanced_programming_in.ProcessPool.{
  Process, no_process, Forked, in_parent, start_processes, kill_all, Signal, sigchld, sigterm,
  sigint, other_signal, Event, Wait, wait_failed, interrupted, ready, running, State, addfd,
  setup_sig_pipe, parent_signal, parent_signals, parent_event, serve, loop, run_parent,
}
use advanced_programming_in.ProcessPool.Family.{started, parent_lem}
use advanced_programming_in.ProcessPool.Loops.{
  any, ends_loop, loop_again, loop_serves, loop_waits, is_stop,
}

-- How many SIGTERM and SIGINT the parent gets.
abbrev pub stop_signals : List Signal → ℕ
stop_signals [] = 0
stop_signals (g ∷ gs) = (if is_stop g then 1 else 0) + stop_signals gs

abbrev pub stop_events : (listenfd sigfd : ℕ) → List Event → ℕ
stop_events listenfd sigfd [] = 0
stop_events listenfd sigfd (e ∷ es) =
    (if e.fd == listenfd
      then 0
      else if (e.fd == sigfd) && e.input
      then stop_signals e.signals
      else 0)
    + stop_events listenfd sigfd es

abbrev pub stop_requests : (listenfd sigfd : ℕ) → List Wait → ℕ
stop_requests listenfd sigfd [] = 0
stop_requests listenfd sigfd (ready es ∷ ws) =
    stop_events listenfd sigfd es + stop_requests listenfd sigfd ws
stop_requests listenfd sigfd (w ∷ ws) = stop_requests listenfd sigfd ws

-- `n` copies of a list, one behind the other.
abbrev pub copies : ℕ → List ℕ → List ℕ
copies zero l = []
copies (suc n) l = l ++ copies n l

copies-add : (m n : ℕ) (l : List ℕ) → copies (m + n) l ≡ copies m l ++ copies n l
copies-add zero n l = let e : 0 + n ≡ n = omega arith in rw e refl
copies-add (suc m) n l =
    let e : suc m + n ≡ suc (m + n) = omega arith in
    rw e (ap (λ r. l ++ r) (copies-add m n l) ∙ sym (append_assoc l (copies m l) (copies n l)))

-- The pids that fork has returned from the round `i` on.
abbrev pub pids_from : (n i : ℕ) → (ℕ → ℕ) → List ℕ
pids_from zero i pid = []
pids_from (suc n) i pid = pid i ∷ pids_from n (i + 1) pid

kill_all-started :
    (subs : List Process) (i : ℕ) (pid : ℕ → ℕ)
    → ((j : ℕ) → j < length subs → get_or subs j no_process ≡ started (pid (i + j)))
    → kill_all subs ≡ pids_from (length subs) i pid
unfolding kill_all
kill_all-started [] i pid all = refl
kill_all-started (p ∷ subs) i pid all =
    let first : p ≡ started (pid i) =
      all 0 (omega arith) ∙ ap (λ n. started (pid n)) (omega arith) in
    let rest =
      kill_all-started subs (i + 1) pid
        (λ j lt. all (suc j) (omega arith) ∙ ap (λ n. started (pid n)) (omega arith)) in
    rw first (ap (λ r. pid i ∷ r) rest)

-- epoll_wait fails.
abbrev pub is_failure : Wait → Bool
is_failure w = ends_loop (λ e. false) w

no_stop : (es : List Event) → any (λ (e : Event). false) es ≡ false
no_stop [] = refl
no_stop (e ∷ es) = no_stop es

fine_after :
    (es : List Event) (ws : List Wait)
    → any is_failure (ready es ∷ ws) ≡ false
    → any is_failure ws ≡ false
fine_after es ws fine = sym (ap (λ b. b || any is_failure ws) (no_stop es)) ∙ fine

module _ (k : Kernel) (subs : List Process) where
  -- What handling adds to the pids that got SIGTERM, with the flag left alone.
  abbrev Kills : State k → ℕ → State k → Type 0
  Kills s n t = (t.stop ≡ s.stop) × (t.killed ≡ s.killed ++ copies n (kill_all subs))

  Kills-trans : (s t u : State k) (m n : ℕ) → Kills s m t → Kills t n u → Kills s (m + n) u
  Kills-trans s t u m n (a, b) (c, d) = (
    c ∙ a,
    d
        ∙ (ap (λ r. r ++ copies n (kill_all subs)) b
            ∙ (append_assoc s.killed (copies m (kill_all subs)) (copies n (kill_all subs))
                ∙ ap (λ r. s.killed ++ r) (sym (copies-add m n (kill_all subs))))),
  )

  parent_signal-Kills :
      (s : State k) (g : Signal) → Kills s (if is_stop g then 1 else 0) (parent_signal k subs s g)
  unfolding parent_signal
  parent_signal-Kills s (sigchld pids) = (refl, sym (append-nil s.killed))
  parent_signal-Kills s sigterm = (refl, ap (λ r. s.killed ++ r) (sym (append-nil (kill_all subs))))
  parent_signal-Kills s sigint = (refl, ap (λ r. s.killed ++ r) (sym (append-nil (kill_all subs))))
  parent_signal-Kills s other_signal = (refl, sym (append-nil s.killed))

  parent_signals-Kills :
      (s : State k) (gs : List Signal) → Kills s (stop_signals gs) (parent_signals k subs s gs)
  unfolding parent_signals
  parent_signals-Kills s [] = (refl, sym (append-nil s.killed))
  parent_signals-Kills s (g ∷ gs) =
      let t = parent_signal k subs s g in
      Kills-trans s t (parent_signals k subs t gs) (if is_stop g then 1 else 0) (stop_signals gs)
        (parent_signal-Kills s g) (parent_signals-Kills t gs)

  module _ (listenfd sigfd : ℕ) where
    -- What an event adds.
    abbrev requests_of : Event → ℕ
    requests_of e =
        if e.fd == listenfd
        then 0
        else if (e.fd == sigfd) && e.input
        then stop_signals e.signals
        else 0

    parent_event-Kills :
        (s : State k) (e : Event) → Kills s (requests_of e) (parent_event k subs listenfd sigfd s e)
    unfolding parent_event
    parent_event-Kills s e = elim (Bool-cases (e.fd == listenfd)) [
      | inl new ↦ simp new (refl, sym (append-nil s.killed))
      | inr old ↦ elim (Bool-cases ((e.fd == sigfd) && e.input)) [
        | inl signal ↦ simp (old, signal) (parent_signals-Kills s e.signals)
        | inr rest ↦ simp (old, rest) (refl, sym (append-nil s.killed))
      ]
    ]

    serve-Kills :
        (s : State k) (es : List Event)
        → Kills s
            (stop_events listenfd sigfd es)
            (serve k (parent_event k subs listenfd sigfd) s es)
    unfolding serve
    serve-Kills s [] = (refl, sym (append-nil s.killed))
    serve-Kills s (e ∷ es) =
        let t = parent_event k subs listenfd sigfd s e in
        Kills-trans s t (serve k (parent_event k subs listenfd sigfd) t es) (requests_of e)
          (stop_events listenfd sigfd es) (parent_event-Kills s e) (serve-Kills t es)

    loop-Kills :
        (s : State k) (ws : List Wait)
        → s.stop ≡ false
        → any is_failure ws ≡ false
        → (t : State k) × (loop k (parent_event k subs listenfd sigfd) s ws ≡ running t)
          × Kills s (stop_requests listenfd sigfd ws) t
    loop-Kills s [] up fine = (
      s,
      loop_waits k (parent_event k subs listenfd sigfd) s up,
      (refl, sym (append-nil s.killed)),
    )
    loop-Kills s (wait_failed ∷ ws) up fine = absurd (cc fine)
    loop-Kills s (interrupted ∷ ws) up fine =
        let (t, e, kills) = loop-Kills s ws up fine in
        (t, loop_again k (parent_event k subs listenfd sigfd) s ws up ∙ e, kills)
    loop-Kills s (ready es ∷ ws) up fine =
        let handle = parent_event k subs listenfd sigfd in
        let u = serve k handle s es in
        let served = serve-Kills s es in
        let (t, e, kills) = loop-Kills u ws (served.0 ∙ up) (fine_after es ws fine) in
        (
          t,
          loop_serves k handle s es ws up ∙ e,
          Kills-trans s u t (stop_events listenfd sigfd es) (stop_requests listenfd sigfd ws) served
              kills,
        )

-- The parent of `n` children never ends its loop for a signal, but only when epoll_wait fails; until
-- then it has sent SIGTERM to all its children, in the order of their creation, once for each
-- SIGTERM or SIGINT that came in on its signal pipe, and to nobody else.
pub run_parent_lem :
    (k : Kernel) (n : ℕ) (forks : ℕ → Forked) (pid : ℕ → ℕ) (listenfd sigfd : ℕ) (e : k.State)
    (ws : List Wait)
    → ((j : ℕ) → j < n → forks j ≡ in_parent (pid j))
    → any is_failure ws ≡ false
    → (t : State k) × (run_parent k (start_processes n forks).0 listenfd sigfd e ws ≡ running t)
      × (t.killed ≡ copies (stop_requests listenfd sigfd ws) (pids_from n 0 pid))
unfolding run_parent setup_sig_pipe
run_parent_lem k n forks pid listenfd sigfd e ws all fine =
    let subs = (start_processes n forks).0 in
    let (role, size, known) = parent_lem forks pid n all in
    let s = setup_sig_pipe k sigfd e in
    let (t, eq, (up, kills)) =
      loop-Kills k subs listenfd sigfd (record s { epoll = addfd k listenfd s.epoll }) ws refl
        fine in
    let pids : kill_all subs ≡ pids_from n 0 pid =
      kill_all-started subs 0 pid
        (λ j lt. known j (omega (arith, size)) ∙ ap (λ i. started (pid i)) (omega arith))
      ∙ ap (λ m. pids_from m 0 pid) size in
    (t, eq, kills ∙ ap (copies (stop_requests listenfd sigfd ws)) pids)
