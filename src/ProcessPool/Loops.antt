-- ===== src/ProcessPool/Loops.antt =====
-- process/processpool/processpool.h: when the loops of run_child and run_parent end.
use advanced_programming_in.Base.{
  ℕ, ◌≡◌, refl, ap, sym, ◌∙◌, Bool-cases, inl, inr, Bool, true, false, not, ◌&&◌, ◌||◌, Option,
  none, some, List, [], ◌∷◌, ◌==◌, arith,
}
use mathlib.Core.Bool.{or_assoc}
use advanced_programming_in.Kernel.{Kernel}
use advanced_programming_in.ProcessPool.{
  Signal, sigchld, sigterm, sigint, other_signal, Notice, arrived, interrupted_recv, no_notice,
  Event, Wait, wait_failed, interrupted, ready, Progress, running, ended, State, setup_sig_pipe,
  child_signal, child_signals, child_accept, child_event, serve, loop, run_child,
}

abbrev pub any {ℓ} : {A : Type ℓ} → (A → Bool) → List A → Bool
any p [] = false
any p (x ∷ xs) = p x || any p xs

-- SIGTERM or SIGINT
abbrev pub is_stop : Signal → Bool
is_stop sigterm = true
is_stop sigint = true
is_stop g = false

abbrev pub has_ended {ℓ} : {S : Type ℓ} → Progress S → Bool
has_ended (running s) = false
has_ended (ended s) = true

-- A call of epoll_wait after which the loop ends, where `stops` tells which events stop it.
abbrev pub ends_loop : (Event → Bool) → Wait → Bool
ends_loop stops wait_failed = true
ends_loop stops interrupted = false
ends_loop stops (ready es) = any stops es

-- An event that tells a child to stop: a signal among those that came in on the signal pipe.
abbrev pub stops_child : (pipefd sigfd : ℕ) → Event → Bool
stops_child pipefd sigfd e =
    not ((e.fd == pipefd) && e.input) && ((e.fd == sigfd) && e.input) && any is_stop e.signals

or_false : (b : Bool) → (b || false) ≡ b
or_false true = refl
or_false false = refl

or_true : (b : Bool) → (b || true) ≡ true
or_true true = refl
or_true false = refl

module _ (k : Kernel) where
  module _ (handle : State k → Event → State k) where
    loop_stopped : (s : State k) (ws : List Wait) → s.stop ≡ true → loop k handle s ws ≡ ended s
    unfolding loop
    loop_stopped s [] e = ground arith
    loop_stopped s (w ∷ ws) e = ground arith

    pub loop_waits : (s : State k) → s.stop ≡ false → loop k handle s [] ≡ running s
    unfolding loop
    loop_waits s e = ground arith

    loop_fails :
        (s : State k) (ws : List Wait)
        → s.stop ≡ false
        → loop k handle s (wait_failed ∷ ws) ≡ ended s
    unfolding loop
    loop_fails s ws e = ground arith

    pub loop_again :
        (s : State k) (ws : List Wait)
        → s.stop ≡ false
        → loop k handle s (interrupted ∷ ws) ≡ loop k handle s ws
    unfolding loop
    loop_again s ws e = ground arith

    pub loop_serves :
        (s : State k) (es : List Event) (ws : List Wait)
        → s.stop ≡ false
        → loop k handle s (ready es ∷ ws) ≡ loop k handle (serve k handle s es) ws
    unfolding loop
    loop_serves s es ws e = ground arith

    -- If `stops` tells which events set the flag, the loop ends exactly at the first call of
    -- epoll_wait that fails or brings such an event.
    module _ (stops : Event → Bool)
        (sets : (s : State k) (e : Event) → (handle s e).stop ≡ (s.stop || stops e)) where
      serve-stop :
          (s : State k) (es : List Event) → (serve k handle s es).stop ≡ (s.stop || any stops es)
      unfolding serve
      serve-stop s [] = sym (or_false s.stop)
      serve-stop s (e ∷ es) =
          serve-stop (handle s e) es
          ∙ (ap (λ b. b || any stops es) (sets s e) ∙ or_assoc s.stop (stops e) (any stops es))

      pub loop_lem :
          (s : State k) (ws : List Wait)
          → s.stop ≡ false
          → has_ended (loop k handle s ws) ≡ any (ends_loop stops) ws
      loop_lem s [] up = ap has_ended (loop_waits s up)
      loop_lem s (wait_failed ∷ ws) up = ap has_ended (loop_fails s ws up)
      loop_lem s (interrupted ∷ ws) up = ap has_ended (loop_again s ws up) ∙ loop_lem s ws up
      loop_lem s (ready es ∷ ws) up =
          let s' = serve k handle s es in
          let flag : s'.stop ≡ any stops es = serve-stop s es ∙ ap (λ b. b || any stops es) up in
          ap has_ended (loop_serves s es ws up) ∙ elim (Bool-cases (any stops es)) [
            | inl stop ↦ rw stop (ap has_ended (loop_stopped s' ws (flag ∙ stop)))
            | inr on ↦ rw on (loop_lem s' ws (flag ∙ on))
          ]

  child_signals-stop :
      (s : State k) (gs : List Signal) → (child_signals k s gs).stop ≡ (s.stop || any is_stop gs)
  unfolding child_signals child_signal
  child_signals-stop s [] = sym (or_false s.stop)
  child_signals-stop s (sigchld pids ∷ gs) = child_signals-stop (child_signal k s (sigchld pids)) gs
  child_signals-stop s (sigterm ∷ gs) =
      child_signals-stop (child_signal k s sigterm) gs ∙ sym (or_true s.stop)
  child_signals-stop s (sigint ∷ gs) =
      child_signals-stop (child_signal k s sigint) gs ∙ sym (or_true s.stop)
  child_signals-stop s (other_signal ∷ gs) = child_signals-stop s gs

  child_accept-stop :
      (s : State k) (n : Notice) (confd : Option ℕ) → (child_accept k s n confd).stop ≡ s.stop
  unfolding child_accept
  child_accept-stop s no_notice confd = refl
  child_accept-stop s arrived none = refl
  child_accept-stop s arrived (some fd) = refl
  child_accept-stop s interrupted_recv none = refl
  child_accept-stop s interrupted_recv (some fd) = refl

  child_event-stop :
      (pipefd sigfd : ℕ) (s : State k) (e : Event)
      → (child_event k pipefd sigfd s e).stop ≡ (s.stop || stops_child pipefd sigfd e)
  unfolding child_event
  child_event-stop pipefd sigfd s e = elim (Bool-cases ((e.fd == pipefd) && e.input)) [
    | inl pipe ↦ simp pipe (child_accept-stop s e.notice e.confd ∙ sym (or_false s.stop))
    | inr no_pipe ↦ elim (Bool-cases ((e.fd == sigfd) && e.input)) [
      | inl signal ↦ simp (no_pipe, signal) (child_signals-stop s e.signals)
      | inr no_signal ↦ simp (no_pipe, no_signal) (sym (or_false s.stop))
    ]
  ]

  -- run_child ends exactly with the first call of epoll_wait that fails, or that reports the signal
  -- pipe with SIGTERM or SIGINT among its signals: then after it has served the whole batch.
  pub run_child_lem :
      (pipefd sigfd : ℕ) (e : k.State) (ws : List Wait)
      → has_ended (run_child k pipefd sigfd e ws) ≡ any (ends_loop (stops_child pipefd sigfd)) ws
  unfolding run_child setup_sig_pipe
  run_child_lem pipefd sigfd e ws =
      loop_lem (child_event k pipefd sigfd) (stops_child pipefd sigfd)
        (child_event-stop pipefd sigfd) _ ws refl
