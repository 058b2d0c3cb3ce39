-- ===== src/TimerServer/Idle.antt =====
-- timer/timer_list/main.cpp: the end of a turn, where the clients that have been idle are closed.
use advanced_programming_in.Base.{
  ltb, drop-append, ℕ, ◌<◌, ◌≡◌, ◌≢◌, refl, ap, subst, sym, ◌∙◌, inl, inr, true, false, Bool-cases,
  none, List, [], ◌∷◌, map, drop, ◌==◌, if◌then◌else◌, arith, length,
}
use advanced_programming_in.Kernel.{Kernel}
use advanced_programming_in.TimerList.{Timers, tick}
use advanced_programming_in.TimerList.Nodes.{ok, ◌>>=◌}
use advanced_programming_in.TimerList.Segment.{Cell, IsList}
use advanced_programming_in.TimerList.Tick.{due, not_due, tick_lem}
use advanced_programming_in.TimerServer.{Client, Server, cb_func, call_backs, serve_timeout}
use advanced_programming_in.TimerServer.Handlers.{cb_func-gone, cb_func-other}

module _ (k : Kernel) (users : ℕ → Client) where
  open k use {watched}

  -- The descriptor of each of these clients is out of the set.
  abbrev pub AllOut : List ℕ → k.State → Type 0
  AllOut [] e = Unit
  AllOut (c ∷ cs) e = (watched e (users c).confd ≡ none) × AllOut cs e

  -- None of these clients has the descriptor `g`.
  abbrev pub NoneHas : ℕ → List ℕ → Type 0
  NoneHas g [] = Unit
  NoneHas g (c ∷ cs) = (g ≢ (users c).confd) × NoneHas g cs

  cb_func-keeps :
      (c : Client) (e : k.State) (g : ℕ) → watched e g ≡ none → watched (cb_func k c e) g ≡ none
  cb_func-keeps c e g out = elim (Bool-cases (g == c.confd)) [
    | inl q ↦ ap (watched (cb_func k c e)) (ground arith) ∙ cb_func-gone k c e
    | inr q ↦ cb_func-other k c e g (ground arith) ∙ out
  ]

  call_backs-keeps :
      (cs : List ℕ) (e : k.State) (g : ℕ)
      → watched e g ≡ none
      → watched (call_backs k users cs e) g ≡ none
  unfolding call_backs
  call_backs-keeps [] e g out = out
  call_backs-keeps (c ∷ cs) e g out =
      call_backs-keeps cs (cb_func k (users c) e) g (cb_func-keeps (users c) e g out)

  call_backs-AllOut : (cs : List ℕ) (e : k.State) → AllOut cs (call_backs k users cs e)
  unfolding call_backs
  call_backs-AllOut [] e = tt
  call_backs-AllOut (c ∷ cs) e = (
    call_backs-keeps cs (cb_func k (users c) e) (users c).confd (cb_func-gone k (users c) e),
    call_backs-AllOut cs (cb_func k (users c) e),
  )

  call_backs-other :
      (cs : List ℕ) (e : k.State) (g : ℕ)
      → NoneHas g cs
      → watched (call_backs k users cs e) g ≡ watched e g
  unfolding call_backs
  call_backs-other [] e g apart = refl
  call_backs-other (c ∷ cs) e g (apart, rest) =
      call_backs-other cs (cb_func k (users c) e) g rest ∙ cb_func-other k (users c) e g apart

-- The clients whose timers have expired at the time `now`.
abbrev pub expired : (now : ℕ) → List Cell → List ℕ
expired now cs = map (λ (c : Cell). c.user_data) (due now cs)

-- At the end of a turn, for any descriptors in client_data. When SIGALRM has come, with as many rounds as there are timers, and one:
-- the descriptors of the clients whose timers at the start of the list have expired leave epoll's
-- set, and no others do; those timers leave the list, and the note of the signal is cleared.
pub serve_timeout_lem :
    (k : Kernel) (fuel : ℕ) (s : Server k) (now : ℕ) (cs : List Cell)
    → s.timeout ≡ true
    → IsList s.timers cs
    → length cs < fuel
    → (s' : Server k) × (serve_timeout k fuel s now ≡ ok s')
      × IsList s'.timers (not_due now cs)
      × (s'.timeout ≡ false)
      × AllOut k s.users (expired now cs) s'.epoll
      × ((g : ℕ)
          → NoneHas k s.users g (expired now cs)
          → k.watched s'.epoll g ≡ k.watched s.epoll g)
unfolding serve_timeout
serve_timeout_lem k fuel s now cs alarm inv enough =
    let (ts, e, list, fired) = tick_lem fuel s.timers now cs inv enough in
    let after = λ (ts' : Timers). record s {
      timers = ts';
      epoll = call_backs k s.users (drop (length s.timers.fired) ts'.fired) s.epoll;
      timeout = false;
    } in
    let same : drop (length s.timers.fired) ts.fired ≡ expired now cs =
      ap (drop (length s.timers.fired)) fired ∙ drop-append s.timers.fired (expired now cs) in
    (
      after ts,
      ap (λ b. if b then (tick fuel s.timers now >>= λ ts'. ok (after ts')) else ok s) alarm
          ∙ ap (λ r. r >>= λ ts'. ok (after ts')) e,
      list,
      refl,
      subst (λ l. AllOut k s.users (expired now cs) (call_backs k s.users l s.epoll)) (sym same)
          (call_backs-AllOut k s.users (expired now cs) s.epoll),
      λ g apart.
          ap (λ l. k.watched (call_backs k s.users l s.epoll) g) same
          ∙ call_backs-other k s.users (expired now cs) s.epoll g apart,
    )

-- The client_data of each of these timers holds the descriptor `listenfd`, as accept_client stores it.
abbrev pub AllHold : (listenfd : ℕ) → (ℕ → Client) → List Cell → Type 0
AllHold listenfd users [] = Unit
AllHold listenfd users (c ∷ cs) = ((users c.user_data).confd ≡ listenfd) × AllHold listenfd users cs

some_out :
    (k : Kernel) (listenfd now : ℕ) (users : ℕ → Client) (e : k.State) (cs : List Cell)
    → AllHold listenfd users cs
    → AllOut k users (expired now cs) e
    → due now cs ≢ []
    → k.watched e listenfd ≡ none
some_out k listenfd now users e [] all out some_due = absurd (some_due refl)
some_out k listenfd now users e (c ∷ cs) (held, all) out some_due =
    elim (Bool-cases (ltb now c.expire)) [
      | inl early ↦ absurd (some_due (rw early refl))
      | inr late ↦
          let out' : AllOut k users (c.user_data ∷ expired now cs) e =
            subst
              (λ b.
                AllOut k users (map (λ (c : Cell). c.user_data) (if b then [] else c ∷ due now cs))
                  e)
              late out in
          ap (k.watched e) (sym held) ∙ out'.0
    ]

none_has :
    (k : Kernel) (listenfd now g : ℕ) (users : ℕ → Client) (cs : List Cell)
    → g ≢ listenfd
    → AllHold listenfd users cs
    → NoneHas k users g (expired now cs)
none_has k listenfd now g users [] apart all = tt
none_has k listenfd now g users (c ∷ cs) apart (held, all) = elim (Bool-cases (ltb now c.expire)) [
  | inl early ↦ rw early tt
  | inr late ↦ rw late ((λ q. apart (q ∙ held)), none_has k listenfd now g users cs apart all)
]

-- At the end of a turn in which SIGALRM has come, with as many rounds as there are timers, and one,
-- when client_data of each timer in the list holds the listening descriptor, as accept_client stores
-- it: the timers at the start of the list that have expired leave it, and the note of the signal is
-- cleared. If any has expired the listening descriptor leaves epoll's set; every other descriptor
-- stays as it is, that of an idle client included.
pub idle_closes_listener :
    (k : Kernel) (fuel listenfd : ℕ) (s : Server k) (now : ℕ) (cs : List Cell)
    → s.timeout ≡ true
    → IsList s.timers cs
    → length cs < fuel
    → AllHold listenfd s.users cs
    → (s' : Server k) × (serve_timeout k fuel s now ≡ ok s')
      × IsList s'.timers (not_due now cs)
      × (s'.timeout ≡ false)
      × (due now cs ≢ [] → k.watched s'.epoll listenfd ≡ none)
      × ((g : ℕ) → g ≢ listenfd → k.watched s'.epoll g ≡ k.watched s.epoll g)
idle_closes_listener k fuel listenfd s now cs alarm inv enough all =
    let (s', e, list, cleared, out, others) = serve_timeout_lem k fuel s now cs alarm inv enough in
    (
      s',
      e,
      list,
      cleared,
      λ some_due. some_out k listenfd now s.users s'.epoll cs all out some_due,
      λ g apart. others g (none_has k listenfd now g s.users cs apart all),
    )
