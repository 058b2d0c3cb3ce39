-- ===== src/TimerServer/Clients.antt =====
-- timer/timer_list/main.cpp: what stays of a client that connects and leaves.
use advanced_programming_in.Base.{
  ℕ, ◌+◌, ◌*◌, ◌<◌, ◌≡◌, ◌≢◌, refl, ap, subst, ◌∙◌, true, false, none, some, List, [], ◌∷◌,
  append-nil, ◌==◌, inl, arith, length,
}
use advanced_programming_in.Kernel.{Kernel}
use advanced_programming_in.TimerList.Nodes.{null, ok, ◌>>=◌}
use advanced_programming_in.TimerList.Segment.{Cell, Misses, IsList}
use advanced_programming_in.TimerList.Insert.{AllBefore}
use advanced_programming_in.TimerServer.{
  timeslot, Client, closed, again, Event, input_events, set_client, Server, addfd, accept_client,
  read_client, serve_event, serve_events,
}
use advanced_programming_in.TimerServer.Handlers.{new_timer, read_client_lem, accept_client_lem}

-- The event of a new connection, and the event of a client that has closed.
abbrev pub connects : (listenfd confd addr now : ℕ) → Event
connects listenfd confd addr now = record {
  fd = listenfd;
  input = true;
  confd = confd;
  addr = addr;
  signals = [];
  answer = again;
  now = now;
}

abbrev pub disconnects : (fd now : ℕ) → Event
disconnects fd now = record {
  fd = fd;
  input = true;
  confd = 0;
  addr = null;
  signals = [];
  answer = closed;
  now = now;
}

module _ (k : Kernel) (fuel listenfd pipefd : ℕ) (s : Server k) where
  open k use {watched}

  serve_connects :
      (confd addr now : ℕ)
      → serve_event k fuel listenfd pipefd s (connects listenfd confd addr now)
        ≡ accept_client k fuel s listenfd confd addr now
  unfolding serve_event
  serve_connects confd addr now = let e : (listenfd == listenfd) ≡ true = ground arith in rw e refl

  serve_disconnects :
      (fd now : ℕ)
      → fd ≢ listenfd
      → fd ≢ pipefd
      → serve_event k fuel listenfd pipefd s (disconnects fd now)
        ≡ read_client k fuel s fd closed now
  unfolding serve_event
  serve_disconnects fd now apart apart' =
      let e : (fd == listenfd) ≡ false = ground arith in
      let e' : (fd == pipefd) ≡ false = ground arith in rw (e, e') refl

serve_two :
    (k : Kernel) (fuel listenfd pipefd : ℕ) (s s' : Server k) (a b : Event)
    → serve_event k fuel listenfd pipefd s a ≡ ok s'
    → serve_events k fuel listenfd pipefd s (a ∷ b ∷ [])
      ≡ (serve_event k fuel listenfd pipefd s' b >>= λ s''. ok s'')
unfolding serve_events
serve_two k fuel listenfd pipefd s s' a b e =
    ap (λ r. r >>= λ s1. serve_event k fuel listenfd pipefd s1 b >>= λ s2. ok s2) e

-- A client that connects to the server, when all timers in the list expire before its own does, and
-- with a descriptor that epoll_ctl adds and a new address for its timer, and that then closes its connection leaves
-- the list of the timers as it was. But its client_data holds the listening descriptor: it is that one that leaves epoll's
-- set, while the client's descriptor stays in it.
pub connects_then_disconnects :
    (k : Kernel) (fuel listenfd pipefd : ℕ) (s : Server k) (cs : List Cell)
    (confd addr now later : ℕ)
    → IsList s.timers cs
    → length cs < fuel
    → addr ≢ null
    → Misses addr cs
    → AllBefore cs (now + 3 * timeslot)
    → confd ≢ listenfd
    → confd ≢ pipefd
    → k.watched (addfd k confd s.epoll) confd
      ≡ some (record { events = input_events; index = confd })
    → (s' : Server k) × (serve_events k fuel listenfd pipefd s
          (connects listenfd confd addr now ∷ disconnects confd later ∷ [])
        ≡ ok s')
      × IsList s'.timers cs
      × (k.watched s'.epoll listenfd ≡ none)
      × (k.watched s'.epoll confd ≡ some (record { events = input_events; index = confd }))
connects_then_disconnects k fuel listenfd pipefd s cs confd addr now later inv enough some_addr out
      all apart apart' added =
    let (ts, e, list) =
      accept_client_lem k s cs inv fuel addr now confd enough some_addr out all listenfd in
    let c : Client = record { confd = listenfd; timer = addr } in
    let s1 : Server k = record s {
      epoll = addfd k confd s.epoll;
      users = set_client s.users confd c;
      timers = ts;
    } in
    let same : set_client s.users confd c confd ≡ c = ground arith in
    let (s2, e', list', gone, others) =
      read_client_lem k s1 confd (new_timer confd addr now) cs [] (ap (λ d. d.timer) same) list fuel
        later closed (inl refl) in
    let mine = ap (λ d. d.confd) same in
    (
      s2,
      serve_two k fuel listenfd pipefd s s1 (connects listenfd confd addr now)
            (disconnects confd later) (serve_connects k fuel listenfd pipefd s confd addr now ∙ e)
          ∙ (ap (λ r. r >>= λ s3. ok s3)
                (serve_disconnects k fuel listenfd pipefd s1 confd later apart apart')
              ∙ ap (λ r. r >>= λ s3. ok s3) e'),
      subst (IsList s2.timers) (append-nil cs) list',
      subst (λ g. k.watched s2.epoll g ≡ none) mine gone,
      others confd (λ q. apart (q ∙ mine)) ∙ added,
    )
