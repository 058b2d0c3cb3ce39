-- ===== src/TimerServer.antt =====
-- timer/timer_list/main.cpp: the server that closes idle clients, over the list of timers and the
-- kernel's epoll. What accept, recv, time and new give is an argument.
pub mod Handlers
pub mod Clients
pub mod Idle
mod Examples
use advanced_programming_in.Base.{
  ℕ, zero, suc, ◌+◌, ◌*◌, Bool, true, false, ◌&&◌, Option, none, some, List, [], ◌∷◌, drop, length,
  ◌==◌, if◌then◌else◌,
}
use advanced_programming_in.Kernel.{Kernel, Events, Watch, Op}
use advanced_programming_in.TimerList.{Timers, add_timer, delete_timer, adjust, tick}
use advanced_programming_in.TimerList.Nodes.{null, Timer, Run, ok, ◌>>=◌, load, write}

-- TIMESLOT
abbrev pub timeslot : ℕ
timeslot = 5

-- client_data: its descriptor and its timer.
pub record Client : Type 0 where
  pub confd : ℕ
  pub timer : ℕ

-- What recv returns for a client: data, 0, -1 with EAGAIN, and -1 with another error.
pub data Received : Type 0 where
  received : List ℕ → Received
  closed : Received
  again : Received
  failed : Received

-- A byte in the signal pipe.
pub data Signal : Type 0 where
  sigterm : Signal
  sigalrm : Signal
  other_signal : Signal

-- A ready event: its data.fd, whether it has EPOLLIN, and what the calls of its branch answer:
-- accept, the address that new gives, recv on the signal pipe (empty for 0 and -1), recv, time.
pub record Event : Type 0 where
  pub fd : ℕ
  pub input : Bool
  pub confd : ℕ
  pub addr : ℕ
  pub signals : List Signal
  pub answer : Received
  pub now : ℕ

abbrev pub input_events : Events
input_events = record { input = true; output = false; edge = false }

abbrev pub set_client : (ℕ → Client) → ℕ → Client → ℕ → Client
set_client users fd c g = if g == fd then c else users g

-- MyTimer::setExpireTime
pub set_expire_time : (p expire : ℕ) → Timers → Run Timers
set_expire_time p expire s = load p s.heap >>= λ n.
    ok (record s { heap = write s.heap p (some (record n { expire = expire })) })

module _ (k : Kernel) where
  -- epollfd, timerList, users, stop_server and timeout.
  pub record Server : Type 0 where
    pub epoll : k.State
    pub timers : Timers
    pub users : ℕ → Client
    pub stop_server : Bool
    pub timeout : Bool

  -- addfd
  pub addfd : ℕ → k.State → k.State
  addfd fd e = k.ctl Op.add fd (record { events = input_events; index = fd }) e

  -- cb_func
  pub cb_func : Client → k.State → k.State
  cb_func c e =
      k.close c.confd
        (k.ctl Op.delete c.confd (record { events = input_events; index = c.confd }) e)

  -- A new connection: its timer is made at `addr`, and its client_data gets `sockfd`, the listening
  -- descriptor.
  pub accept_client : (fuel : ℕ) → Server → (sockfd confd addr now : ℕ) → Run Server
  accept_client fuel s sockfd confd addr now =
      let t : Timer = record {
        expire = now + 3 * timeslot;
        user_data = confd;
        pre = null;
        next = null;
      } in
      add_timer fuel (record s.timers { heap = write s.timers.heap addr (some t) }) addr
      >>= λ timers. ok (record s {
        epoll = addfd confd s.epoll;
        users = set_client s.users confd (record { confd = sockfd; timer = addr });
        timers = timers;
      })

  -- The switch over the signals.
  pub handle_signal : Server → Signal → Server
  handle_signal s sigterm = record s { stop_server = true }
  handle_signal s sigalrm = record s { timeout = true }
  handle_signal s other_signal = s

  pub handle_signals : Server → List Signal → Server
  handle_signals s [] = s
  handle_signals s (g ∷ gs) = handle_signals (handle_signal s g) gs

  -- The end of a client: its call back, and its timer.
  pub close_client : Server → (sockfd : ℕ) → Run Server
  close_client s sockfd = delete_timer s.timers (s.users sockfd).timer >>= λ timers.
      ok (record s { epoll = cb_func (s.users sockfd) s.epoll; timers = timers })

  -- Input from a client.
  pub read_client : (fuel : ℕ) → Server → (sockfd : ℕ) → Received → (now : ℕ) → Run Server
  read_client fuel s sockfd again now = ok s
  read_client fuel s sockfd failed now = close_client s sockfd
  read_client fuel s sockfd closed now = close_client s sockfd
  read_client fuel s sockfd (received bytes) now =
      set_expire_time (s.users sockfd).timer (now + 3 * timeslot) s.timers >>= λ ts.
      adjust fuel ts (s.users sockfd).timer >>= λ ts'. ok (record s { timers = ts' })

  -- An event of the loop in main.
  pub serve_event : (fuel listenfd pipefd : ℕ) → Server → Event → Run Server
  serve_event fuel listenfd pipefd s e =
      if e.fd == listenfd
      then accept_client fuel s e.fd e.confd e.addr e.now
      else if (e.fd == pipefd) && e.input
      then ok (handle_signals s e.signals)
      else if e.input
      then read_client fuel s e.fd e.answer e.now
      else ok s

  -- The events of one call of epoll_wait.
  pub serve_events : (fuel listenfd pipefd : ℕ) → Server → List Event → Run Server
  serve_events fuel listenfd pipefd s [] = ok s
  serve_events fuel listenfd pipefd s (e ∷ es) =
      serve_event fuel listenfd pipefd s e >>= λ s'. serve_events fuel listenfd pipefd s' es

  -- The call backs that tick has made, each with its client.
  pub call_backs : (ℕ → Client) → List ℕ → k.State → k.State
  call_backs users [] e = e
  call_backs users (c ∷ cs) e = call_backs users cs (cb_func (users c) e)

  -- if(timeout == 1), at the end of a turn.
  pub serve_timeout : (fuel : ℕ) → Server → (now : ℕ) → Run Server
  serve_timeout fuel s now =
      if s.timeout
      then (tick fuel s.timers now >>= λ timers. ok (record s {
        timers = timers;
        epoll = call_backs s.users (drop (length s.timers.fired) timers.fired) s.epoll;
        timeout = false;
      }))
      else ok s

  -- A turn of the loop in main, with the events that epoll_wait gives; `now` is the time of the tick.
  pub turn : (fuel listenfd pipefd : ℕ) → Server → List Event → (now : ℕ) → Run Server
  turn fuel listenfd pipefd s events now =
      serve_events fuel listenfd pipefd s events >>= λ s'. serve_timeout fuel s' now
