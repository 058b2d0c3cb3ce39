-- ===== src/FileReactor.antt =====
-- unix网络编程/IO多路复用/epoll/reactor: server.c and the loop of main.c, over the kernel interface. A
-- pointer to an event of the array is its index. `none` is an exit of the program.
pub mod Rearm
pub mod Client
pub mod OpenTable
mod Examples
use advanced_programming_in.Base.{
  ℕ, zero, suc, ◌+◌, Bool, true, false, Option, none, some, List, [], ◌∷◌, ◌++◌, length, map,
  get_or, set, replicate, take, drop, ◌==◌, ◌≡◌, if◌then◌else◌,
}
use advanced_programming_in.Kernel.{Kernel, Events, Watch, Op}

abbrev pub max_events : ℕ
max_events = 1024

abbrev pub bufsize : ℕ
bufsize = 4096

-- EPOLLIN, EPOLLOUT and EPOLLIN | EPOLLET
abbrev pub epollin : Events
epollin = record { input = true; output = false; edge = false }

abbrev pub epollout : Events
epollout = record { input = false; output = true; edge = false }

abbrev pub epollin_edge : Events
epollin_edge = record { input = true; output = false; edge = true }

-- The functions that call_back points to.
pub data Callback : Type 0 where
  unset acceptconnect recvdata senddata : Callback

-- struct my_event
pub record MyEvent : Type 0 where
  pub fd : ℕ
  pub event : Events
  pub arg : ℕ
  pub call_back : Callback
  pub status : ℕ
  pub buf : List ℕ
  pub datalen : ℕ
  pub last_active : ℕ

-- An event of the zeroed global array.
abbrev pub blank : MyEvent
blank = record {
  fd = 0;
  event = record { input = false; output = false; edge = false };
  arg = 0;
  call_back = Callback.unset;
  status = 0;
  buf = replicate bufsize 0;
  datalen = 0;
  last_active = 0;
}

-- event_set, whose last parameter the source does not use; `now` is time(NULL).
pub event_set : MyEvent → (confd : ℕ) → Events → Callback → (now : ℕ) → MyEvent
event_set ev confd event call_back now = record ev {
  fd = confd;
  event = event;
  call_back = call_back;
  status = 0;
  buf = if ev.datalen == 0 then replicate bufsize 0 else ev.buf;
  last_active = now;
}

-- What recv answers; the bytes are not empty and at most as many as asked for.
pub data Received : Type 0 where
  received : List ℕ → Received
  closed : Received
  failed : Received

-- The data in upper case, ended by '\0', and datalen.
pub fill : (toupper : ℕ → ℕ) → MyEvent → List ℕ → MyEvent
fill toupper ev bytes =
    let data' = map toupper bytes in
    record ev {
      buf = set (data' ++ drop (length data') ev.buf) (length data') 0;
      datalen = length data';
    }

-- for(; i < MAX_EVENTS; ++i) if(events[i].status == 0) break;
pub find_free : List MyEvent → (rounds i : ℕ) → ℕ
find_free events zero i = i
find_free events (suc n) i =
    let rest = find_free events n (i + 1) in if (get_or events i blank).status == 0 then i else rest

-- A kernel that also tells which descriptors are open, and whether epoll_ctl succeeds: an addition
-- that succeeds registers the descriptor; a descriptor that is not open is refused, and others may be.
pub record Calls : Type 1 where
  pub kernel : Kernel
  pub open_fd : kernel.State → ℕ → Bool
  pub accepts : kernel.State → Op → ℕ → Bool
  pub registers :
      (e : kernel.State) (fd : ℕ) (w : Watch)
      → accepts e Op.add fd ≡ true
      → kernel.watched e fd ≡ none
      → kernel.watched (kernel.ctl Op.add fd w e) fd ≡ some w
  pub refuses :
      (e : kernel.State) (op : Op) (fd : ℕ) → open_fd e fd ≡ false → accepts e op fd ≡ false
  pub ctl_open :
      (e : kernel.State) (op : Op) (fd : ℕ) (w : Watch) (g : ℕ)
      → open_fd (kernel.ctl op fd w e) g ≡ open_fd e g
  pub close_open : (e : kernel.State) (fd : ℕ) → open_fd (kernel.close fd e) fd ≡ false

module _ (c : Calls) (toupper : ℕ → ℕ) where
  open c use {kernel}

  -- The array events, the epoll instance, and the data given to send.
  pub record Server : Type 0 where
    pub events : List MyEvent
    pub epoll : kernel.State
    pub output : List (ℕ × List ℕ)

  abbrev pub event_at : Server → ℕ → MyEvent
  event_at s i = get_or s.events i blank

  abbrev pub put : Server → ℕ → MyEvent → Server
  put s i ev = record s { events = set s.events i ev }

  -- event_add
  pub event_add : Server → ℕ → Option Server
  event_add s i =
      let ev = event_at s i in
      let op = if ev.status == 0 then Op.add else Op.modify in
      if c.accepts s.epoll op ev.fd
      then some (record (put s i (record ev { status = 1 })) {
        epoll = kernel.ctl op ev.fd (record { events = ev.event; index = i }) s.epoll;
      })
      else none

  -- event_del, where the status stays.
  pub event_del : Server → ℕ → Server
  event_del s i =
      let ev = event_at s i in
      if ev.status == 1
      then record s {
        epoll = kernel.ctl Op.delete ev.fd (record { events = ev.event; index = i }) s.epoll;
      }
      else s

  -- The end of both handlers: event_del, event_set and event_add.
  pub rearm : Server → ℕ → Events → Callback → (now : ℕ) → Option Server
  rearm s i event call_back now =
      let s' = event_del s i in
      let ev = event_at s' i in event_add (put s' i (event_set ev ev.fd event call_back now)) i

  -- senddata; `sent` tells whether send succeeds.
  pub send_data : Server → ℕ → (sent : Bool) → (now : ℕ) → Option Server
  send_data s i sent now =
      let ev = event_at s i in
      if sent
      then rearm (record s { output = s.output ++ (ev.fd, take ev.datalen ev.buf) ∷ [] }) i epollin
          Callback.recvdata now
      else none

  -- recvdata
  pub recv_data : Server → ℕ → Received → (now : ℕ) → Option Server
  recv_data s i (received bytes) now =
      rearm (put s i (fill toupper (event_at s i) bytes)) i epollout Callback.senddata now
  recv_data s i closed now =
      let ev = event_at s i in
      rearm (record (put s i (fill toupper ev [])) { epoll = kernel.close ev.fd s.epoll }) i
        epollout Callback.senddata now
  recv_data s i failed now = none

  -- acceptconnect; `confd` is `none` when accept, and with it fcntl, fails.
  pub accept_connect : Server → (confd : Option ℕ) → (now : ℕ) → Option Server
  accept_connect s none now = none
  accept_connect s (some confd) now =
      let i = find_free s.events max_events 0 in
      if i == max_events
      then none
      else event_add (put s i (event_set (event_at s i) confd epollin_edge Callback.recvdata now)) i

  -- initserversock, once the socket is set up.
  pub init_server : Server → (listenfd now : ℕ) → Option Server
  init_server s listenfd now =
      let ev = event_at s max_events in
      event_add (put s max_events (event_set ev listenfd epollin Callback.acceptconnect now))
        max_events

  -- call_back(epfd, ev), with what the handler's calls would answer.
  pub record Answers : Type 0 where
    pub confd : Option ℕ
    pub recv : Received
    pub sent : Bool
    pub now : ℕ

  pub call : Callback → Server → ℕ → Answers → Option Server
  call unset s i a = none
  call acceptconnect s i a = accept_connect s a.confd a.now
  call recvdata s i a = recv_data s i a.recv a.now
  call senddata s i a = send_data s i a.sent a.now

  -- The body of the loop in main over the ready events.
  pub serve : Server → ℕ → Events → Answers → Option Server
  serve s i ready a =
      let one = if ready.input then call (event_at s i).call_back s i a else some s in
      elim one [
        | none ↦ none
        | some s' ↦ if ready.output then call (event_at s' i).call_back s' i a else some s'
      ]
