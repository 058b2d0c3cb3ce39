-- ===== src/EpollReactor.antt =====
-- unix网络编程/IO多路复用/epoll/epoll_reactor/server.c: an echo server around an array of event slots.
-- A pointer to a slot is the slot's index. What a system call answers is an argument of the function
-- that makes the call; epoll_ctl and close go to the kernel `k`.
pub mod Slots
pub mod Handlers
pub mod Lengths
pub mod Echo
pub mod Loop
mod Examples
use advanced_programming_in.Base.{
  ℕ, zero, suc, ◌+◌, Bool, true, false, ◌&&◌, Option, none, some, List, [], ◌∷◌, ◌++◌, length,
  get_or, set, replicate, take, drop, ◌==◌, if◌then◌else◌,
}
use advanced_programming_in.Kernel.{Events, Watch, Op, Kernel}

abbrev pub max_events : ℕ
max_events = 1024

abbrev pub buf_len : ℕ
buf_len = 4096

abbrev pub epollin : Events
epollin = record { input = true; output = false; edge = false }

abbrev pub epollout : Events
epollout = record { input = false; output = true; edge = false }

abbrev no_events : Events
no_events = record { input = false; output = false; edge = false }

-- The functions that call_back points to.
pub data Callback : Type 0 where
  unset acceptconn recvdata senddata : Callback

-- struct myevent_s
pub record Slot : Type 0 where
  pub fd : ℕ
  pub events : Events
  pub arg : ℕ
  pub call_back : Callback
  pub status : ℕ
  pub buf : List ℕ
  pub len : ℕ
  pub last_active : ℕ

-- A slot of the zeroed global array.
abbrev pub blank : Slot
blank = record {
  fd = 0;
  events = no_events;
  arg = 0;
  call_back = Callback.unset;
  status = 0;
  buf = replicate buf_len 0;
  len = 0;
  last_active = 0;
}

-- eventset, on the slot that `ev` points to; `now` is time(NULL).
pub eventset : Slot → (fd : ℕ) → Callback → (arg now : ℕ) → Slot
eventset ev fd call_back arg now = record ev {
  fd = fd;
  call_back = call_back;
  events = no_events;
  arg = arg;
  status = 0;
  buf = if ev.len == 0 then replicate buf_len 0 else ev.buf;
  last_active = now;
}

-- What accept answers: a descriptor, or an error after which the handler only waits or reports.
pub data Accepted : Type 0 where
  accepted : (fd : ℕ) → Accepted
  accept_failed : Accepted

-- What recv answers; the bytes are not empty and at most as many as asked for.
pub data Received : Type 0 where
  received : List ℕ → Received
  closed : Received
  recv_failed : Received

-- What send answers: whether it sent at least one byte.
pub data Sent : Type 0 where
  sent : Sent
  send_failed : Sent

-- for(i = 0; i < MAX_EVENTS; i++) if(g_events[i].status == 0) break;
pub find_free : List Slot → (rounds i : ℕ) → ℕ
find_free slots zero i = i
find_free slots (suc k) i =
    let rest = find_free slots k (i + 1) in if (get_or slots i blank).status == 0 then i else rest

-- recv into the array.
pub fill : Slot → List ℕ → Slot
fill ev bytes = record ev { buf = bytes ++ drop (length bytes) ev.buf }

-- ev->len = len; ev->buf[len] = '\0'. With 4096 bytes this '\0' falls behind the array, on the low
-- byte of `len`, which is 0 then.
pub terminate : Slot → ℕ → Slot
terminate ev n = record ev { buf = set ev.buf n 0; len = n }

module _ (k : Kernel) where
  -- g_events, g_efd, and the data given to send, in order.
  pub record Server : Type 0 where
    pub slots : List Slot
    pub epoll : k.State
    pub output : List (ℕ × List ℕ)

  abbrev pub slot : Server → ℕ → Slot
  slot s i = get_or s.slots i blank

  abbrev pub put : Server → ℕ → Slot → Server
  put s i ev = record s { slots = set s.slots i ev }

  -- eventadd: a slot whose status is not 0 keeps op = 0.
  pub eventadd : Server → ℕ → Events → Server
  eventadd s i events =
      let ev = record (slot s i) { events = events } in
      let watch : Watch = record { events = events; index = i } in
      if ev.status == 0
      then record (put s i (record ev { status = 1 })) { epoll = k.ctl Op.add ev.fd watch s.epoll }
      else record (put s i ev) { epoll = k.ctl Op.invalid ev.fd watch s.epoll }

  -- eventdel
  pub eventdel : Server → ℕ → Server
  eventdel s i =
      let ev = slot s i in
      if ev.status == 1
      then record (put s i (record ev { status = 0 })) {
        epoll = k.ctl Op.delete ev.fd (record { events = ev.events; index = i }) s.epoll;
      }
      else s

  -- acceptconn; `nonblock` tells whether fcntl succeeds.
  pub accept_connection : Server → Accepted → (nonblock : Bool) → (now : ℕ) → Server
  accept_connection s accept_failed nonblock now = s
  accept_connection s (accepted confd) nonblock now =
      let i = find_free s.slots max_events 0 in
      if i == max_events
      then s
      else if nonblock
      then eventadd (put s i (eventset (slot s i) confd Callback.recvdata i now)) i epollin
      else s

  -- close(ev->fd), the end of the error branches of recvdata and senddata.
  pub close_slot : Server → ℕ → Server
  close_slot s i = record s { epoll = k.close (slot s i).fd s.epoll }

  -- eventset and eventadd for the same descriptor, at the end of both handlers.
  pub rearm : Server → ℕ → Callback → Events → (now : ℕ) → Server
  rearm s i call_back events now =
      eventadd (put s i (eventset (slot s i) (slot s i).fd call_back i now)) i events

  -- recvdata on the slot `i`
  pub receive : Server → ℕ → Received → (now : ℕ) → Server
  receive s i (received bytes) now =
      let s' = eventdel (put s i (fill (slot s i) bytes)) i in
      rearm (put s' i (terminate (slot s' i) (length bytes))) i Callback.senddata epollout now
  receive s i closed now = close_slot (eventdel s i) i
  receive s i recv_failed now = close_slot (eventdel s i) i

  -- senddata on the slot `i`: the first `len` bytes of the array are given to send.
  pub transmit : Server → ℕ → Sent → (now : ℕ) → Server
  transmit s i answer now =
      let ev = slot s i in
      let s' = eventdel (record s { output = s.output ++ (ev.fd, take ev.len ev.buf) ∷ [] }) i in
      elim answer [
        | sent ↦ rearm s' i Callback.recvdata epollin now
        | send_failed ↦ close_slot s' i
      ]

  -- initlistensocket, once the socket is set up.
  pub init_listen : Server → (lfd now : ℕ) → Server
  init_listen s lfd now =
      eventadd
        (put s max_events (eventset (slot s max_events) lfd Callback.acceptconn max_events now))
        max_events epollin

  -- ev->call_back(ev->fd, ...), with the answers that the handler's calls would get.
  pub record Answers : Type 0 where
    pub accept : Accepted
    pub nonblock : Bool
    pub recv : Received
    pub send : Sent
    pub now : ℕ

  pub dispatch : Callback → Server → ℕ → Answers → Server
  dispatch unset s i a = s
  dispatch acceptconn s i a = accept_connection s a.accept a.nonblock a.now
  dispatch recvdata s i a = receive s i a.recv a.now
  dispatch senddata s i a = transmit s i a.send a.now

  pub call : Server → ℕ → Answers → Server
  call s i a = dispatch (slot s i).call_back s (slot s i).arg a

  -- The body of the loop over the ready events: the slot `i`, and the events that it is ready for.
  pub serve : Server → ℕ → Events → Answers → Server
  serve s i ready a =
      let s' = if ready.input && (slot s i).events.input then call s i a else s in
      if ready.output && (slot s' i).events.output then call s' i a else s'
