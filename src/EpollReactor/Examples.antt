-- ===== src/EpollReactor/Examples.antt =====
-- unix网络编程/IO多路复用/epoll/epoll_reactor/server.c: the theorems at concrete servers.
use advanced_programming_in.Base.{
  suc, ◌==◌, if◌then◌else◌, ◌≡◌, refl, ◌∙◌, true, none, some, [], ◌∷◌, arith, length, length-set,
  length-replicate,
}
use advanced_programming_in.Kernel.Table.{table}
use advanced_programming_in.EpollReactor.{
  max_events, epollin, Callback, Slot, blank, accepted, received, sent, Server, slot, put,
  init_listen, eventset, receive, transmit, Answers, serve,
}
use advanced_programming_in.EpollReactor.Slots.{IsSound}
use advanced_programming_in.EpollReactor.Lengths.{eventadd-length}
use advanced_programming_in.EpollReactor.Loop.{zeroed, init_listen-IsSound, serve-IsSound}
use advanced_programming_in.EpollReactor.Echo.{echo}

-- The server that listens on descriptor 3.
abbrev listening : Server table
listening = init_listen table (zeroed table (λ fd. none)) 3 0

listening-length : length listening.slots ≡ suc max_events
unfolding init_listen
listening-length =
    let start = zeroed table (λ fd. none) in
    let ev = eventset (slot table start max_events) 3 Callback.acceptconn max_events 0 in
    eventadd-length table (put table start max_events ev) max_events epollin
    ∙ length-set start.slots max_events ev
    ∙ length-replicate (suc max_events) blank

abbrev answers : Answers table
answers = record {
  accept = accepted 5;
  nonblock = true;
  recv = received (1 ∷ []);
  send = sent;
  now = 10;
}

-- Epoll is ready for the listening slot, and a client connects.
serve-IsSound_example : IsSound table (serve table listening max_events epollin answers)
serve-IsSound_example =
    serve-IsSound table max_events answers listening epollin
      (init_listen-IsSound table (λ fd. none) 3 0 (λ g. refl)) (omega (arith, listening-length))
      (omega (arith, listening-length))

-- One slot, connected on descriptor 5.
abbrev connection : Slot
connection = record blank { fd = 5; events = epollin; call_back = Callback.recvdata; status = 1 }

abbrev connected : Server table
connected = record {
  slots = connection ∷ [];
  epoll = λ fd. if fd == 5 then some (record { events = epollin; index = 0 }) else none;
  output = [];
}

echo_example :
    (transmit table (receive table connected 0 (received (104 ∷ 105 ∷ [])) 10) 0 sent 11).output
    ≡ (5, 104 ∷ 105 ∷ []) ∷ []
echo_example = echo table connected 0 (104 ∷ 105 ∷ []) sent 10 11 (omega arith) refl (omega arith)
