-- ===== src/FileReactor/Examples.antt =====
-- unix网络编程/IO多路复用/epoll/reactor/server.c: runs on small inputs.
use advanced_programming_in.Base.{
  ℕ, ◌-◌, ◌≡◌, refl, true, none, some, [], ◌∷◌, leb, ◌&&◌, arith, ◌==◌, if◌then◌else◌,
}
use advanced_programming_in.FileReactor.{
  blank, epollin, epollout, epollin_edge, Callback, MyEvent, Received, received, closed, Server,
  Answers, serve,
}
use advanced_programming_in.FileReactor.OpenTable.{open_table, open_table-Willing}
use advanced_programming_in.FileReactor.Rearm.{IsWaiting}
use advanced_programming_in.FileReactor.Client.{closed_ends, echo_upper}

-- A stand-in for toupper on the letters a to z.
abbrev capital : ℕ → ℕ
capital c = if leb 97 c && leb c 122 then c - 32 else c

-- The client 5 in the first of two events.
abbrev client : MyEvent
client = record blank { fd = 5; event = epollin_edge; call_back = Callback.recvdata; status = 1 }

abbrev server : Server open_table capital
server = record {
  events = client ∷ blank ∷ [];
  epoll = record {
    watches = λ fd. if fd == 5 then some (record { events = epollin_edge; index = 0 }) else none;
    opened = λ fd. fd == 5;
  };
  output = [];
}

server-IsWaiting : IsWaiting open_table capital server 0 5 epollin_edge Callback.recvdata
server-IsWaiting = record {
  in_range = omega arith;
  its_fd = refl;
  its_call = refl;
  status = refl;
  opened = refl;
  watched = refl;
}

abbrev answers : Received → Answers open_table capital
answers r = record { confd = none; recv = r; sent = true; now = 10 }

closed_ends_example : serve open_table capital server 0 epollin (answers closed) ≡ none
closed_ends_example =
    closed_ends open_table capital server 0 5 epollin_edge server-IsWaiting (answers closed) refl

echo_upper_example :
    (s1 s2 : Server open_table capital) × (serve open_table capital server 0 epollin
        (answers (received (97 ∷ 66 ∷ [])))
      ≡ some s1)
    × (serve open_table capital s1 0 epollout (answers closed) ≡ some s2)
    × (s2.output ≡ (5, 65 ∷ 66 ∷ []) ∷ [])
    × IsWaiting open_table capital s2 0 5 epollin Callback.recvdata
echo_upper_example =
    echo_upper open_table capital server 0 5 epollin_edge server-IsWaiting (97 ∷ 66 ∷ [])
      (answers (received (97 ∷ 66 ∷ []))) (answers closed) refl (omega arith) refl
      (open_table-Willing 5)
