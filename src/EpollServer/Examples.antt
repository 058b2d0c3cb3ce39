-- ===== src/EpollServer/Examples.antt =====
-- unix网络编程/IO多路复用/epoll/epoll_ET/server.c and epoll_LT/server.c: runs on small inputs.
use advanced_programming_in.Base.{
  ℕ, ◌-◌, ◌≡◌, ◌++◌, refl, true, none, List, [], ◌∷◌, map, leb, ◌&&◌, if◌then◌else◌, arith,
}
use advanced_programming_in.Kernel.Table.{Table, table}
use advanced_programming_in.EpollServer.{
  edge_triggered, accepted, Received, Server, start, serve_event, read_client,
}
use advanced_programming_in.EpollServer.Watches.{
  IsServing, GoesOn, start-IsServing, serve_event-GoesOn,
}
use advanced_programming_in.EpollServer.Drain.{written, drain, drain_lem}

-- A stand-in for toupper on the letters a to z.
abbrev capital : ℕ → ℕ
capital c = if leb 97 c && leb c 122 then c - 32 else c

abbrev nothing_watched : Table
nothing_watched fd = none

-- The edge-triggered program, listening on 3.
abbrev started : Server table
started = start table capital 3 edge_triggered nothing_watched

started-IsServing : IsServing table capital 3 edge_triggered started
started-IsServing = start-IsServing table capital 3 edge_triggered nothing_watched (λ fd. refl) refl

serve_event-GoesOn_example :
    GoesOn table capital 3 edge_triggered 3
      (accepted 5)
      (serve_event table capital 3 started 3 true (accepted 5) Received.failed)
unfolding start
serve_event-GoesOn_example =
    serve_event-GoesOn table capital 3 edge_triggered started started-IsServing 3 true (accepted 5)
      Received.failed refl

-- A client sends 7 bytes, and the program reads 5 of them, then 2.
abbrev sent : List ℕ
sent = 97 ∷ 98 ∷ 99 ∷ 65 ∷ 48 ∷ 120 ∷ 121 ∷ []

in_two_turns :
    written 5 (drain table capital 3 edge_triggered 2 started 5 sent).output
    ≡ 65 ∷ 66 ∷ 67 ∷ 65 ∷ 48 ∷ 88 ∷ 89 ∷ []
unfolding start read_client
in_two_turns = refl

all_returned :
    written 5 (drain table capital 3 edge_triggered 7 started 5 sent).output
    ≡ written 5 started.output ++ map capital sent
all_returned = drain_lem table capital 3 edge_triggered 7 started 5 sent (omega arith) (omega arith)
