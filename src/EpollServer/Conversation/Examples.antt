-- ===== src/EpollServer/Conversation/Examples.antt =====
-- unix网络编程/IO多路复用/epoll/epoll_ET/client.c: a client that sends a line of 7 bytes.
use advanced_programming_in.Base.{
  ℕ, ◌-◌, ◌<◌, ◌≡◌, refl, ◌⊎◌, true, none, List, [], ◌∷◌, ◌++◌, map, length, leb, ◌&&◌,
  if◌then◌else◌, arith,
}
use advanced_programming_in.Kernel.Table.{table}
use advanced_programming_in.EpollServer.{edge_triggered, Server, read_client}
use advanced_programming_in.EpollServer.Drain.{written}
use advanced_programming_in.EpollServer.Conversation.{
  System, initial, arriving, send_line, serve, print, Step, Reach, here, next,
}
use advanced_programming_in.EpollServer.Conversation.Talk.{ServerTurns, screen_in_order}

-- A stand-in for toupper on the letters a to z.
abbrev capital : ℕ → ℕ
capital c = if leb 97 c && leb c 122 then c - 32 else c

abbrev quiet : Server table
quiet = record { epoll = λ fd. none; output = [] }

abbrev asked : System table
asked =
    send_line table capital 3 edge_triggered 5 (initial table quiet)
      (97 ∷ 98 ∷ 99 ∷ 100 ∷ 101 ∷ 102 ∷ 10 ∷ [])

abbrev answered : System table
answered = serve table capital 3 edge_triggered 5 asked

-- The server reads 5 bytes in a turn, and the client prints those before it goes on.
abbrev half : System table
half = print table capital 3 edge_triggered 5 answered 5

half_reached : Reach table capital 3 edge_triggered 5 (initial table quiet) half
unfolding read_client
half_reached =
    next
      (next (next here (Step.line (97 ∷ 98 ∷ 99 ∷ 100 ∷ 101 ∷ 102 ∷ 10 ∷ []) refl (omega arith)))
        (Step.turn (omega arith)))
      (Step.reply 5 refl (omega arith) (omega arith) (omega arith))

half_printed : half.screen ≡ 65 ∷ 66 ∷ 67 ∷ 68 ∷ 69 ∷ []
unfolding read_client
half_printed = refl

screen_in_order_example :
    ((rest : List ℕ) × (half.screen ++ rest ≡ map capital half.sent))
    × (half.waiting ≡ true
        → 0 < half.last
        → (0 < length (arriving table capital 3 edge_triggered 5 half)) ⊎ (0 < length half.pending))
    × ((t : System table) × ServerTurns table capital 3 edge_triggered 5 half t
        × (t.sent ≡ half.sent)
        × (written 5 t.server.output ≡ map capital half.sent))
screen_in_order_example =
    screen_in_order table capital 3 edge_triggered 5 quiet refl (omega arith) half_reached
