-- ===== src/SelectServer/Examples.antt =====
-- unix网络编程/IO多路复用/select/server.c: runs on small inputs.
use advanced_programming_in.Base.{
  inr, ℕ, ◌-◌, ◌≡◌, refl, none, some, List, [], ◌∷◌, if◌then◌else◌, arith, leb, ◌&&◌,
}
use advanced_programming_in.PollServer.{Received, received}
use advanced_programming_in.SelectServer.{
  FdSet, fd_zero, fd_set, Call, accept, read, write, Server, Turn, init_server, add_client,
  serve_clients, arrival, turn,
}
use advanced_programming_in.SelectServer.Spares.{AllSpare}
use advanced_programming_in.SelectServer.Forgets.{Turns, no_turn, then_turn, lost_unserved}
use advanced_programming_in.SelectServer.Serves.{all_served, serve_clients_select}

-- A stand-in for toupper on the letters a to z.
abbrev capital : ℕ → ℕ
capital c = if leb 97 c && leb c 122 then c - 32 else c

abbrev only : ℕ → FdSet
only fd = fd_set fd fd_zero

abbrev read_a : ℕ → Received
read_a i = received (97 ∷ [])

two_ready :
    serve_clients capital 0 2 read_a (fd_set 5 (only 6)) (some 5 ∷ none ∷ some 6 ∷ some 7 ∷ [])
    ≡ all_served capital 0 read_a (fd_set 5 (only 6)) (some 5 ∷ none ∷ some 6 ∷ some 7 ∷ [])
two_ready =
    serve_clients_select capital 0 2 read_a (fd_set 5 (only 6))
      (some 5 ∷ none ∷ some 6 ∷ some 7 ∷ []) (omega arith)

-- The listening descriptor 3 and the client 5, which is the only one that is ever ready.
abbrev server : FdSet → Server
server set = record { reset = set; client = some 5 ∷ none ∷ []; maxfd = 6 }

abbrev client_ready : Turn
client_ready = record { ready = only 5; retfd = 1; confd = none; reads = read_a }

abbrev capital_back : List Call
capital_back = read 5 ∷ write (some 5) (some (65 ∷ [])) ∷ []

-- The first client gets the number 4 behind the listening descriptor 3, and a second one 5.
abbrev connects : ℕ → Turn
connects fd = record { ready = only 3; retfd = 1; confd = some fd; reads = read_a }

abbrev one_client : Server
one_client = add_client (record (init_server 3) { reset = only 3 }) 4

abbrev two_clients : Server
two_clients = add_client (record one_client { reset = only 3 }) 5

first_turn : turn capital 3 (init_server 3) (connects 4) ≡ some (one_client, accept 3 ∷ [])
unfolding turn arrival
first_turn = refl

second_turn : turn capital 3 one_client (connects 5) ≡ some (two_clients, accept 3 ∷ [])
unfolding turn arrival
second_turn = refl

Turns-after : Turns capital 3 4 one_client (accept 3 ∷ []) two_clients
unfolding add_client init_server
Turns-after =
    then_turn (connects 5) no_turn
      (record { in_set = λ fd e. ground arith; below = λ fd e. ground arith }) (ground arith)
      second_turn

first_client_lost : AllSpare 4 (accept 3 ∷ [])
unfolding init_server
first_client_lost =
    lost_unserved capital 3 4 (init_server 3) one_client two_clients (connects 4) (accept 3 ∷ [])
      (accept 3 ∷ []) first_turn (inr (refl, refl, omega arith)) Turns-after
