-- ===== src/PollServer/Examples.antt =====
-- unix网络编程/IO多路复用/poll/server.c: runs on small inputs.
use advanced_programming_in.Base.{
  ℕ, ◌+◌, ◌≤◌, ◌<◌, ◌≡◌, ◌≢◌, refl, ◌⊎◌, inl, inr, true, false, none, some, List, [], ◌∷◌, get_or,
  leb, ◌-◌, ◌&&◌, if◌then◌else◌, replicate, set, arith,
}
use advanced_programming_in.PollServer.{
  Pollfd, unused, Received, Server, find_free, add_client, client_count, serve_client,
  serve_clients, turn,
}
use advanced_programming_in.PollServer.Turn.{all_served, serve_clients_lem}
use advanced_programming_in.PollServer.Told.{turn_lem}
use advanced_programming_in.PollServer.Arrival.{add_client_lem}

-- A stand-in for toupper on the letters a to z.
abbrev capital : ℕ → ℕ
capital c = if leb 97 c && leb c 122 then c - 32 else c

abbrev entry : ℕ → Pollfd
entry fd = record { fd = some fd; readable = true }

-- The client in the entry 1 has left, the one in the entry 2 stays.
abbrev gap : List Pollfd
gap = entry 3 ∷ unused ∷ entry 5 ∷ unused ∷ []

abbrev read_all : ℕ → Received
read_all i = Received.received (97 ∷ 98 ∷ [])

-- Both bytes come back as capitals.
capitals :
    serve_clients capital 1 1 read_all (unused ∷ entry 5 ∷ [])
    ≡ (unused ∷ entry 5 ∷ [], record { fd = some 5; buf = some (65 ∷ 66 ∷ []) } ∷ [])
unfolding serve_clients serve_client
capitals = refl

two_served :
    serve_clients capital 1 2 read_all (entry 5 ∷ unused ∷ entry 6 ∷ [])
    ≡ all_served capital 1 read_all (entry 5 ∷ unused ∷ entry 6 ∷ [])
two_served = serve_clients_lem capital 1 2 read_all (entry 5 ∷ unused ∷ entry 6 ∷ []) (omega arith)

-- The listening descriptor and the client 5 are ready, and 9 connects.
abbrev server : Server
server = record { client = gap; maxindex = 2 }

-- 9 gets the free entry 1.
abbrev taken : Server
taken = record {
  client = entry 3 ∷ record { fd = some 9; readable = false } ∷ entry 5 ∷ unused ∷ [];
  maxindex = 1;
}

turn_lem_example :
    turn capital server 2 (some 9) read_all
    ≡ some (
      record { client = taken.client; maxindex = 1 },
      record { fd = some 5; buf = some (65 ∷ 66 ∷ []) } ∷ [],
    )
turn_lem_example =
    turn_lem capital server taken 2 9 read_all
      (inl (
        refl,
        inr (1, omega arith, omega arith, refl, (λ j a b. absurd (omega (arith, a, b))), refl),
      ))
      (omega arith)

-- A full table of which the client in the entry 1 has left: 9 gets its entry, and the clients in
-- the entries from 2 on fall out of poll's range.
abbrev large : Server
large = record { client = set (replicate client_count (entry 5)) 1 unused; maxindex = 99 }

shrunk : (add_client large 9).maxindex ≡ 1
unfolding add_client find_free
shrunk = refl

large_added :
    ((add_client large 9 ≡ large)
      × ((j : ℕ) → 1 ≤ j → j < client_count → (get_or large.client j unused).fd ≢ none))
    ⊎ ((k : ℕ) × ((get_or large.client k unused).fd ≡ none)
        × ((j : ℕ) → 1 ≤ j → j < k → (get_or large.client j unused).fd ≢ none)
        × ((get_or (add_client large 9).client k unused).fd ≡ some 9)
        × ((j : ℕ)
            → k ≢ j
            → get_or (add_client large 9).client j unused ≡ get_or large.client j unused)
        × ((j : ℕ) → k < j → (add_client large 9).maxindex + 1 ≤ j)
        × ((add_client large 9).maxindex ≡ k))
large_added = add_client_lem large 9 refl
