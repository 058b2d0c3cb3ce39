-- ===== src/PollServer.antt =====
-- unix网络编程/IO多路复用/poll/server.c: the table of clients and the turn of the loop in main.
-- What poll, accept and read answer is an argument; toupper is a parameter.
pub mod Turn
pub mod Arrival
pub mod Told
mod Examples
use advanced_programming_in.Base.{
  ℕ, zero, suc, ◌+◌, ◌-◌, Bool, true, false, Option, none, some, List, [], ◌∷◌, ◌++◌, get_or, set,
  map, drop, take, ◌==◌, if◌then◌else◌,
}

-- #define CLIENT_COUNT
abbrev pub client_count : ℕ
client_count = 100

-- struct pollfd: `none` is the descriptor -1, `readable` is revents & POLLIN. events is POLLIN in
-- each entry in use.
pub record Pollfd : Type 0 where
  pub fd : Option ℕ
  pub readable : Bool

abbrev pub unused : Pollfd
unused = record { fd = none; readable = false }

-- client[i].fd != -1 and client[i].revents & POLLIN
abbrev pub is_ready : Pollfd → Bool
is_ready c = elim c.fd [ none ↦ false | some fd ↦ c.readable ]

-- What read returns: data, 0 or -1.
pub data Received : Type 0 where
  received : List ℕ → Received
  closed : Received
  failed : Received

-- A call of write: its descriptor, where `none` is -1, and its data, where `none` is a length of -1.
pub record Write : Type 0 where
  pub fd : Option ℕ
  pub buf : Option (List ℕ)

-- client and maxindex
pub record Server : Type 0 where
  pub client : List Pollfd
  pub maxindex : ℕ

-- client[i].fd = -1
abbrev pub give_up : Pollfd → Pollfd
give_up c = record c { fd = none }

-- The loop over client[] before the first poll, and the entry of the listening descriptor; `old` is
-- what the array holds before, of which only revents stays.
pub init_server : (old : List Pollfd) → (serverfd : ℕ) → Server
init_server old serverfd = record {
  client = set (map give_up old) 0 (record (get_or old 0 unused) { fd = some serverfd });
  maxindex = 0;
}

-- The first entry behind the listening one that is not in use; its search over `rounds` entries from
-- `i` on, `none` if there is no such entry.
pub find_free : (rounds i : ℕ) → List Pollfd → Option ℕ
find_free zero i client = none
find_free (suc rounds) i client =
    let rest = find_free rounds (i + 1) client in
    elim (get_or client i unused).fd [ none ↦ some i | some fd ↦ rest ]

-- The new connection `confd`: without a free entry nothing is kept of it.
pub add_client : Server → (confd : ℕ) → Server
add_client s confd = elim (find_free (client_count - 1) 1 s.client) [
  | none ↦ s
  | some i ↦ record {
    client = set s.client i (record (get_or s.client i unused) { fd = some confd });
    maxindex = i;
  }
]

module _ (toupper : ℕ → ℕ) where
  -- A client's data: the entry is given up when the client has closed, and the write follows on
  -- each branch.
  pub serve_client : Pollfd → Received → Pollfd × Write
  serve_client c (received bytes) = (c, record { fd = c.fd; buf = some (map toupper bytes) })
  serve_client c closed = (give_up c, record { fd = none; buf = some [] })
  serve_client c failed = (c, record { fd = c.fd; buf = none })

  -- The loop over the entries behind the listening one, from the entry `i` on, which is the first
  -- of the list: `retfd` counts down, and the loop ends when it gets to 0.
  pub serve_clients : (i retfd : ℕ) → (ℕ → Received) → List Pollfd → List Pollfd × List Write
  serve_clients i retfd answers [] = ([], [])
  serve_clients i retfd answers (c ∷ cs) =
      let left = if is_ready c then retfd - 1 else retfd in
      let (cs', ws) = serve_clients (i + 1) left answers cs in
      let (c', w) = serve_client c (answers i) in
      if is_ready c
      then (if retfd == 1 then (c' ∷ cs, w ∷ []) else (c' ∷ cs', w ∷ ws))
      else (c ∷ cs', ws)

  serve_all : Server → (retfd : ℕ) → (ℕ → Received) → Server × List Write
  serve_all s retfd answers =
      let (cs, ws) = serve_clients 1 retfd answers (drop 1 s.client) in
      (record s { client = take 1 s.client ++ cs }, ws)

  -- A turn, once poll has written the entries and returned `retfd`: the result `none` is the exit
  -- when accept fails, and `confd` is what accept answers.
  pub turn :
      Server → (retfd : ℕ) → (confd : Option ℕ) → (ℕ → Received) → Option (Server × List Write)
  turn s retfd confd answers =
      if (get_or s.client 0 unused).readable
      then elim confd [
        | none ↦ none
        | some fd ↦
            let s' = add_client s fd in
            if retfd == 1 then some (s', []) else some (serve_all s' (retfd - 1) answers)
      ]
      else some (serve_all s retfd answers)
