-- ===== src/SelectServer.antt =====
-- unix网络编程/IO多路复用/select/server.c: the set of descriptors, the table of clients and the turn
-- of the loop in main. What select, accept and read answer is an argument; toupper is a parameter.
pub mod Spares
pub mod Forgets
pub mod Serves
mod Examples
use advanced_programming_in.Base.{
  ℕ, zero, suc, ◌+◌, ◌-◌, Bool, true, false, ltb, Option, none, some, List, [], ◌∷◌, ◌++◌, map,
  replicate, ◌==◌, if◌then◌else◌,
}
use advanced_programming_in.PollServer.{Received, received, closed, failed}

-- CLIENT_COUNT
abbrev pub client_count : ℕ
client_count = 100

-- fd_set, FD_ZERO, FD_SET and FD_CLR
abbrev pub FdSet : Type 0
FdSet = ℕ → Bool

abbrev pub fd_zero : FdSet
fd_zero g = false

abbrev pub fd_set : ℕ → FdSet → FdSet
fd_set fd s g = if g == fd then true else s g

abbrev pub fd_clr : ℕ → FdSet → FdSet
fd_clr fd s g = if g == fd then false else s g

-- The calls on the listening descriptor and on the clients; in `write` the descriptor `none` is -1, and the data `none` is a length
-- of -1.
pub data Call : Type 0 where
  accept : ℕ → Call
  read : ℕ → Call
  close : ℕ → Call
  write : Option ℕ → Option (List ℕ) → Call

-- reset, client and maxfd; in client, `none` is -1.
pub record Server : Type 0 where
  pub reset : FdSet
  pub client : List (Option ℕ)
  pub maxfd : ℕ

-- What the system answers in a turn: the set and the number that select gives, the descriptor that
-- accept gives, and what read gives for the client in each entry.
pub record Turn : Type 0 where
  pub ready : FdSet
  pub retfd : ℕ
  pub confd : Option ℕ
  pub reads : ℕ → Received

-- main before its loop.
pub init_server : (serverfd : ℕ) → Server
init_server serverfd = record {
  reset = fd_set serverfd fd_zero;
  client = replicate client_count none;
  maxfd = serverfd + 1;
}

-- The loop that puts a new connection into the first free entry.
pub keep_client : (confd : ℕ) → List (Option ℕ) → List (Option ℕ)
keep_client confd [] = []
keep_client confd (none ∷ cs) = some confd ∷ cs
keep_client confd (some fd ∷ cs) = some fd ∷ keep_client confd cs

-- A new connection.
pub add_client : Server → (confd : ℕ) → Server
add_client s confd = record {
  reset = fd_set confd s.reset;
  client = keep_client confd s.client;
  maxfd = if ltb s.maxfd confd then confd else s.maxfd;
}

-- The table, the set and the calls that a loop over the clients leaves.
pub record Served : Type 0 where
  pub client : List (Option ℕ)
  pub reset : FdSet
  pub calls : List Call

-- A result with an entry in front.
abbrev pub keep : Option ℕ → List Call → Served → Served
keep c calls r = record r { client = c ∷ r.client; calls = calls ++ r.calls }

-- The entry and the set after a ready client.
pub entry_after : (fd : ℕ) → Received → Option ℕ
entry_after fd (received bytes) = some fd
entry_after fd closed = none
entry_after fd failed = some fd

pub reset_after : (fd : ℕ) → Received → FdSet → FdSet
reset_after fd (received bytes) set = set
reset_after fd closed set = fd_clr fd set
reset_after fd failed set = set

module _ (toupper : ℕ → ℕ) where
  -- The calls on a ready client: the write follows on each branch.
  pub calls_on : (fd : ℕ) → Received → List Call
  calls_on fd (received bytes) = read fd ∷ write (some fd) (some (map toupper bytes)) ∷ []
  calls_on fd closed = read fd ∷ close fd ∷ write none (some []) ∷ []
  calls_on fd failed = read fd ∷ write (some fd) none ∷ []

  -- The loop over the clients from the entry `i` on, which is the first of the list: `retfd` counts
  -- down, and the loop ends when it gets to 0.
  pub serve_clients : (i retfd : ℕ) → (ℕ → Received) → FdSet → List (Option ℕ) → Served
  serve_clients i retfd reads set [] = record { client = []; reset = set; calls = [] }
  serve_clients i retfd reads set (none ∷ cs) =
      keep none [] (serve_clients (i + 1) retfd reads set cs)
  serve_clients i retfd reads set (some fd ∷ cs) =
      let left = if set fd then retfd - 1 else retfd in
      let set' = if set fd then reset_after fd (reads i) set else set in
      let rest = serve_clients (i + 1) left reads set' cs in
      let c = entry_after fd (reads i) in
      let calls = calls_on fd (reads i) in
      if set fd
      then (if retfd == 1
          then record { client = c ∷ cs; reset = set'; calls = calls }
          else keep c calls rest)
      else keep (some fd) [] rest

  serve_all : Server → (retfd : ℕ) → (ℕ → Received) → Server × List Call
  serve_all s retfd reads =
      let r = serve_clients 0 retfd reads s.reset s.client in
      (record s { client = r.client; reset = r.reset }, r.calls)

  -- The branch of the listening descriptor, and the rest of its turn; the result `none` is the exit
  -- when accept fails.
  pub arrival : (serverfd : ℕ) → Server → Turn → (confd : Option ℕ) → Option (Server × List Call)
  arrival serverfd s t none = none
  arrival serverfd s t (some confd) =
      let s' = add_client s confd in
      let (s'', calls) = serve_all s' (t.retfd - 1) t.reads in
      if t.retfd == 1 then some (s', accept serverfd ∷ []) else some (s'', accept serverfd ∷ calls)

  -- A turn, where select has put its answer into reset.
  pub turn : (serverfd : ℕ) → Server → Turn → Option (Server × List Call)
  turn serverfd s t =
      let s' : Server = record s { reset = t.ready } in
      if t.ready serverfd
      then arrival serverfd s' t t.confd
      else some (serve_all s' t.retfd t.reads)
