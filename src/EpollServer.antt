-- ===== src/EpollServer.antt =====
-- unix网络编程/IO多路复用/epoll/epoll_ET/server.c and epoll_LT/server.c: the two programs differ in how
-- they watch the listening descriptor and in how much they read at once. What accept, epoll_ctl and
-- read answer is an argument; toupper is a parameter.
pub mod Watches
pub mod Drain
pub mod Conversation
mod Examples
use advanced_programming_in.Base.{
  ℕ, Bool, true, false, Option, none, some, List, [], ◌∷◌, ◌++◌, map, ◌==◌, if◌then◌else◌,
}
use advanced_programming_in.Kernel.{Kernel, Events, Watch, Op}

pub record Variant : Type 0 where
  pub listen_edge : Bool
  pub read_size : ℕ

abbrev pub edge_triggered : Variant
edge_triggered = record { listen_edge = true; read_size = 5 }

abbrev pub level_triggered : Variant
level_triggered = record { listen_edge = false; read_size = 512 }

-- temp.events for the listening descriptor, and for a client in both programs.
abbrev pub listen_events : Variant → Events
listen_events v = record { input = true; output = false; edge = v.listen_edge }

abbrev pub client_events : Events
client_events = record { input = true; output = false; edge = false }

-- What accept and the epoll_ctl for the new descriptor answer.
pub data Accepted : Type 0 where
  accepted : ℕ → Accepted
  add_failed : Accepted

-- What read returns: data, 0 or -1.
pub data Received : Type 0 where
  received : List ℕ → Received
  closed : Received
  failed : Received

module _ (k : Kernel) where
  -- epollfd, and the data given to write, in order.
  pub record Server : Type 0 where
    pub epoll : k.State
    pub output : List (ℕ × List ℕ)

module _ (k : Kernel) (toupper : ℕ → ℕ) (serverfd : ℕ) where
  -- The registration of the listening descriptor.
  pub start : Variant → k.State → Server k
  start v e = record {
    epoll = k.ctl Op.add serverfd (record { events = listen_events v; index = serverfd }) e;
    output = [];
  }

  -- A new connection: `none` is the exit when epoll_ctl fails, as it does when accept has failed.
  pub accept_client : Server k → Accepted → Option (Server k)
  accept_client s (accepted confd) = some (record s {
    epoll = k.ctl Op.add confd (record { events = client_events; index = confd }) s.epoll;
  })
  accept_client s add_failed = none

  -- Input from the client `fd`.
  pub read_client : Server k → (fd : ℕ) → Received → Server k
  read_client s fd (received bytes) = record s { output = s.output ++ (fd, map toupper bytes) ∷ [] }
  read_client s fd closed = record s {
    epoll = k.close fd (k.ctl Op.delete fd (record { events = client_events; index = fd }) s.epoll);
  }
  read_client s fd failed = s

  -- The body of the loop over the ready events: the event's data.fd, and whether it has EPOLLIN.
  pub serve_event : Server k → (fd : ℕ) → (input : Bool) → Accepted → Received → Option (Server k)
  serve_event s fd input a r =
      if fd == serverfd
      then accept_client s a
      else if input
      then some (read_client s fd r)
      else some s
