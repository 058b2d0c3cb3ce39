-- ===== src/TimerServer/Examples.antt =====
-- timer/timer_list/main.cpp: runs on small inputs.
use advanced_programming_in.Base.{
  ℕ, ◌≡◌, ◌≢◌, refl, true, false, some, none, [], ◌∷◌, arith, ◌==◌, if◌then◌else◌, inr,
}
use advanced_programming_in.Kernel.Table.{Table, table}
use advanced_programming_in.TimerList.{Timers, add_timer}
use advanced_programming_in.TimerList.Nodes.{null, Run, ok, write, ◌>>=◌}
use advanced_programming_in.TimerList.Segment.{Cell, timer_of, IsList}
use advanced_programming_in.TimerServer.{
  failed, input_events, Server, read_client, serve_event, serve_events, serve_timeout,
  accept_client, addfd,
}
use advanced_programming_in.TimerList.Tick.{due, not_due}
use advanced_programming_in.TimerServer.Idle.{idle_closes_listener}
use advanced_programming_in.TimerServer.Handlers.{Leaves, read_client_lem}
use advanced_programming_in.TimerServer.Clients.{connects, disconnects, connects_then_disconnects}

-- The listening descriptor 3 and the client 7, with its timer at the address 1.
abbrev old : Cell
old = record { addr = 1; expire = 20; user_data = 7 }

abbrev watching : Table
watching fd =
    if fd == 3
    then some (record { events = input_events; index = 3 })
    else if fd == 7
    then some (record { events = input_events; index = 7 })
    else none

abbrev timers : Timers
timers = record {
  head = 1;
  tail = 1;
  heap = write (λ p. none) 1 (some (timer_of old null null));
  fired = [];
}

abbrev server : Server table
server = record {
  epoll = watching;
  timers = timers;
  users = λ fd. record { confd = 7; timer = 1 };
  stop_server = false;
  timeout = false;
}

timers-IsList : IsList timers (old ∷ [])
timers-IsList = record { head = refl; tail = refl; linked = (omega arith, refl, tt, tt) }

seven-Leaves : Leaves table server 7 [] (read_client table 3 server 7 failed 10)
seven-Leaves = read_client_lem table server 7 old [] [] refl timers-IsList 3 10 failed (inr refl)

-- The client 9 connects at the time 10, its timer is made at the address 2, and it leaves at 11.
connects_then_disconnects_example :
    (s' : Server table) × (serve_events table 3 3 5 server
        (connects 3 9 2 10 ∷ disconnects 9 11 ∷ [])
      ≡ ok s')
    × IsList s'.timers (old ∷ [])
    × (s'.epoll 3 ≡ none)
    × (s'.epoll 9 ≡ some (record { events = input_events; index = 9 }))
unfolding addfd
connects_then_disconnects_example =
    connects_then_disconnects table 3 3 5 server (old ∷ []) 9 2 10 11 timers-IsList (omega arith)
      (omega arith) (omega arith, tt) (omega arith, tt) (omega arith) (omega arith) refl

-- The server before its first client, and after the client 7 has connected at the time 5.
abbrev empty : Server table
empty = record {
  epoll = λ fd. if fd == 3 then some (record { events = input_events; index = 3 }) else none;
  timers = record { head = null; tail = null; heap = λ p. none; fired = [] };
  users = λ fd. record { confd = 0; timer = null };
  stop_server = false;
  timeout = false;
}

abbrev connected : Run (Server table)
connected = serve_events table 1 3 5 empty (connects 3 7 1 5 ∷ [])

-- client_data of the client 7 holds the listening descriptor 3.
holds_listener : (connected >>= λ s. ok (s.users 7).confd) ≡ ok 3
unfolding serve_events serve_event accept_client add_timer
holds_listener = refl

-- SIGALRM has come, and the time is 25.
abbrev alarmed : Server table
alarmed = record server { timeout = true; users = λ fd. record { confd = 3; timer = 1 } }

idle_closes_listener_example :
    (s' : Server table) × (serve_timeout table 2 alarmed 25 ≡ ok s')
    × IsList s'.timers (not_due 25 (old ∷ []))
    × (s'.timeout ≡ false)
    × (due 25 (old ∷ []) ≢ [] → s'.epoll 3 ≡ none)
    × ((g : ℕ) → g ≢ 3 → s'.epoll g ≡ watching g)
idle_closes_listener_example =
    idle_closes_listener table 2 3 alarmed 25 (old ∷ []) refl timers-IsList (omega arith) (refl, tt)
