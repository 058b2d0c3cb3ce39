-- ===== src/ProcessPool/Examples.antt =====
-- process/processpool/processpool.h: runs on small inputs.
use advanced_programming_in.Base.{
  ℕ, ◌+◌, ◌≡◌, refl, true, none, some, List, [], ◌∷◌, ◌==◌, if◌then◌else◌,
}
use advanced_programming_in.Kernel.Table.{Table, table}
use advanced_programming_in.ProcessPool.{
  Forked, in_parent, in_child, start_processes, Signal, sigchld, sigterm, arrived, no_notice, Event,
  Wait, interrupted, ready, running, State, setup_sig_pipe, child_event, child_signals,
  child_signal, child_accept, serve, loop, run_child, run_parent,
}
use advanced_programming_in.ProcessPool.Loops.{
  any, has_ended, ends_loop, stops_child, run_child_lem,
}
use advanced_programming_in.ProcessPool.Shutdown.{copies, stop_requests, pids_from, run_parent_lem}

abbrev pid : ℕ → ℕ
pid i = 100 + i

abbrev parent_forks : ℕ → Forked
parent_forks i = in_parent (pid i)

-- The process that is the child 1.
abbrev child_forks : ℕ → Forked
child_forks i = if i == 1 then in_child else in_parent (pid i)

abbrev nothing_watched : Table
nothing_watched fd = none

-- The signal pipe 4 brings signals.
abbrev signalled : List Signal → Event
signalled gs = record { fd = 4; input = true; notice = no_notice; confd = none; signals = gs }

-- The parent's pipe 6 announces the connection 9.
abbrev announced : Event
announced = record { fd = 6; input = true; notice = arrived; confd = some 9; signals = [] }

abbrev waits : List Wait
waits =
    interrupted
    ∷ ready (announced ∷ [])
    ∷ ready (signalled (sigchld (101 ∷ []) ∷ sigterm ∷ []) ∷ [])
    ∷ []

child_stops : has_ended (run_child table 6 4 nothing_watched waits) ≡ true
unfolding run_child setup_sig_pipe loop serve child_event child_accept child_signals child_signal
child_stops = refl

run_child_lem_example :
    has_ended (run_child table 6 4 nothing_watched waits) ≡ any (ends_loop (stops_child 6 4)) waits
run_child_lem_example = run_child_lem table 6 4 nothing_watched waits

run_parent_lem_example :
    (t : State table) × (run_parent table
        (start_processes 2 parent_forks).0
        3
        4
        nothing_watched
        waits
      ≡ running t)
    × (t.killed ≡ copies (stop_requests 3 4 waits) (pids_from 2 0 pid))
run_parent_lem_example =
    run_parent_lem table 2 parent_forks pid 3 4 nothing_watched waits (λ j lt. refl) refl
