-- ===== src/ProcessPool.antt =====
-- process/processpool/processpool.h: the constructor of processpool, seen by one of the processes that
-- come out of it, and the loops of run_child and run_parent. What fork, epoll_wait, recv, accept and
-- waitpid answer is an argument; epoll_ctl goes to the kernel.
pub mod Family
pub mod Loops
pub mod Shutdown
mod Examples
use advanced_programming_in.Base.{
  ℕ, zero, suc, ◌+◌, Bool, true, false, ◌&&◌, ◌||◌, Option, none, some, List, [], ◌∷◌, ◌++◌, get_or,
  set, replicate, ltb, leb, ◌==◌, if◌then◌else◌,
}
use advanced_programming_in.Kernel.{Kernel, Events, Watch, Op}

-- class process: `none` is the pid -1, and the two flags tell which ends of the pipe are open.
pub record Process : Type 0 where
  pub pid : Option ℕ
  pub end_0 : Bool
  pub end_1 : Bool

abbrev pub no_process : Process
no_process = record { pid = none; end_0 = false; end_1 = false }

-- What fork returns.
pub data Forked : Type 0 where
  in_parent : ℕ → Forked
  in_child : Forked
  fork_failed : Forked

-- The loop of the constructor from `i` on over `rounds` children, in a process for which fork
-- returns `forks i` there: sub_process and index at its end, where `none` is the index -1.
pub construct : (rounds i : ℕ) → (forks : ℕ → Forked) → List Process → List Process × Option ℕ
construct zero i forks subs = (subs, none)
construct (suc rounds) i forks subs = elim (forks i) [
  | in_parent pid ↦
      construct rounds (i + 1) forks
        (set subs i (record { pid = some pid; end_0 = true; end_1 = false }))
  | in_child ↦ (set subs i (record { pid = some 0; end_0 = false; end_1 = true }), some i)
  | fork_failed ↦ (set subs i (record { pid = none; end_0 = false; end_1 = true }), some i)
]

-- The constructor behind its assert.
pub start_processes : (process_num : ℕ) → (ℕ → Forked) → List Process × Option ℕ
start_processes process_num forks = construct process_num 0 forks (replicate process_num no_process)

-- MAX_PROCESS_NUM
abbrev pub max_process_num : ℕ
max_process_num = 16

-- The constructor; `none` is the abort when its assert fails.
pub processpool : (process_num : ℕ) → (ℕ → Forked) → Option (List Process × Option ℕ)
processpool process_num forks =
    if ltb 0 process_num && leb process_num max_process_num
    then some (start_processes process_num forks)
    else none

-- run: a process without an index is the parent.
pub data Role : Type 0 where
  parent : Role
  child : ℕ → Role

pub run : Option ℕ → Role
run none = Role.parent
run (some index) = Role.child index

-- A byte in the signal pipe; SIGCHLD with the pids that the loop over waitpid collects then.
pub data Signal : Type 0 where
  sigchld : List ℕ → Signal
  sigterm : Signal
  sigint : Signal
  other_signal : Signal

-- What recv on the pipe to the parent returns: the byte, -1 with EINTR, or 0 and -1 otherwise.
pub data Notice : Type 0 where
  arrived : Notice
  interrupted_recv : Notice
  no_notice : Notice

-- A ready event: its data.fd, whether it has EPOLLIN, and what the calls of its branch answer.
-- `signals` is empty where recv on the signal pipe returns 0 or -1.
pub record Event : Type 0 where
  pub fd : ℕ
  pub input : Bool
  pub notice : Notice
  pub confd : Option ℕ
  pub signals : List Signal

-- What epoll_wait returns.
pub data Wait : Type 0 where
  wait_failed : Wait
  interrupted : Wait
  ready : List Event → Wait

-- The events asked for by addfd(epollfd, ..., EPOLLIN | EPOLLET).
abbrev pub edge_input : Events
edge_input = record { input = true; output = false; edge = true }

-- kill(pid, SIGTERM) for each sub-process with a pid.
pub kill_all : List Process → List ℕ
kill_all [] = []
kill_all (p ∷ ps) = let rest = kill_all ps in elim p.pid [ none ↦ rest | some pid ↦ pid ∷ rest ]

-- A loop after some calls of epoll_wait: it waits for the next one, or it has ended.
pub data Progress {ℓ} (S : Type ℓ) : Type ℓ where
  running : S → Progress S
  ended : S → Progress S

module _ (k : Kernel) where
  -- addfd
  pub addfd : ℕ → k.State → k.State
  addfd fd e = k.ctl Op.add fd (record { events = edge_input; index = fd }) e

  -- stop and epollfd, the pids collected so far, and the pids that got SIGTERM.
  pub record State : Type 0 where
    pub stop : Bool
    pub epoll : k.State
    pub collected : List ℕ
    pub killed : List ℕ

  -- setup_sig_pipe, in a process whose signal pipe is read at `sigfd`.
  pub setup_sig_pipe : (sigfd : ℕ) → k.State → State
  setup_sig_pipe sigfd e = record {
    stop = false;
    epoll = addfd sigfd e;
    collected = [];
    killed = [];
  }

  -- The switch over a signal in run_child.
  pub child_signal : State → Signal → State
  child_signal s (sigchld pids) = record s { collected = s.collected ++ pids }
  child_signal s sigterm = record s { stop = true }
  child_signal s sigint = record s { stop = true }
  child_signal s other_signal = s

  pub child_signals : State → List Signal → State
  child_signals s [] = s
  child_signals s (g ∷ gs) = child_signals (child_signal s g) gs

  -- The branch for a byte from the parent.
  pub child_accept : State → Notice → Option ℕ → State
  child_accept s no_notice confd = s
  child_accept s n none = s
  child_accept s n (some confd) = record s { epoll = addfd confd s.epoll }

  -- An event in run_child.
  pub child_event : (pipefd sigfd : ℕ) → State → Event → State
  child_event pipefd sigfd s e =
      if (e.fd == pipefd) && e.input
      then child_accept s e.notice e.confd
      else if (e.fd == sigfd) && e.input
      then child_signals s e.signals
      else s

  -- The switch over a signal in run_parent.
  pub parent_signal : List Process → State → Signal → State
  parent_signal subs s (sigchld pids) = record s { collected = s.collected ++ pids }
  parent_signal subs s sigterm = record s { killed = s.killed ++ kill_all subs }
  parent_signal subs s sigint = record s { killed = s.killed ++ kill_all subs }
  parent_signal subs s other_signal = s

  pub parent_signals : List Process → State → List Signal → State
  parent_signals subs s [] = s
  parent_signals subs s (g ∷ gs) = parent_signals subs (parent_signal subs s g) gs

  -- An event in run_parent; the branch for a new connection is empty.
  pub parent_event : List Process → (listenfd sigfd : ℕ) → State → Event → State
  parent_event subs listenfd sigfd s e =
      if e.fd == listenfd
      then s
      else if (e.fd == sigfd) && e.input
      then parent_signals subs s e.signals
      else s

  -- The loop over the events of a call of epoll_wait.
  pub serve : (State → Event → State) → State → List Event → State
  serve handle s [] = s
  serve handle s (e ∷ es) = serve handle (handle s e) es

  -- while(!stop) over the answers of epoll_wait.
  pub loop : (State → Event → State) → State → List Wait → Progress State
  loop handle s [] = if s.stop then Progress.ended s else Progress.running s
  loop handle s (w ∷ ws) = elim s.stop [
    | true ↦ Progress.ended s
    | false ↦ elim w [
      | wait_failed ↦ Progress.ended s
      | interrupted ↦ loop handle s ws
      | ready es ↦ loop handle (serve handle s es) ws
    ]
  ]

  -- run_child, whose end of the pipe to the parent is `pipefd`.
  pub run_child : (pipefd sigfd : ℕ) → k.State → List Wait → Progress State
  run_child pipefd sigfd e ws =
      let s = setup_sig_pipe sigfd e in
      loop (child_event pipefd sigfd) (record s { epoll = addfd pipefd s.epoll }) ws

  -- run_parent
  pub run_parent : List Process → (listenfd sigfd : ℕ) → k.State → List Wait → Progress State
  run_parent subs listenfd sigfd e ws =
      let s = setup_sig_pipe sigfd e in
      loop (parent_event subs listenfd sigfd) (record s { epoll = addfd listenfd s.epoll }) ws
