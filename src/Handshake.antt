-- ===== src/Handshake.antt =====
-- thread/thread_create/main.c: two threads that take turns by two semaphores. A thread stands before
-- the operation that its program counter numbers.
pub mod Runs
mod Examples
use advanced_programming_in.Base.{ℕ, ◌+◌, ◌-◌, ◌<◌, ◌≡◌, List, [], ◌∷◌, ◌++◌}

-- sem1, sem2, n, what th_fun prints of n, and where th_fun and main stand: th_fun at its first
-- printf, sem_post(&sem2), sem_wait(&sem1), its second printf, its end; main at sem_wait(&sem2), ++n,
-- sem_post(&sem1), pthread_join, its end.
pub record System : Type 0 where
  pub sem1 : ℕ
  pub sem2 : ℕ
  pub n : ℕ
  pub printed : List ℕ
  pub child : ℕ
  pub parent : ℕ

-- main behind pthread_create.
abbrev pub initial : System
initial = record { sem1 = 0; sem2 = 0; n = 10; printed = []; child = 0; parent = 0 }

abbrev pub print_n : System → System
print_n s = record s { printed = s.printed ++ s.n ∷ []; child = s.child + 1 }

pub data Step (s : System) : System → Type 0 where
  print_first : s.child ≡ 0 → Step s (print_n s)
  post2 : s.child ≡ 1 → Step s (record s { sem2 = s.sem2 + 1; child = 2 })
  wait1 : s.child ≡ 2 → 0 < s.sem1 → Step s (record s { sem1 = s.sem1 - 1; child = 3 })
  print_second : s.child ≡ 3 → Step s (print_n s)
  wait2 : s.parent ≡ 0 → 0 < s.sem2 → Step s (record s { sem2 = s.sem2 - 1; parent = 1 })
  add : s.parent ≡ 1 → Step s (record s { n = s.n + 1; parent = 2 })
  post1 : s.parent ≡ 2 → Step s (record s { sem1 = s.sem1 + 1; parent = 3 })
  join : s.parent ≡ 3 → s.child ≡ 4 → Step s (record s { parent = 4 })

pub data Reach (s : System) : System → Type 0 where
  here : Reach s s
  next : {t u : System} → Reach s t → Step t u → Reach s u
