-- ===== src/ProducerConsumer/Semaphore.antt =====
-- process/semaphore/produecr_consumer/main.c: the cells, the two semaphores and the threads. A
-- thread's turn is cut into the sem_wait, the piece under the mutex, and the sem_post.
pub mod Runs
mod Examples
use advanced_programming_in.Base.{
  ℕ, ◌+◌, ◌-◌, ◌%◌, ◌<◌, Option, List, [], ◌∷◌, ◌++◌, get_elem?, set, replicate, ◌==◌,
  if◌then◌else◌,
}
use advanced_programming_in.ProducerConsumer.{capacity, product}

-- queue, i
pub record Cells : Type 0 where
  pub queue : List ℕ
  pub i : ℕ

-- producer, under the mutex
pub produce : Cells → (rand : ℕ) → Cells
produce c rand = record { queue = set c.queue c.i (product rand); i = (c.i + 1) % capacity }

-- consumer, under the mutex, with the value that it prints: `none` is a read outside the array.
pub consume : Cells → Cells × Option ℕ
consume c =
    let i = if c.i == 0 then capacity else c.i in
    (record { queue = set c.queue (i - 1) 0; i = i - 1 }, get_elem? c.queue (i - 1))

-- How many threads of a kind stand before their sem_wait, before the mutex, and before their
-- sem_post.
pub record Threads : Type 0 where
  pub outside : ℕ
  pub inside : ℕ
  pub finished : ℕ

-- empty_sem and full_sem, and what has been stored and printed.
pub record System : Type 0 where
  pub cells : Cells
  pub empty : ℕ
  pub full : ℕ
  pub producers : Threads
  pub consumers : Threads
  pub stored : List ℕ
  pub printed : List (Option ℕ)

-- main, once the semaphores are set up and the threads are started.
abbrev pub initial : (producers consumers : ℕ) → System
initial producers consumers = record {
  cells = record { queue = replicate capacity 0; i = 0 };
  empty = capacity;
  full = 0;
  producers = record { outside = producers; inside = 0; finished = 0 };
  consumers = record { outside = consumers; inside = 0; finished = 0 };
  stored = [];
  printed = [];
}

abbrev pub enter : Threads → Threads
enter t = record t { outside = t.outside - 1; inside = t.inside + 1 }

abbrev pub finish : Threads → Threads
finish t = record t { inside = t.inside - 1; finished = t.finished + 1 }

abbrev pub leave : Threads → Threads
leave t = record t { finished = t.finished - 1; outside = t.outside + 1 }

abbrev pub after_produce : System → (rand : ℕ) → System
after_produce s rand = record s {
  cells = produce s.cells rand;
  producers = finish s.producers;
  stored = s.stored ++ product rand ∷ [];
}

abbrev pub after_consume : System → Cells × Option ℕ → System
after_consume s (c, v) = record s {
  cells = c;
  consumers = finish s.consumers;
  printed = s.printed ++ v ∷ [];
}

pub data Step (s : System) : System → Type 0 where
  wait_empty :
      0 < s.empty
      → 0 < s.producers.outside
      → Step s (record s { empty = s.empty - 1; producers = enter s.producers })
  store : (rand : ℕ) → 0 < s.producers.inside → Step s (after_produce s rand)
  post_full :
      0 < s.producers.finished
      → Step s (record s { full = s.full + 1; producers = leave s.producers })
  wait_full :
      0 < s.full
      → 0 < s.consumers.outside
      → Step s (record s { full = s.full - 1; consumers = enter s.consumers })
  fetch : 0 < s.consumers.inside → Step s (after_consume s (consume s.cells))
  post_empty :
      0 < s.consumers.finished
      → Step s (record s { empty = s.empty + 1; consumers = leave s.consumers })

pub data Reach (s : System) : System → Type 0 where
  here : Reach s s
  next : {t u : System} → Reach s t → Step t u → Reach s u
