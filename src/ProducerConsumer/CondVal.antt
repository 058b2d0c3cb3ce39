-- ===== src/ProducerConsumer/CondVal.antt =====
-- thread/synchronization/condition_val/producer_consumer.c: the cells, the two loops' bodies, and
-- the threads with the two condition variables. A thread is either ready, at its lock or behind a
-- return of pthread_cond_wait (both lead to the test of its while), or it waits. A signal wakes at
-- least one waiting thread if there is one, and a thread may wake without a signal, as POSIX allows.
pub mod Turns
pub mod Runs
mod Examples
use advanced_programming_in.Base.{
  ℕ, ◌+◌, ◌-◌, ◌%◌, ◌≤◌, ◌<◌, ◌≡◌, ◌⊎◌, Option, none, some, List, [], ◌∷◌, ◌++◌, get_elem?, set,
  replicate, ◌==◌, if◌then◌else◌,
}
use advanced_programming_in.ProducerConsumer.{capacity, product}

-- queue, count, i
pub record Cells : Type 0 where
  pub queue : List ℕ
  pub count : ℕ
  pub i : ℕ

abbrev pub cleared : Cells
cleared = record { queue = replicate capacity 0; count = 0; i = 0 }

-- What a turn of the producer comes to: a wait, or a value that it has stored.
pub data Produced : Type 0 where
  full : Produced
  stored : ℕ → Produced

-- What a turn of the consumer comes to: a wait, or the value that it has printed, where `none` is a
-- read outside the array.
pub data Consumed : Type 0 where
  empty : Consumed
  printed : Option ℕ → Consumed

pub produce : Cells → (rand : ℕ) → Cells × Produced
produce c rand =
    if c.count == capacity
    then (c, Produced.full)
    else (let i = c.i % capacity in
        (
          record c { queue = set c.queue i (product rand); count = c.count + 1; i = i + 1 },
          Produced.stored (product rand),
        ))

-- queue[i - 1]
abbrev pub read_below : Cells → Option ℕ
read_below c = if c.i == 0 then none else get_elem? c.queue (c.i - 1)

pub consume : Cells → Cells × Consumed
consume c =
    if c.count == 0
    then (c, Consumed.empty)
    else (let i = if c.i == 0 then capacity else c.i in
        (
          record c { queue = set c.queue (i - 1) 0; count = c.count - 1; i = i - 1 },
          Consumed.printed (read_below c),
        ))

-- The cells, how many threads of each kind are ready and wait, and what has been stored and printed.
pub record System : Type 0 where
  pub cells : Cells
  pub producers_ready : ℕ
  pub producers_waiting : ℕ
  pub consumers_ready : ℕ
  pub consumers_waiting : ℕ
  pub stored : List ℕ
  pub printed : List (Option ℕ)

-- main, once all threads are started.
abbrev pub initial : (producers consumers : ℕ) → System
initial producers consumers = record {
  cells = cleared;
  producers_ready = producers;
  producers_waiting = 0;
  consumers_ready = consumers;
  consumers_waiting = 0;
  stored = [];
  printed = [];
}

-- The threads that a signal may wake, of those that wait.
abbrev pub IsWoken : (waiting woken : ℕ) → Type 0
IsWoken waiting woken = (woken ≤ waiting) × ((waiting ≡ 0) ⊎ (0 < woken))

abbrev pub after_produce : System → (woken : ℕ) → Cells × Produced → System
after_produce s woken (c, Produced.full) = record s {
  cells = c;
  producers_ready = s.producers_ready - 1;
  producers_waiting = s.producers_waiting + 1;
}
after_produce s woken (c, Produced.stored v) = record s {
  cells = c;
  consumers_ready = s.consumers_ready + woken;
  consumers_waiting = s.consumers_waiting - woken;
  stored = s.stored ++ v ∷ [];
}

abbrev pub after_consume : System → (woken : ℕ) → Cells × Consumed → System
after_consume s woken (c, Consumed.empty) = record s {
  cells = c;
  consumers_ready = s.consumers_ready - 1;
  consumers_waiting = s.consumers_waiting + 1;
}
after_consume s woken (c, Consumed.printed v) = record s {
  cells = c;
  producers_ready = s.producers_ready + woken;
  producers_waiting = s.producers_waiting - woken;
  printed = s.printed ++ v ∷ [];
}

pub data Step (s : System) : System → Type 0 where
  produce_turn :
      (rand woken : ℕ)
      → 0 < s.producers_ready
      → IsWoken s.consumers_waiting woken
      → Step s (after_produce s woken (produce s.cells rand))
  consume_turn :
      (woken : ℕ)
      → 0 < s.consumers_ready
      → IsWoken s.producers_waiting woken
      → Step s (after_consume s woken (consume s.cells))
  wake_producer :
      0 < s.producers_waiting
      → Step s (record s {
        producers_ready = s.producers_ready + 1;
        producers_waiting = s.producers_waiting - 1;
      })
  wake_consumer :
      0 < s.consumers_waiting
      → Step s (record s {
        consumers_ready = s.consumers_ready + 1;
        consumers_waiting = s.consumers_waiting - 1;
      })

pub data Reach (s : System) : System → Type 0 where
  here : Reach s s
  next : {t u : System} → Reach s t → Step t u → Reach s u
