-- ===== src/ProducerConsumer.antt =====
-- The two programs of producers and consumers, thread/synchronization/condition_val/
-- producer_consumer.c and process/semaphore/produecr_consumer/main.c: their array read as a stack.
pub mod CondVal
pub mod Semaphore
use advanced_programming_in.Base.{
  ℕ, zero, suc, ◌+◌, ◌%◌, ◌<◌, ◌≤◌, ◌≡◌, refl, ap, List, [], ◌∷◌, ◌++◌, arith, length, set, take,
  get_or, get_elem?, Option, none, some, ◌-◌,
}

-- #define MAX
abbrev pub capacity : ℕ
capacity = 5

-- What the producers store: rand() % 100 + 1.
abbrev pub product : ℕ → ℕ
product rand = rand % 100 + 1

-- The weight of a printed value, and 1 for a value that was read outside the array.
abbrev pub weigh : (ℕ → ℕ) → Option ℕ → ℕ
weigh w none = 0
weigh w (some v) = w v

abbrev pub is_outside : Option ℕ → ℕ
is_outside none = 1
is_outside (some v) = 0
