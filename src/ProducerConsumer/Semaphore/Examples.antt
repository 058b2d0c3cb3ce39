-- ===== src/ProducerConsumer/Semaphore/Examples.antt =====
-- process/semaphore/produecr_consumer/main.c: runs on small inputs.
use advanced_programming_in.Base.{
  ℕ, ◌+◌, ◌-◌, ◌≤◌, ◌<◌, ◌≡◌, refl, ◌⊎◌, ◌%◌, some, [], ◌∷◌, arith, total, take,
}
use advanced_programming_in.ProducerConsumer.{capacity, weigh, is_outside}
use advanced_programming_in.ProducerConsumer.Semaphore.{
  consume, System, initial, after_produce, enter, Step, Reach, here, next,
}
use advanced_programming_in.ProducerConsumer.Semaphore.Runs.{each_value_in_place, semaphores_let_go}

-- With all cells in use, the consumer reads the last one.
full_array : (consume (record { queue = 1 ∷ 2 ∷ 3 ∷ 4 ∷ 5 ∷ []; i = 0 })).1 ≡ some 5
unfolding consume
full_array = refl

-- A producer passes its sem_wait and stores 7.
abbrev entered : System
entered = let s = initial 3 1 in record s { empty = s.empty - 1; producers = enter s.producers }

abbrev made : System
made = after_produce entered 106

made_reached : Reach (initial 3 1) made
made_reached =
    next (next here (Step.wait_empty (omega arith) (omega arith))) (Step.store 106 (omega arith))

each_value_in_place_example :
    (n : ℕ) × (n ≤ capacity)
    × (made.cells.i ≡ n % capacity)
    × ((w : ℕ → ℕ)
        → total w made.stored ≡ total (weigh w) made.printed + total w (take n made.cells.queue))
    × (0 < made.producers.inside → n < capacity)
    × (0 < made.consumers.inside → 0 < n)
    × (total is_outside made.printed ≡ 0)
each_value_in_place_example = each_value_in_place made_reached

let_go_made :
    (made.empty + made.full ≤ capacity)
    × (((0 < made.empty) × (0 < made.producers.outside))
        ⊎ (((0 < made.full) × (0 < made.consumers.outside))
            ⊎ (0
                < made.producers.inside + made.producers.finished + made.consumers.inside
                  + made.consumers.finished)))
let_go_made = semaphores_let_go made_reached (omega arith) (omega arith)
