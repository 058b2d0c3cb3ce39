-- ===== src/ProducerConsumer/CondVal/Examples.antt =====
-- thread/synchronization/condition_val/producer_consumer.c: runs on small inputs.
use advanced_programming_in.Base.{
  ℕ, ◌+◌, ◌≤◌, ◌<◌, ◌≡◌, refl, ◌⊎◌, inl, inr, some, [], ◌∷◌, arith, total,
}
use advanced_programming_in.ProducerConsumer.{capacity, weigh, is_outside}
use advanced_programming_in.ProducerConsumer.CondVal.{
  Cells, cleared, Consumed, produce, consume, System, initial, after_produce, after_consume, Step,
  Reach, here, next,
}
use advanced_programming_in.ProducerConsumer.CondVal.Turns.{
  contents, IsStack, Pushes, Pops, turns_lem,
}
use advanced_programming_in.ProducerConsumer.CondVal.Runs.{each_value_once, never_stuck}

-- One value in the array.
abbrev one_value : Cells
one_value = record { queue = 42 ∷ 0 ∷ 0 ∷ 0 ∷ 0 ∷ []; count = 1; i = 1 }

one_value-IsStack : IsStack one_value
one_value-IsStack = record { room = refl; top = refl; size = omega arith }

-- The last value is printed first.
last_in_first_out : (consume (produce one_value 106).0).1 ≡ Consumed.printed (some 7)
unfolding produce consume
last_in_first_out = refl

turns_lem_example :
    Pushes one_value 106 (produce one_value 106) × Pops one_value (consume one_value)
turns_lem_example = turns_lem one_value one_value-IsStack 106

-- main's threads: the consumer waits, a producer stores 7 and wakes it, and it prints 7.
abbrev asleep : System
asleep = after_consume (initial 3 1) 0 (consume cleared)

abbrev made : System
made = after_produce asleep 1 (produce cleared 106)

abbrev read : System
read = after_consume made 0 (consume made.cells)

read_reached : Reach (initial 3 1) read
unfolding produce consume
read_reached =
    next
      (next (next here (Step.consume_turn 0 (omega arith) (omega arith, inl refl)))
        (Step.produce_turn 106 1 (omega arith) (omega arith, inr (omega arith))))
      (Step.consume_turn 0 (omega arith) (omega arith, inl refl))

each_value_once_example :
    (read.cells.i ≡ read.cells.count)
    × (read.cells.count ≤ capacity)
    × ((w : ℕ → ℕ)
        → total w read.stored ≡ total (weigh w) read.printed + total w (contents read.cells))
    × (total is_outside read.printed ≡ 0)
each_value_once_example = each_value_once read_reached

never_stuck_example :
    ((0 < read.producers_ready) × (read.cells.count < capacity))
    ⊎ ((0 < read.consumers_ready) × (0 < read.cells.count))
never_stuck_example = never_stuck read_reached (omega arith) (omega arith)
