-- ===== src/SharedCounter/Examples.antt =====
-- thread/synchronization/mutex/main.c: the start of a run.
use advanced_programming_in.Base.{total, ◌+◌, ◌-◌, ◌<◌, ◌≤◌, ◌≡◌, ◌⊎◌, ◌*◌, arith}
use advanced_programming_in.SharedCounter.{
  limit, System, initial, greet, go_on, count, Step, Reach, here, next,
}
use advanced_programming_in.SharedCounter.Runs.{Follows, is_greeting, steps, counts_in_order}

abbrev one : System
one = count (go_on (greet (initial 2)))

one_reached : Reach (initial 2) one
one_reached =
    next (next (next here (Step.first (omega arith))) (Step.pass (omega arith) (omega arith)))
      (Step.add (omega arith))

counts_in_order_example :
    Follows 0 one.output one.i
    × (total is_greeting one.output + one.starting ≡ 2)
    × (one.i ≤ limit - 1 + 2)
    × (0 < one.finished → limit ≤ one.i)
    × (steps one_reached ≤ 297 + 6 * 2)
    × ((one.finished ≡ 2) ⊎ ((t : System) × Step one t))
counts_in_order_example = counts_in_order one_reached
