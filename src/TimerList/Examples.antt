-- ===== src/TimerList/Examples.antt =====
-- timer/timer_list/timer_list.cpp: runs on small inputs.
use advanced_programming_in.Base.{ℕ, ◌<◌, ◌≡◌, refl, some, none, [], ◌∷◌, ◌++◌, arith}
use advanced_programming_in.TimerList.{
  Timers, add_timer, find_later, insert_first, delete_timer, delete_inner, unlink, tick,
}
use advanced_programming_in.TimerList.Nodes.{null, Heap, ok, fault, out_of_fuel, write, ◌>>=◌}
use advanced_programming_in.TimerList.Segment.{Cell, timer_of, IsList}
use advanced_programming_in.TimerList.Insert.{IsNew, add_timer_last}
use advanced_programming_in.TimerList.Cycle.{add_timer_circle}
use advanced_programming_in.TimerList.Delete.{Deletes, delete_timer_lem}
use advanced_programming_in.TimerList.Tick.{Ticks, tick_lem}

abbrev cell : (addr expire : ℕ) → Cell
cell addr expire = record { addr = addr; expire = expire; user_data = addr }

abbrev nothing : Heap
nothing p = none

-- Two timers, at the addresses 1 and 2, that expire at 10 and 20, and the new node 3.
abbrev heap : (expire : ℕ) → Heap
heap expire =
    write
      (write (write nothing 3 (some (timer_of (cell 3 expire) null null))) 1
        (some (timer_of (cell 1 10) null 2)))
      2 (some (timer_of (cell 2 20) 1 null))

abbrev two : (expire : ℕ) → Timers
two expire = record { head = 1; tail = 2; heap = heap expire; fired = [] }

two-IsList : (expire : ℕ) → IsList (two expire) (cell 1 10 ∷ cell 2 20 ∷ [])
two-IsList expire = record {
  head = refl;
  tail = refl;
  linked = (omega arith, refl, (omega arith, tt), (omega arith, refl, tt, tt));
}

third-IsNew : (expire : ℕ) → IsNew (two expire) (cell 3 expire)
third-IsNew expire = record { some_addr = omega arith; there = refl }

third_behind :
    (s' : Timers) × (add_timer 5 (two 30) 3 ≡ ok s')
    × IsList s' ((cell 1 10 ∷ cell 2 20 ∷ []) ++ cell 3 30 ∷ [])
    × (s'.fired ≡ [])
third_behind =
    add_timer_last 5 (two 30) (cell 3 30) (cell 1 10 ∷ cell 2 20 ∷ []) (two-IsList 30)
      (third-IsNew 30) (omega arith, (omega arith, tt)) (omega arith)
      (omega arith, (omega arith, tt))

-- The new timer expires together with the second.
add_timer_circle_example :
    (s' : Timers) × (add_timer 5 (two 20) 3 ≡ ok s')
    × (s'.heap 3 ≡ some (timer_of (cell 3 20) 2 2))
    × (s'.heap 2 ≡ some (timer_of (cell 2 20) 3 3))
    × (s'.head ≡ 1)
    × ((more e : ℕ) → 20 < e → 20 < e → find_later more s'.heap 2 e ≡ out_of_fuel)
add_timer_circle_example =
    add_timer_circle (two 20) (cell 3 20) (cell 2 20) (cell 1 10 ∷ []) [] (two-IsList 20)
      (third-IsNew 20) (omega arith) 5 (omega arith) (omega arith, tt) (omega arith) (omega arith)

delete_timer_lem_example : Deletes (two 30) (cell 1 10) (cell 2 20 ∷ []) (delete_timer (two 30) 1)
delete_timer_lem_example = delete_timer_lem (two 30) (cell 1 10) [] (cell 2 20 ∷ []) (two-IsList 30)

tick_lem_example : Ticks 15 (two 30) (cell 1 10 ∷ cell 2 20 ∷ []) (tick 3 (two 30) 15)
tick_lem_example = tick_lem 3 (two 30) 15 (cell 1 10 ∷ cell 2 20 ∷ []) (two-IsList 30) (omega arith)

-- A timer that expires first comes to the head, but the old head's pointer back stays nullptr: its
-- deletion then faults.
front_then_delete : (add_timer 5 (two 5) 3 >>= λ s. delete_timer s 1) ≡ fault
unfolding add_timer insert_first delete_timer delete_inner unlink
front_then_delete = refl
