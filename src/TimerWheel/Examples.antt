-- ===== src/TimerWheel/Examples.antt =====
-- timer/timer_wheel/timer_wheel.cpp: runs on a wheel whose vector has its slots, as the source means it.
use advanced_programming_in.Base.{◌≡◌, refl, none, some, [], ◌∷◌}
use advanced_programming_in.TimerList.Nodes.{fault, ◌>>=◌}
use advanced_programming_in.TimerWheel.{
  Wheel, ticks, place, push_front, add_timer, delete_front, delete_timer, tick, tick_from,
  call_timer,
}

-- Four slots of 5 seconds.
abbrev sized : Wheel
sized = record { n = 4; cur = 0; wheel = 0 ∷ 0 ∷ 0 ∷ 0 ∷ []; si = 5; heap = λ p. none; fired = [] }

-- 43 seconds: two whole rounds, and the first slot.
two_rounds : place sized 43 ≡ (2, 0)
unfolding place ticks
two_rounds = refl

-- deleteTimer of the only timer of a slot faults.
delete_only : (add_timer sized (some 5) 3 >>= λ w. delete_timer w 3) ≡ fault
unfolding add_timer place ticks push_front delete_timer delete_front
delete_only = refl

-- tick faults at a timer that is due, which has no call back.
due_faults : (add_timer sized (some 3) 3 >>= λ w. tick 2 w) ≡ fault
unfolding add_timer place ticks push_front tick tick_from call_timer
due_faults = refl
