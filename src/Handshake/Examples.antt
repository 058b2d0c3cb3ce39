-- ===== src/Handshake/Examples.antt =====
-- thread/thread_create/main.c: a whole run.
use advanced_programming_in.Base.{◌≡◌, ◌≤◌, ◌≢◌, refl, ◌⊎◌, [], ◌∷◌, arith}
use advanced_programming_in.Handshake.{System, initial, Step, Reach, here, next}
use advanced_programming_in.Handshake.Runs.{steps, prints_both}

abbrev over : System
over = record { sem1 = 0; sem2 = 0; n = 11; printed = 10 ∷ 11 ∷ []; child = 4; parent = 4 }

over_reached : Reach initial over
over_reached =
    next
      (next
        (next
          (next
            (next
              (next (next (next here (Step.print_first refl)) (Step.post2 refl))
                (Step.wait2 refl (omega arith)))
              (Step.add refl))
            (Step.post1 refl))
          (Step.wait1 refl (omega arith)))
        (Step.print_second refl))
      (Step.join refl refl)

prints_both_example :
    (steps over_reached ≤ 8)
    × (((over.parent ≡ 4) × (over.printed ≡ 10 ∷ 11 ∷ []))
        ⊎ ((over.parent ≢ 4) × ((t : System) × Step over t)))
prints_both_example = prints_both over_reached
