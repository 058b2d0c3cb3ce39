-- ===== src/TimerList/Tick.antt =====
-- timer/timer_list/timer_list.cpp: tick on a list that is linked in both directions.
use advanced_programming_in.Base.{
  ℕ, zero, suc, ◌<◌, ◌≡◌, ◌≢◌, refl, ap, sym, ◌∙◌, true, false, some, List, [], ◌∷◌, ◌++◌, map,
  ◌==◌, ltb, append-nil, append_assoc, if◌then◌else◌, arith, length, Bool-cases, inl, inr,
}
use advanced_programming_in.TimerList.{Timers, delete_timer, tick_at, tick_from, tick}
use advanced_programming_in.TimerList.Nodes.{null, Timer, Run, ok, ◌>>=◌}
use advanced_programming_in.TimerList.Segment.{Cell, first, timer_of, IsList}
use advanced_programming_in.TimerList.Delete.{delete_timer_lem}

-- The timers at the start of the list that have expired at the time `now`, and those behind them.
abbrev pub due : (now : ℕ) → List Cell → List Cell
due now [] = []
due now (c ∷ cs) = let rest = due now cs in if ltb now c.expire then [] else c ∷ rest

abbrev pub not_due : (now : ℕ) → List Cell → List Cell
not_due now [] = []
not_due now (c ∷ cs) = let rest = not_due now cs in if ltb now c.expire then c ∷ cs else rest

-- What a tick comes to.
abbrev pub Ticks : (now : ℕ) → Timers → List Cell → Run Timers → Type 0
Ticks now s cs r =
    (s' : Timers) × (r ≡ ok s')
    × IsList s' (not_due now cs)
    × (s'.fired ≡ s.fired ++ map (λ (c : Cell). c.user_data) (due now cs))

tick_end : (fuel : ℕ) (s : Timers) (now : ℕ) → tick_from (suc fuel) s null now ≡ ok s
unfolding tick_from
tick_end fuel s now = refl

module _ (fuel : ℕ) (s : Timers) (p now : ℕ) (n : Timer) (some_p : p ≢ null)
    (at : s.heap p ≡ some n) where
  tick_node : tick_from (suc fuel) s p now ≡ tick_at (λ s'. tick_from fuel s' n.next now) s p now n
  unfolding tick_from
  tick_node = let x : (p == null) ≡ false = ground arith in rw x (rw at refl)

  tick_stops : ltb now n.expire ≡ true → tick_from (suc fuel) s p now ≡ ok s
  unfolding tick_at
  tick_stops later = tick_node ∙ rw later refl

  tick_fires :
      ltb now n.expire ≡ false
      → tick_from (suc fuel) s p now ≡ (
          delete_timer (record s { fired = s.fired ++ n.user_data ∷ [] }) p >>= λ s'.
          tick_from fuel s' n.next now)
  unfolding tick_at
  tick_fires over = tick_node ∙ rw over refl

tick_from_lem :
    (fuel : ℕ) (s : Timers) (now : ℕ) (cs : List Cell)
    → IsList s cs
    → length cs < fuel
    → Ticks now s cs (tick_from fuel s (first cs null) now)
tick_from_lem zero s now cs inv enough = absurd (omega arith)
tick_from_lem (suc fuel) s now [] inv enough =
    (s, tick_end fuel s now, inv, sym (append-nil s.fired))
tick_from_lem (suc fuel) s now (c ∷ cs) inv enough =
    let (some_c, at, dist, l) = inv.linked in
    let n = timer_of c null (first cs null) in
    elim (Bool-cases (ltb now c.expire)) [
      | inl later ↦
          rw later
            (s, tick_stops fuel s c.addr now n some_c at later, inv, sym (append-nil s.fired))
      | inr over ↦
          let s1 : Timers = record s { fired = s.fired ++ c.user_data ∷ [] } in
          let inv1 : IsList s1 (c ∷ cs) = record {
            head = inv.head;
            tail = inv.tail;
            linked = inv.linked;
          } in
          let (s2, e, inv2, gone, same) = delete_timer_lem s1 c [] cs inv1 in
          let (s3, e', inv3, fired) = tick_from_lem fuel s2 now cs inv2 (omega arith) in
          rw over (
            s3,
            tick_fires fuel s c.addr now n some_c at over
                ∙ (ap (λ r. r >>= λ s'. tick_from fuel s' n.next now) e ∙ e'),
            inv3,
            fired
                ∙ (ap (λ r. r ++ map (λ (c : Cell). c.user_data) (due now cs)) same
                    ∙ append_assoc s.fired (c.user_data ∷ [])
                        (map (λ (c : Cell). c.user_data) (due now cs))),
          )
    ]

-- tick on a list of timers, with as many turns as there are timers, and one: it calls back the
-- timers at the start of the list that have expired, each once and in order, takes them off, and
-- leaves the others in a list that is linked in both directions.
pub tick_lem :
    (fuel : ℕ) (s : Timers) (now : ℕ) (cs : List Cell)
    → IsList s cs
    → length cs < fuel
    → Ticks now s cs (tick fuel s now)
unfolding tick
tick_lem fuel s now cs inv enough =
    let (s', e, list, fired) = tick_from_lem fuel s now cs inv enough in
    (s', ap (λ p. tick_from fuel s p now) inv.head ∙ e, list, fired)
