-- ===== src/SharedCounter/Runs.antt =====
-- thread/synchronization/mutex/main.c: the states that the threads reach.
use advanced_programming_in.Base.{
  total, total-append, sym, ℕ, ◌+◌, ◌-◌, ◌<◌, ◌≤◌, ◌≡◌, refl, ap, List, [], ◌∷◌, ◌++◌, arith, ◌*◌,
  ◌⊎◌, inl, inr,
}
use native.Mathlib.Decide.{dec_lt}
use advanced_programming_in.SharedCounter.{
  limit, Line, System, initial, count, Step, Reach, here, next,
}

-- Lines that follow the number `n` and lead to the number `i`: the loops print one number after the
-- other, and a first line the number that stands there.
abbrev pub Follows : (n : ℕ) → List Line → (i : ℕ) → Type 0
Follows n [] i = n ≡ i
Follows n (Line.greeting m ∷ ls) i = (m ≡ n) × Follows n ls i
Follows n (Line.number m ∷ ls) i = (m ≡ n + 1) × Follows (n + 1) ls i

abbrev pub is_greeting : Line → ℕ
is_greeting (Line.greeting i) = 1
is_greeting (Line.number i) = 0

Follows-greeting :
    (n i : ℕ) (ls : List Line) → Follows n ls i → Follows n (ls ++ Line.greeting i ∷ []) i
Follows-greeting n i [] e = (sym e, e)
Follows-greeting n i (Line.greeting m ∷ ls) (e, rest) = (e, Follows-greeting n i ls rest)
Follows-greeting n i (Line.number m ∷ ls) (e, rest) = (e, Follows-greeting (n + 1) i ls rest)

Follows-number :
    (n i : ℕ) (ls : List Line) → Follows n ls i → Follows n (ls ++ Line.number (i + 1) ∷ []) (i + 1)
Follows-number n i [] e = (ap (λ m. m + 1) (sym e), ap (λ m. m + 1) e)
Follows-number n i (Line.greeting m ∷ ls) (e, rest) = (e, Follows-number n i ls rest)
Follows-number n i (Line.number m ∷ ls) (e, rest) = (e, Follows-number (n + 1) i ls rest)

record Holds (threads : ℕ) (s : System) : Type 0 where
  all : s.starting + s.testing + s.counting + s.finished ≡ threads
  bound : s.i + s.counting ≤ limit - 1 + threads
  ended : 0 < s.finished → limit ≤ s.i
  order : Follows 0 s.output s.i
  greeted : total is_greeting s.output + s.starting ≡ threads

count-Holds :
    {threads : ℕ} (s : System) → Holds threads s → 0 < s.counting → Holds threads (count s)
count-Holds s h some_counting = record {
  all = omega (arith, h.all);
  bound = omega (arith, h.bound);
  ended = λ x. let y = h.ended x in omega (arith, y);
  order = Follows-number 0 s.i s.output h.order;
  greeted =
      omega (arith, h.greeted, total-append is_greeting s.output (Line.number (s.i + 1) ∷ []));
}

Step-Holds : {threads : ℕ} {s t : System} → Step s t → Holds threads s → Holds threads t
Step-Holds {s = s} (Step.first a) h = record {
  all = omega (arith, h.all);
  bound = h.bound;
  ended = h.ended;
  order = Follows-greeting 0 s.i s.output h.order;
  greeted = omega (arith, a, h.greeted, total-append is_greeting s.output (Line.greeting s.i ∷ []));
}
Step-Holds (Step.pass a lt) h = record {
  all = omega (arith, h.all);
  bound = omega (arith, h.all);
  ended = h.ended;
  order = h.order;
  greeted = h.greeted;
}
Step-Holds (Step.leave a le) h = record {
  all = omega (arith, h.all);
  bound = h.bound;
  ended = λ x. le;
  order = h.order;
  greeted = h.greeted;
}
Step-Holds {s = s} (Step.add a) h = count-Holds s h a

initial-Holds : (threads : ℕ) → Holds threads (initial threads)
initial-Holds threads = record {
  all = omega arith;
  bound = omega arith;
  ended = λ x. absurd (omega arith);
  order = refl;
  greeted = omega arith;
}

Reach-Holds : {threads : ℕ} {s : System} → Reach (initial threads) s → Holds threads s
Reach-Holds {threads} here = initial-Holds threads
Reach-Holds (next r st) = Step-Holds st (Reach-Holds r)

-- How many steps a run has.
abbrev pub steps : {s t : System} → Reach s t → ℕ
steps here = 0
steps (next r st) = steps r + 1

Step-grows :
    {s t : System}
    → Step s t
    → s.i * 3 + s.testing + s.counting * 2 + s.finished * 3 + 1
      ≤ t.i * 3 + t.testing + t.counting * 2 + t.finished * 3
Step-grows (Step.first a) = omega (arith, a)
Step-grows (Step.pass a lt) = omega (arith, a)
Step-grows (Step.leave a le) = omega (arith, a)
Step-grows (Step.add a) = omega (arith, a)

few_steps :
    {threads : ℕ} {s : System} (r : Reach (initial threads) s)
    → steps r ≤ s.i * 3 + s.testing + s.counting * 2 + s.finished * 3
few_steps here = omega arith
few_steps (next r st) = omega (arith, few_steps r, Step-grows st)

goes_on :
    {threads : ℕ} (s : System)
    → Holds threads s
    → (s.finished ≡ threads) ⊎ ((t : System) × Step s t)
goes_on s h = elim (dec_lt 0 s.starting) [
  | yes starting ↦ inr (_, Step.first starting)
  | no a ↦ elim (dec_lt 0 s.counting) [
    | yes counting ↦ inr (_, Step.add counting)
    | no b ↦ elim (dec_lt 0 s.testing) [
      | no c ↦ inl (omega (arith, h.all))
      | yes testing ↦ elim (dec_lt s.i limit) [
        | yes below ↦ inr (_, Step.pass testing below)
        | no above ↦ inr (_, Step.leave testing (omega arith))
      ]
    ]
  ]
]

-- Threads that count under the mutex, but test outside it: in their loops they print each number from
-- 1 on once and in order, up to the value of i. Besides, each thread prints one first line, with the
-- number that i has then, which is the one in the last line from a loop, or 0. They may count past 100, but by less than there are threads, and a thread ends only once
-- 100 is reached. No run has more than 297 steps and 6 for each thread, and it can go on until all
-- threads have ended.
pub counts_in_order :
    {threads : ℕ} {s : System} (r : Reach (initial threads) s)
    → Follows 0 s.output s.i
      × (total is_greeting s.output + s.starting ≡ threads)
      × (s.i ≤ limit - 1 + threads)
      × (0 < s.finished → limit ≤ s.i)
      × (steps r ≤ 297 + 6 * threads)
      × ((s.finished ≡ threads) ⊎ ((t : System) × Step s t))
counts_in_order {s = s} r =
    let h = Reach-Holds r in
    (
      h.order,
      h.greeted,
      omega (arith, h.bound),
      h.ended,
      omega (arith, few_steps r, h.all, h.bound),
      goes_on s h,
    )
