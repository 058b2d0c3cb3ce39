-- ===== src/TimerList/Segment.antt =====
-- timer/timer_list/timer_list.cpp: doubly linked segments of the list.
use advanced_programming_in.Base.{
  ℕ, ◌≡◌, ◌≢◌, refl, ap, sym, ◌∙◌, false, Option, none, some, List, [], ◌∷◌, ◌++◌, ◌==◌, arith,
}
use advanced_programming_in.TimerList.{Timers}
use advanced_programming_in.TimerList.Nodes.{
  null, Timer, Heap, ok, write, load, set_pre, set_next, free, ◌>>=◌,
}

-- A timer in the list: its address, when it expires, and its user data.
pub record Cell : Type 0 where
  pub addr : ℕ
  pub expire : ℕ
  pub user_data : ℕ

-- Where a segment starts, if it ends before `stop`.
abbrev pub first : List Cell → ℕ → ℕ
first [] stop = stop
first (c ∷ cs) stop = c.addr

-- The last node of a segment that follows `before`.
abbrev pub last : ℕ → List Cell → ℕ
last before [] = before
last before (c ∷ cs) = last c.addr cs

abbrev pub timer_of : Cell → (pre next : ℕ) → Timer
timer_of c pre next = record { expire = c.expire; user_data = c.user_data; pre = pre; next = next }

abbrev pub Misses : ℕ → List Cell → Type 0
Misses a [] = Unit
Misses a (c ∷ cs) = (a ≢ c.addr) × Misses a cs

-- From `before` to `stop` the nodes `cs` are linked in both directions, at distinct addresses.
abbrev pub Linked : Heap → (before : ℕ) → List Cell → (stop : ℕ) → Type 0
Linked h before [] stop = Unit
Linked h before (c ∷ cs) stop =
    (c.addr ≢ null)
    × (h c.addr ≡ some (timer_of c before (first cs stop)))
    × Misses c.addr cs
    × Linked h c.addr cs stop

-- The list of timers, and its two pointers.
pub record IsList (s : Timers) (cs : List Cell) : Type 0 where
  pub head : s.head ≡ first cs null
  pub tail : s.tail ≡ last null cs
  pub linked : Linked s.heap null cs null

module _ (h : Heap) (p q : ℕ) (n : Timer) (some_p : p ≢ null) (there : h p ≡ some n) where
  -- The commands at a node that is there.
  pub load_lem : load p h ≡ ok n
  load_lem = let e : (p == null) ≡ false = ground arith in rw e (rw there refl)

  pub set_pre_lem : set_pre p q h ≡ ok (write h p (some (record n { pre = q })))
  set_pre_lem = ap (λ r. r >>= λ m. ok (write h p (some (record m { pre = q })))) load_lem

  pub set_next_lem : set_next p q h ≡ ok (write h p (some (record n { next = q })))
  set_next_lem = ap (λ r. r >>= λ m. ok (write h p (some (record m { next = q })))) load_lem

  pub free_lem : free p h ≡ ok (write h p none)
  free_lem = ap (λ r. r >>= λ m. ok (write h p none)) load_lem

pub write_self : (h : Heap) (p : ℕ) (c : Option Timer) → write h p c p ≡ c
write_self h p c = ground arith

pub write_ne : (h : Heap) (p q : ℕ) (c : Option Timer) → q ≢ p → write h p c q ≡ h q
write_ne h p q c apart = ground arith

pub Linked-write :
    (h : Heap) (a : ℕ) (c : Option Timer) (before : ℕ) (cs : List Cell) (stop : ℕ)
    → Misses a cs
    → Linked h before cs stop
    → Linked (write h a c) before cs stop
Linked-write h a c before [] stop out l = tt
Linked-write h a c before (d ∷ cs) stop (apart, out) (some_d, e, dist, l) = (
  some_d,
  write_ne h a d.addr c (λ q. apart (sym q)) ∙ e,
  dist,
  Linked-write h a c d.addr cs stop out l,
)

abbrev pub Apart : List Cell → List Cell → Type 0
Apart [] rs = Unit
Apart (a ∷ ls) rs = Misses a.addr rs × Apart ls rs

pub first-append : (ls rs : List Cell) (stop : ℕ) → first (ls ++ rs) stop ≡ first ls (first rs stop)
first-append [] rs stop = refl
first-append (a ∷ ls) rs stop = refl

pub last-append :
    (before : ℕ) (ls rs : List Cell) → last before (ls ++ rs) ≡ last (last before ls) rs
last-append before [] rs = refl
last-append before (a ∷ ls) rs = last-append a.addr ls rs

Misses-split : (a : ℕ) (ls rs : List Cell) → Misses a (ls ++ rs) → Misses a ls × Misses a rs
Misses-split a [] rs m = (tt, m)
Misses-split a (c ∷ ls) rs (apart, m) = let (x, y) = Misses-split a ls rs m in ((apart, x), y)

pub Misses-append : (a : ℕ) (ls rs : List Cell) → Misses a ls → Misses a rs → Misses a (ls ++ rs)
Misses-append a [] rs m n = n
Misses-append a (c ∷ ls) rs (apart, m) n = (apart, Misses-append a ls rs m n)

pub last-ne :
    (a before : ℕ) (c : Cell) (cs : List Cell) → Misses a (c ∷ cs) → last before (c ∷ cs) ≢ a
last-ne a before c [] (apart, m) e = apart (sym e)
last-ne a before c (d ∷ cs) (apart, m) e = last-ne a c.addr d cs m e

-- A segment in two parts.
pub Linked-split :
    (h : Heap) (before : ℕ) (ls rs : List Cell) (stop : ℕ)
    → Linked h before (ls ++ rs) stop
    → Linked h before ls (first rs stop) × Linked h (last before ls) rs stop × Apart ls rs
Linked-split h before [] rs stop l = (tt, l, tt)
Linked-split h before (a ∷ ls) rs stop (some_a, e, dist, l) =
    let (left, right, apart) = Linked-split h a.addr ls rs stop l in
    let (m, n) = Misses-split a.addr ls rs dist in
    (
      (some_a, e ∙ ap (λ q. some (timer_of a before q)) (first-append ls rs stop), m, left),
      right,
      (n, apart),
    )

pub Linked-join :
    (h : Heap) (before : ℕ) (ls rs : List Cell) (stop : ℕ)
    → Linked h before ls (first rs stop)
    → Linked h (last before ls) rs stop
    → Apart ls rs
    → Linked h before (ls ++ rs) stop
Linked-join h before [] rs stop left right apart = right
Linked-join h before (a ∷ ls) rs stop (some_a, e, m, left) right (n, apart) = (
  some_a,
  e ∙ ap (λ q. some (timer_of a before q)) (sym (first-append ls rs stop)),
  Misses-append a.addr ls rs m n,
  Linked-join h a.addr ls rs stop left right apart,
)

-- The last node of a segment, and the segment once that node's next pointer is set.
pub last_node :
    (h : Heap) (before : ℕ) (c : Cell) (cs : List Cell) (stop : ℕ)
    → Linked h before (c ∷ cs) stop
    → (last before (c ∷ cs) ≢ null)
      × ((n : Timer) × (h (last before (c ∷ cs)) ≡ some n)
          × (n.next ≡ stop)
          × ((to : ℕ)
              → Linked
                  (write h (last before (c ∷ cs)) (some (record n { next = to })))
                  before
                  (c ∷ cs)
                  to))
last_node h before c [] stop (some_c, e, dist, l) = (
  some_c,
  (
    timer_of c before stop,
    e,
    refl,
    λ to. (some_c, write_self h c.addr (some (timer_of c before to)), tt, tt),
  ),
)
last_node h before c (d ∷ cs) stop (some_c, e, dist, l) =
    let (some_last, (n, at, next, relink)) = last_node h c.addr d cs stop l in
    (
      some_last,
      (
        n,
        at,
        next,
        λ to. (
          some_c,
          write_ne h (last c.addr (d ∷ cs)) c.addr (some (record n { next = to }))
                (λ q. last-ne c.addr c.addr d cs dist (sym q))
              ∙ e,
          dist,
          relink to,
        ),
      ),
    )

-- The segment once the first node's pointer back is set.
pub Linked-before :
    (h : Heap) (before to : ℕ) (c : Cell) (cs : List Cell) (stop : ℕ)
    → Linked h before (c ∷ cs) stop
    → Linked (write h c.addr (some (timer_of c to (first cs stop)))) to (c ∷ cs) stop
Linked-before h before to c cs stop (some_c, e, dist, l) = (
  some_c,
  write_self h c.addr (some (timer_of c to (first cs stop))),
  dist,
  Linked-write h c.addr (some (timer_of c to (first cs stop))) c.addr cs stop dist l,
)
