-- ===== src/TimerList/Cycle.antt =====
-- timer/timer_list/timer_list.cpp: addTimer before a node that is not the head.
use advanced_programming_in.Base.{
  ℕ, zero, suc, ◌+◌, ◌-◌, ◌<◌, ◌≤◌, ◌≡◌, ◌≢◌, refl, ap, sym, ◌∙◌, false, some, List, [], ◌∷◌, ◌++◌,
  ◌==◌, if◌then◌else◌, arith, length,
}
use advanced_programming_in.TimerList.{
  Timers, find_later, insert_last, insert_at, insert_from, add_timer,
}
use advanced_programming_in.TimerList.Nodes.{null, Timer, Heap, ok, out_of_fuel, write, ◌>>=◌}
use advanced_programming_in.TimerList.Segment.{
  Cell, first, last, timer_of, IsList, load_lem, set_pre_lem, set_next_lem, write_self, write_ne,
  Linked-split, first-append,
}
use advanced_programming_in.TimerList.Insert.{
  AllBefore, IsNew, find_later_on, find_later_here, find_later_lem,
}

-- Two nodes that point to one another: the search for a place behind both does not end.
circle :
    (fuel : ℕ) (h : Heap) (t d : Cell) (e : ℕ)
    → t.addr ≢ null
    → d.addr ≢ null
    → h t.addr ≡ some (timer_of t d.addr d.addr)
    → h d.addr ≡ some (timer_of d t.addr t.addr)
    → t.expire < e
    → d.expire < e
    → find_later fuel h d.addr e ≡ out_of_fuel
unfolding find_later
circle zero h t d e some_t some_d at_t at_d lt lt' = refl
circle (suc fuel) h t d e some_t some_d at_t at_d lt lt' =
    find_later_on fuel h d.addr e (timer_of d t.addr t.addr) some_d at_d lt'
    ∙ circle fuel h d t e some_d some_t at_d at_t lt' lt

-- When the first timer of the list expires.
abbrev pub first_expire : List Cell → Cell → ℕ
first_expire [] d = d.expire
first_expire (c ∷ cs) d = c.expire

-- addTimer behind its tests.
add_timer_tests :
    (s : Timers) (t c : Cell) (n : Timer) (fuel : ℕ)
    → IsNew s t
    → s.head ≡ c.addr
    → c.addr ≢ null
    → s.heap c.addr ≡ some n
    → n.expire ≤ t.expire
    → add_timer fuel s t.addr ≡ insert_from fuel s s.head t.addr
unfolding add_timer
add_timer_tests s t c n fuel fresh head some_c at le =
    let x = fresh.some_addr in let y = fresh.there in ground arith

add_timer_after_head :
    (s : Timers) (t : Cell) (fuel : ℕ) (ls : List Cell) (d : Cell) (rs : List Cell)
    → IsList s (ls ++ d ∷ rs)
    → IsNew s t
    → first_expire ls d ≤ t.expire
    → add_timer fuel s t.addr ≡ insert_from fuel s s.head t.addr
add_timer_after_head s t fuel [] d rs inv fresh le =
    let (some_d, at, dist, l) = inv.linked in
    add_timer_tests s t d (timer_of d null (first rs null)) fuel fresh inv.head some_d at le
add_timer_after_head s t fuel (c ∷ ls) d rs inv fresh le =
    let (some_c, at, dist, l) = inv.linked in
    add_timer_tests s t c (timer_of c null (first (ls ++ d ∷ rs) null)) fuel fresh inv.head some_c
      at le

module _ (s : Timers) (t d : Cell) (ls rs : List Cell) (inv : IsList s (ls ++ d ∷ rs))
    (fresh : IsNew s t) (other : t.addr ≢ d.addr) where
  at_d : (d.addr ≢ null) × (s.heap d.addr ≡ some (timer_of d (last null ls) (first rs null)))
  at_d =
      let (left, right, apart) = Linked-split s.heap null ls (d ∷ rs) null inv.linked in
      let (some_d, at, dist, l) = right in (some_d, at)

  insert_at_lem :
      (s' : Timers) × (insert_at s d.addr t.addr ≡ ok s')
      × (s'.heap t.addr ≡ some (timer_of t d.addr d.addr))
      × (s'.heap d.addr ≡ some (timer_of d t.addr t.addr))
      × (s'.head ≡ s.head)
  unfolding insert_at
  insert_at_lem =
      let (some_d, at) = at_d in
      let some_t = fresh.some_addr in
      let stop = first rs null in
      let flip : d.addr ≢ t.addr = λ e. other (sym e) in
      let h1 = write s.heap t.addr (some (timer_of t null d.addr)) in
      let h2 = write h1 d.addr (some (timer_of d t.addr stop)) in
      let h3 = write h2 t.addr (some (timer_of t d.addr d.addr)) in
      let h4 = write h3 d.addr (some (timer_of d t.addr t.addr)) in
      let e1 = set_next_lem s.heap t.addr d.addr (timer_of t null null) some_t fresh.there in
      let at1 = write_ne s.heap t.addr d.addr (some (timer_of t null d.addr)) flip ∙ at in
      let e2 = set_pre_lem h1 d.addr t.addr (timer_of d (last null ls) stop) some_d at1 in
      let there2 =
        write_ne h1 d.addr t.addr (some (timer_of d t.addr stop)) other
        ∙ write_self s.heap t.addr (some (timer_of t null d.addr)) in
      let e3 = load_lem h2 t.addr null (timer_of t null d.addr) some_t there2 in
      let at3 =
        write_ne h2 t.addr d.addr (some (timer_of t d.addr d.addr)) flip
        ∙ write_self h1 d.addr (some (timer_of d t.addr stop)) in
      let e5 = set_next_lem h3 d.addr t.addr (timer_of d t.addr stop) some_d at3 in
      (
        record s { heap = h4 },
        rw e1 (rw e2 (rw e3 (rw e5 refl))),
        write_ne h3 d.addr t.addr (some (timer_of d t.addr t.addr)) other
            ∙ write_self h2 t.addr (some (timer_of t d.addr d.addr)),
        write_self h3 d.addr (some (timer_of d t.addr t.addr)),
        refl,
      )

  -- The head expires no later than `t`, so addTimer looks for a place behind it.
  add_timer_inside :
      (fuel : ℕ)
      → first_expire ls d ≤ t.expire
      → add_timer fuel s t.addr ≡ insert_from fuel s s.head t.addr
  add_timer_inside fuel le = add_timer_after_head s t fuel ls d rs inv fresh le

  found :
      (fuel : ℕ)
      → AllBefore ls t.expire
      → t.expire ≤ d.expire
      → length ls < fuel
      → find_later fuel s.heap s.head t.expire ≡ ok d.addr
  found fuel all le enough =
      let rest = fuel - length ls - 1 in
      let split : fuel ≡ length ls + suc rest = omega arith in
      let (left, right, apart) = Linked-split s.heap null ls (d ∷ rs) null inv.linked in
      let (some_d, at) = at_d in
      ap (λ n. find_later n s.heap s.head t.expire) split
      ∙ (ap (λ p. find_later (length ls + suc rest) s.heap p t.expire)
            (inv.head ∙ first-append ls (d ∷ rs) null)
          ∙ (find_later_lem (suc rest) s.heap null ls d.addr t.expire left all
              ∙ find_later_here rest s.heap d.addr t.expire
                  (timer_of d (last null ls) (first rs null)) some_d at le))

  insert_from_at :
      (fuel : ℕ)
      → find_later fuel s.heap s.head t.expire ≡ ok d.addr
      → insert_from fuel s s.head t.addr ≡ insert_at s d.addr t.addr
  unfolding insert_from
  insert_from_at fuel e =
      let no_end : (d.addr == null) ≡ false = let (some_d, at) = at_d in ground arith in
      ap
        (λ r. r >>= λ n. find_later fuel s.heap s.head n.expire >>= λ q.
          if q == null then insert_last s t.addr else insert_at s q t.addr)
        (load_lem s.heap t.addr null (timer_of t null null) fresh.some_addr fresh.there)
      ∙ (ap (λ r. r >>= λ q. if q == null then insert_last s t.addr else insert_at s q t.addr) e
          ∙ ap (λ b. if b then insert_last s t.addr else insert_at s d.addr t.addr) no_end)

  -- addTimer for a timer that belongs before a node `d`, and not before the head, or that expires
  -- together with it: the new node and `d` point to one another in both directions, the nodes behind
  -- `d` are lost, and the search for the place of a timer that expires later than both runs on
  -- without an end.
  pub add_timer_circle :
      (fuel : ℕ)
      → length ls < fuel
      → AllBefore ls t.expire
      → t.expire ≤ d.expire
      → first_expire ls d ≤ t.expire
      → (s' : Timers) × (add_timer fuel s t.addr ≡ ok s')
        × (s'.heap t.addr ≡ some (timer_of t d.addr d.addr))
        × (s'.heap d.addr ≡ some (timer_of d t.addr t.addr))
        × (s'.head ≡ s.head)
        × ((more e : ℕ)
            → t.expire < e
            → d.expire < e
            → find_later more s'.heap d.addr e ≡ out_of_fuel)
  add_timer_circle fuel enough all le head =
      let (s', e, at_t, at_d', same) = insert_at_lem in
      (
        s',
        add_timer_inside fuel head ∙ (insert_from_at fuel (found fuel all le enough) ∙ e),
        at_t,
        at_d',
        same,
        λ more e lt lt'. circle more s'.heap t d e fresh.some_addr (at_d).0 at_t at_d' lt lt',
      )
