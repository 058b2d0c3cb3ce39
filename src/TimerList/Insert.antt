-- ===== src/TimerList/Insert.antt =====
-- timer/timer_list/timer_list.cpp: addTimer behind all nodes, before all nodes, and between nodes.
use advanced_programming_in.Base.{
  ℕ, suc, ◌+◌, ◌-◌, ◌<◌, ◌≤◌, ◌≡◌, ◌≢◌, refl, ap, sym, ◌∙◌, true, false, some, List, [], ◌∷◌, ◌++◌,
  ◌==◌, leb, if◌then◌else◌, arith, length,
}
use advanced_programming_in.TimerList.{
  Timers, find_later, insert_last, insert_at, insert_from, add_timer,
}
use advanced_programming_in.TimerList.Nodes.{null, Timer, Heap, ok, write, set_pre, set_next, ◌>>=◌}
use advanced_programming_in.TimerList.Segment.{
  Cell, first, last, timer_of, Misses, Linked, IsList, load_lem, set_pre_lem, set_next_lem,
  write_self, write_ne, Linked-write, Apart, Linked-join, last_node, last-append, last-ne,
}

-- All timers expire before `e`.
abbrev pub AllBefore : List Cell → ℕ → Type 0
AllBefore [] e = Unit
AllBefore (c ∷ cs) e = (c.expire < e) × AllBefore cs e

pub find_later_end : (fuel : ℕ) (h : Heap) (e : ℕ) → find_later (suc fuel) h null e ≡ ok null
unfolding find_later
find_later_end fuel h e = refl

pub find_later_on :
    (fuel : ℕ) (h : Heap) (p e : ℕ) (n : Timer)
    → p ≢ null
    → h p ≡ some n
    → n.expire < e
    → find_later (suc fuel) h p e ≡ find_later fuel h n.next e
unfolding find_later
find_later_on fuel h p e n some_p at lt =
    let x : (p == null) ≡ false = ground arith in
    let y : leb e n.expire ≡ false = ground arith in rw x (rw at (rw y refl))

pub find_later_here :
    (fuel : ℕ) (h : Heap) (p e : ℕ) (n : Timer)
    → p ≢ null
    → h p ≡ some n
    → e ≤ n.expire
    → find_later (suc fuel) h p e ≡ ok p
unfolding find_later
find_later_here fuel h p e n some_p at le =
    let x : (p == null) ≡ false = ground arith in
    let y : leb e n.expire ≡ true = ground arith in rw x (rw at (rw y refl))

-- The loop passes over the timers that expire before `e`.
pub find_later_lem :
    (fuel : ℕ) (h : Heap) (before : ℕ) (cs : List Cell) (stop e : ℕ)
    → Linked h before cs stop
    → AllBefore cs e
    → find_later (length cs + fuel) h (first cs stop) e ≡ find_later fuel h stop e
find_later_lem fuel h before [] stop e l all = ap (λ n. find_later n h stop e) (omega arith)
find_later_lem fuel h before (c ∷ cs) stop e (some_c, at, dist, l) (lt, all) =
    let more : suc (length cs) + fuel ≡ suc (length cs + fuel) = omega arith in
    ap (λ n. find_later n h c.addr e) more
    ∙ (find_later_on (length cs + fuel) h c.addr e (timer_of c before (first cs stop)) some_c at lt
        ∙ find_later_lem fuel h c.addr cs stop e l all)

-- A timer that is in no list yet.
pub record IsNew (s : Timers) (t : Cell) : Type 0 where
  pub some_addr : t.addr ≢ null
  pub there : s.heap t.addr ≡ some (timer_of t null null)

Apart-of_Misses : (t : Cell) (cs : List Cell) → Misses t.addr cs → Apart cs (t ∷ [])
Apart-of_Misses t [] out = tt
Apart-of_Misses t (c ∷ cs) (apart, out) = (((λ e. apart (sym e)), tt), Apart-of_Misses t cs out)

module _ (s : Timers) (t c : Cell) (cs : List Cell) (inv : IsList s (c ∷ cs)) (fresh : IsNew s t)
    (out : Misses t.addr (c ∷ cs)) where
  -- Behind the last node.
  insert_last_lem :
      (s' : Timers) × (insert_last s t.addr ≡ ok s')
      × IsList s' ((c ∷ cs) ++ t ∷ [])
      × (s'.fired ≡ s.fired)
  unfolding insert_last
  insert_last_lem =
      let z = last null (c ∷ cs) in
      let (some_z, (n, at, next, relink)) = last_node s.heap null c cs null inv.linked in
      let other : t.addr ≢ z = λ e. last-ne t.addr null c cs out (sym e) in
      let h = write s.heap z (some (record n { next = t.addr })) in
      let h' = write h t.addr (some (timer_of t z null)) in
      let there =
        write_ne s.heap z t.addr (some (record n { next = t.addr })) other ∙ fresh.there in
      let e =
        ap (λ p. set_next p t.addr s.heap) inv.tail ∙ set_next_lem s.heap z t.addr n some_z at in
      let e' =
        ap (λ p. set_pre t.addr p h) inv.tail
        ∙ set_pre_lem h t.addr z (timer_of t null null) fresh.some_addr there in
      (
        record s { heap = h'; tail = t.addr },
        ap
              (λ r. r >>= λ g.
                set_pre t.addr s.tail g >>= λ g'. ok (record s { heap = g'; tail = t.addr }))
              e
            ∙ ap (λ r. r >>= λ g'. ok (record s { heap = g'; tail = t.addr })) e',
        record {
          head = inv.head;
          tail = sym (last-append null (c ∷ cs) (t ∷ []));
          linked =
              Linked-join h' null (c ∷ cs) (t ∷ []) null
                (Linked-write h t.addr (some (timer_of t z null)) null (c ∷ cs) t.addr out
                  (relink t.addr))
                (fresh.some_addr, write_self h t.addr (some (timer_of t z null)), tt, tt)
                (Apart-of_Misses t (c ∷ cs) out);
        },
        refl,
      )

  add_timer_later :
      (fuel : ℕ) → c.expire ≤ t.expire → add_timer fuel s t.addr ≡ insert_from fuel s c.addr t.addr
  unfolding add_timer
  add_timer_later fuel le =
      let (some_c, at, dist, l) = inv.linked in
      let x = fresh.some_addr in let y = fresh.there in let z = inv.head in ground arith

  insert_from_last :
      (fuel : ℕ)
      → find_later fuel s.heap c.addr t.expire ≡ ok null
      → insert_from fuel s c.addr t.addr ≡ insert_last s t.addr
  unfolding insert_from
  insert_from_last fuel e =
      ap
        (λ r. r >>= λ n. find_later fuel s.heap c.addr n.expire >>= λ q.
          if q == null then insert_last s t.addr else insert_at s q t.addr)
        (load_lem s.heap t.addr null (timer_of t null null) fresh.some_addr fresh.there)
      ∙ ap (λ r. r >>= λ q. if q == null then insert_last s t.addr else insert_at s q t.addr) e

  -- addTimer behind the last node.
  add_timer_behind :
      (fuel : ℕ)
      → length (c ∷ cs) < fuel
      → AllBefore (c ∷ cs) t.expire
      → (s' : Timers) × (add_timer fuel s t.addr ≡ ok s')
        × IsList s' ((c ∷ cs) ++ t ∷ [])
        × (s'.fired ≡ s.fired)
  add_timer_behind fuel enough (lt, all) =
      let rest = fuel - length (c ∷ cs) - 1 in
      let split : fuel ≡ length (c ∷ cs) + suc rest = omega arith in
      let found =
        ap (λ n. find_later n s.heap c.addr t.expire) split
        ∙ (find_later_lem (suc rest) s.heap null (c ∷ cs) null t.expire inv.linked (lt, all)
            ∙ find_later_end rest s.heap t.expire) in
      let (s', e, list, fired) = insert_last_lem in
      (s', add_timer_later fuel (omega arith) ∙ (insert_from_last fuel found ∙ e), list, fired)

add_timer_empty :
    (fuel : ℕ) (s : Timers) (t : Cell)
    → IsList s []
    → IsNew s t
    → add_timer fuel s t.addr ≡ ok (record s { head = t.addr; tail = t.addr })
unfolding add_timer
add_timer_empty fuel s t inv fresh =
    let x : (t.addr == null) ≡ false = let y = fresh.some_addr in ground arith in
    let z : (s.head == null) ≡ true = let y = inv.head in ground arith in rw (x, z) refl

-- A timer that expires later than all others comes to the end of the list, which stays linked in
-- both directions.
pub add_timer_last :
    (fuel : ℕ) (s : Timers) (t : Cell) (cs : List Cell)
    → IsList s cs
    → IsNew s t
    → Misses t.addr cs
    → length cs < fuel
    → AllBefore cs t.expire
    → (s' : Timers) × (add_timer fuel s t.addr ≡ ok s')
      × IsList s' (cs ++ t ∷ [])
      × (s'.fired ≡ s.fired)
add_timer_last fuel s t [] inv fresh out enough all = (
  record s { head = t.addr; tail = t.addr },
  add_timer_empty fuel s t inv fresh,
  record { head = refl; tail = refl; linked = (fresh.some_addr, fresh.there, tt, tt) },
  refl,
)
add_timer_last fuel s t (c ∷ cs) inv fresh out enough all =
    add_timer_behind s t c cs inv fresh out fuel enough all
