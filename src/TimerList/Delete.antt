-- ===== src/TimerList/Delete.antt =====
-- timer/timer_list/timer_list.cpp: deleteTimer on each of its branches.
use advanced_programming_in.Base.{
  ℕ, ◌≡◌, ◌≢◌, refl, ap, sym, ◌∙◌, none, some, List, [], ◌∷◌, ◌++◌, append-nil, arith,
}
use advanced_programming_in.TimerList.{
  Timers, delete_only, delete_head, delete_tail, delete_inner, unlink, delete_timer,
}
use advanced_programming_in.TimerList.Nodes.{null, Run, ok, write, load, set_next, free, ◌>>=◌}
use advanced_programming_in.TimerList.Segment.{
  Cell, first, last, timer_of, Misses, IsList, load_lem, set_pre_lem, set_next_lem, free_lem,
  write_self, write_ne, Linked-write, Apart, Linked-split, Linked-join, last_node, Linked-before,
  last-append, last-ne,
}

-- What deleteTimer comes to.
abbrev pub Deletes : Timers → Cell → List Cell → Run Timers → Type 0
Deletes s t cs r =
    (s' : Timers) × (r ≡ ok s') × IsList s' cs × (s'.heap t.addr ≡ none) × (s'.fired ≡ s.fired)

Misses-of_Apart : (t : Cell) (rs ls : List Cell) → Apart ls (t ∷ rs) → Misses t.addr ls
Misses-of_Apart t rs [] apart = tt
Misses-of_Apart t rs (c ∷ ls) ((other, out), apart) =
    ((λ e. other (sym e)), Misses-of_Apart t rs ls apart)

Apart-tail : (t : Cell) (rs ls : List Cell) → Apart ls (t ∷ rs) → Apart ls rs
Apart-tail t rs [] apart = tt
Apart-tail t rs (c ∷ ls) ((other, out), apart) = (out, Apart-tail t rs ls apart)

Misses-last :
    (before : ℕ) (c : Cell) (cs rs : List Cell)
    → Apart (c ∷ cs) rs
    → Misses (last before (c ∷ cs)) rs
Misses-last before c [] rs (out, apart) = out
Misses-last before c (d ∷ cs) rs (out, apart) = Misses-last c.addr d cs rs apart

module _ (s : Timers) (t : ℕ) (some_t : t ≢ null) where
  dispatch_only : s.head ≡ t → s.tail ≡ t → delete_timer s t ≡ delete_only s t
  unfolding delete_timer
  dispatch_only head tail = ground arith

  dispatch_head : s.head ≡ t → s.tail ≢ t → delete_timer s t ≡ delete_head s t
  unfolding delete_timer
  dispatch_head head tail = ground arith

  dispatch_tail : s.head ≢ t → s.tail ≡ t → delete_timer s t ≡ delete_tail s t
  unfolding delete_timer
  dispatch_tail head tail = ground arith

  dispatch_inner : s.head ≢ t → s.tail ≢ t → delete_timer s t ≡ delete_inner s t
  unfolding delete_timer
  dispatch_inner head tail = ground arith

module _ (s : Timers) (t : Cell) where
  delete_only_lem : IsList s (t ∷ []) → Deletes s t [] (delete_only s t.addr)
  unfolding delete_only
  delete_only_lem inv =
      let (some_t, at, dist, l) = inv.linked in
      let e = free_lem s.heap t.addr null (timer_of t null null) some_t at in
      (
        record s { heap = write s.heap t.addr none; head = null; tail = null },
        rw e refl,
        record { head = refl; tail = refl; linked = tt },
        write_self s.heap t.addr none,
        refl,
      )

  delete_head_lem :
      (d : Cell) (ds : List Cell)
      → IsList s (t ∷ d ∷ ds)
      → Deletes s t (d ∷ ds) (delete_head s t.addr)
  unfolding delete_head
  delete_head_lem d ds inv =
      let (some_t, at, (apart, out), rest) = inv.linked in
      let (some_d, at_d, dist_d, l_d) = rest in
      let h1 = write s.heap d.addr (some (timer_of d null (first ds null))) in
      let e = load_lem s.heap t.addr null (timer_of t null d.addr) some_t at in
      let e1 = set_pre_lem s.heap d.addr null (timer_of d t.addr (first ds null)) some_d at_d in
      let at1 = write_ne s.heap d.addr t.addr (some (timer_of d null (first ds null))) apart ∙ at in
      let e2 = free_lem h1 t.addr null (timer_of t null d.addr) some_t at1 in
      (
        record s { heap = write h1 t.addr none; head = d.addr },
        rw e (rw e1 (rw e2 refl)),
        record {
          head = refl;
          tail = inv.tail;
          linked =
              Linked-write h1 t.addr none null (d ∷ ds) null (apart, out)
                (Linked-before s.heap t.addr null d ds null rest);
        },
        write_self h1 t.addr none,
        refl,
      )

  delete_tail_lem :
      (c : Cell) (cs : List Cell)
      → IsList s ((c ∷ cs) ++ t ∷ [])
      → Deletes s t (c ∷ cs) (delete_tail s t.addr)
  unfolding delete_tail
  delete_tail_lem c cs inv =
      let (left, right, apart) = Linked-split s.heap null (c ∷ cs) (t ∷ []) null inv.linked in
      let (some_t, at, dist, l) = right in
      let out = Misses-of_Apart t [] (c ∷ cs) apart in
      let p = last null (c ∷ cs) in
      let (some_p, (n, at_p, next, relink)) = last_node s.heap null c cs t.addr left in
      let other : t.addr ≢ p = λ q. last-ne t.addr null c cs out (sym q) in
      let h1 = write s.heap p (some (record n { next = null })) in
      let tail = inv.tail ∙ last-append null (c ∷ cs) (t ∷ []) in
      let e =
        ap (λ a. load a s.heap) tail ∙ load_lem s.heap t.addr null (timer_of t p null) some_t at in
      let e1 = set_next_lem s.heap p null n some_p at_p in
      let at1 = write_ne s.heap p t.addr (some (record n { next = null })) other ∙ at in
      let e2 = free_lem h1 t.addr null (timer_of t p null) some_t at1 in
      (
        record s { heap = write h1 t.addr none; tail = p },
        ap
              (λ r. r >>= λ m. set_next m.pre null s.heap >>= λ g.
                free t.addr g >>= λ g'. ok (record s { heap = g'; tail = m.pre }))
              e
            ∙ (ap (λ r. r >>= λ g. free t.addr g >>= λ g'. ok (record s { heap = g'; tail = p })) e1
                ∙ ap (λ r. r >>= λ g'. ok (record s { heap = g'; tail = p })) e2),
        record {
          head = inv.head;
          tail = refl;
          linked = Linked-write h1 t.addr none null (c ∷ cs) null out (relink null);
        },
        write_self h1 t.addr none,
        refl,
      )

  delete_inner_lem :
      (c : Cell) (cs : List Cell) (d : Cell) (ds : List Cell)
      → IsList s ((c ∷ cs) ++ t ∷ d ∷ ds)
      → Deletes s t ((c ∷ cs) ++ d ∷ ds) (delete_inner s t.addr)
  unfolding delete_inner unlink
  delete_inner_lem c cs d ds inv =
      let (left, right, apart) = Linked-split s.heap null (c ∷ cs) (t ∷ d ∷ ds) null inv.linked in
      let (some_t, at, (other, out_r), rest) = right in
      let (some_d, at_d, dist_d, l_d) = rest in
      let out = Misses-of_Apart t (d ∷ ds) (c ∷ cs) apart in
      let apart' = Apart-tail t (d ∷ ds) (c ∷ cs) apart in
      let p = last null (c ∷ cs) in
      let stop = first ds null in
      let h1 = write s.heap d.addr (some (timer_of d p stop)) in
      let left1 =
        Linked-write s.heap d.addr (some (timer_of d p stop)) null (c ∷ cs) t.addr
          (Misses-of_Apart d ds (c ∷ cs) apart') left in
      let right1 = Linked-before s.heap t.addr p d ds null rest in
      let (some_p, (n, at_p, next, relink)) = last_node h1 null c cs t.addr left1 in
      let h2 = write h1 p (some (record n { next = d.addr })) in
      let right2 =
        Linked-write h1 p (some (record n { next = d.addr })) p (d ∷ ds) null
          (Misses-last null c cs (d ∷ ds) apart') right1 in
      let other_p : t.addr ≢ p = λ q. last-ne t.addr null c cs out (sym q) in
      let e = load_lem s.heap t.addr null (timer_of t p d.addr) some_t at in
      let e1 = set_pre_lem s.heap d.addr p (timer_of d t.addr stop) some_d at_d in
      let at1 = write_ne s.heap d.addr t.addr (some (timer_of d p stop)) other ∙ at in
      let e2 = load_lem h1 t.addr null (timer_of t p d.addr) some_t at1 in
      let e3 = set_next_lem h1 p d.addr n some_p at_p in
      let at2 = write_ne h1 p t.addr (some (record n { next = d.addr })) other_p ∙ at1 in
      let e4 = free_lem h2 t.addr null (timer_of t p d.addr) some_t at2 in
      (
        record s { heap = write h2 t.addr none },
        rw e (rw e1 (rw e2 (rw e3 (rw e4 refl)))),
        record {
          head = inv.head;
          tail =
              inv.tail
              ∙ (last-append null (c ∷ cs) (t ∷ d ∷ ds) ∙ sym (last-append null (c ∷ cs) (d ∷ ds)));
          linked =
              Linked-join (write h2 t.addr none) null (c ∷ cs) (d ∷ ds) null
                (Linked-write h2 t.addr none null (c ∷ cs) d.addr out (relink d.addr))
                (Linked-write h2 t.addr none p (d ∷ ds) null (other, out_r) right2) apart';
        },
        write_self h2 t.addr none,
        refl,
      )

  -- deleteTimer for a timer that is anywhere in the list: the list of the other timers, in their
  -- order, stays linked in both directions, with its head and tail, and the timer's node is freed.
  pub delete_timer_lem :
      (ls rs : List Cell) → IsList s (ls ++ t ∷ rs) → Deletes s t (ls ++ rs) (delete_timer s t.addr)
  delete_timer_lem [] [] inv =
      let (some_t, at, dist, l) = inv.linked in
      rw (dispatch_only s t.addr some_t inv.head inv.tail) (delete_only_lem inv)
  delete_timer_lem [] (d ∷ ds) inv =
      let (some_t, at, dist, l) = inv.linked in
      let no_tail = λ (q : s.tail ≡ t.addr). last-ne t.addr t.addr d ds dist (sym inv.tail ∙ q) in
      rw (dispatch_head s t.addr some_t inv.head no_tail) (delete_head_lem d ds inv)
  delete_timer_lem (c ∷ cs) [] inv =
      let (left, right, apart) = Linked-split s.heap null (c ∷ cs) (t ∷ []) null inv.linked in
      let (some_t, at, dist, l) = right in
      let ((first_apart, u), v) = apart in
      let no_head = λ (q : s.head ≡ t.addr). first_apart (sym inv.head ∙ q) in
      let tail = inv.tail ∙ last-append null (c ∷ cs) (t ∷ []) in
      rw (dispatch_tail s t.addr some_t no_head tail)
        (rw (append-nil cs) (delete_tail_lem c cs inv))
  delete_timer_lem (c ∷ cs) (d ∷ ds) inv =
      let (left, right, apart) = Linked-split s.heap null (c ∷ cs) (t ∷ d ∷ ds) null inv.linked in
      let (some_t, at, dist, l) = right in
      let ((first_apart, u), v) = apart in
      let no_head = λ (q : s.head ≡ t.addr). first_apart (sym inv.head ∙ q) in
      let tail = inv.tail ∙ last-append null (c ∷ cs) (t ∷ d ∷ ds) in
      let no_tail = λ (q : s.tail ≡ t.addr). last-ne t.addr t.addr d ds dist (sym tail ∙ q) in
      rw (dispatch_inner s t.addr some_t no_head no_tail) (delete_inner_lem c cs d ds inv)
