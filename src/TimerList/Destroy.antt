-- ===== src/TimerList/Destroy.antt =====
-- timer/timer_list/timer_list.cpp: the destructor.
use advanced_programming_in.Base.{
  ℕ, zero, suc, ◌<◌, ◌≡◌, ◌≢◌, refl, ap, ◌∙◌, true, false, none, some, List, [], ◌∷◌, ◌==◌,
  if◌then◌else◌, arith, length,
}
use advanced_programming_in.TimerList.{Timers, destroy}
use advanced_programming_in.TimerList.Nodes.{null, Timer, Heap, ok, write, load, free, ◌>>=◌}
use advanced_programming_in.TimerList.Segment.{
  Cell, first, timer_of, Misses, Linked, load_lem, free_lem, write_self, write_ne, Linked-write,
}

abbrev pub AllFreed : Heap → List Cell → Type 0
AllFreed h [] = Unit
AllFreed h (c ∷ cs) = (h c.addr ≡ none) × AllFreed h cs

destroy_end : (fuel : ℕ) (s : Timers) → s.head ≡ null → destroy (suc fuel) s ≡ ok s
unfolding destroy
destroy_end fuel s e = let x : (s.head == null) ≡ true = ground arith in rw x refl

destroy_node :
    (fuel : ℕ) (s : Timers) (p : ℕ) (n : Timer)
    → s.head ≡ p
    → p ≢ null
    → s.heap p ≡ some n
    → destroy (suc fuel) s ≡ destroy fuel (record s { head = n.next; heap = write s.heap p none })
unfolding destroy
destroy_node fuel s p n e some_p at =
    let x : (s.head == null) ≡ false = ground arith in
    ap
      (λ b.
        if b
        then ok s
        else (load s.head s.heap >>= λ n.
            free s.head s.heap >>= λ h. destroy fuel (record s { head = n.next; heap = h })))
      x
    ∙ (ap
          (λ q. load q s.heap >>= λ n.
            free q s.heap >>= λ h. destroy fuel (record s { head = n.next; heap = h }))
          e
        ∙ (ap
              (λ r. r >>= λ n.
                free p s.heap >>= λ h. destroy fuel (record s { head = n.next; heap = h }))
              (load_lem s.heap p null n some_p at)
            ∙ ap (λ r. r >>= λ h. destroy fuel (record s { head = n.next; heap = h }))
                (free_lem s.heap p null n some_p at)))

-- The destructor, with as many turns as there are timers and one, frees each node of the list once,
-- and touches no other node.
pub destroy_lem :
    (fuel : ℕ) (s : Timers) (before : ℕ) (cs : List Cell)
    → s.head ≡ first cs null
    → Linked s.heap before cs null
    → length cs < fuel
    → (s' : Timers) × (destroy fuel s ≡ ok s')
      × AllFreed s'.heap cs
      × ((p : ℕ) → Misses p cs → s'.heap p ≡ s.heap p)
destroy_lem zero s before cs head l enough = absurd (omega arith)
destroy_lem (suc fuel) s before [] head l enough = (s, destroy_end fuel s head, tt, λ p out. refl)
destroy_lem (suc fuel) s before (c ∷ cs) head (some_c, at, dist, l) enough =
    let n = timer_of c before (first cs null) in
    let s1 : Timers = record s { head = first cs null; heap = write s.heap c.addr none } in
    let (s2, e, freed, same) =
      destroy_lem fuel s1 c.addr cs refl (Linked-write s.heap c.addr none c.addr cs null dist l)
        (omega arith) in
    (
      s2,
      destroy_node fuel s c.addr n head some_c at ∙ e,
      (same c.addr dist ∙ write_self s.heap c.addr none, freed),
      λ p (apart, out). same p out ∙ write_ne s.heap c.addr p none apart,
    )
