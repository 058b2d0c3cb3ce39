-- ===== src/TimerList.antt =====
-- timer/timer_list/timer_list.cpp and timer_list.h: the doubly linked list of timers on a heap.
-- Pointers are numbers, 0 is nullptr; a timer's call back is known by its user data.
pub mod Nodes
pub mod Segment
pub mod Insert
pub mod Cycle
pub mod Delete
pub mod Tick
pub mod Destroy
mod Examples
use advanced_programming_in.Base.{
  true, false, ℕ, zero, suc, ltb, leb, ◌==◌, ◌&&◌, ◌||◌, if◌then◌else◌, Bool, List, [], ◌∷◌, ◌++◌,
}
use advanced_programming_in.TimerList.Nodes.{
  null, Timer, Heap, Run, ok, fault, out_of_fuel, ◌>>=◌, load, set_pre, set_next, free,
}

-- TimerList, the heap, and the user data of the call backs made so far.
pub record Timers : Type 0 where
  pub head : ℕ
  pub tail : ℕ
  pub heap : Heap
  pub fired : List ℕ

-- The loop of addTimer(head, timer): the first node from `p` on that does not expire before
-- `expire`, or nullptr.
pub find_later : (fuel : ℕ) → Heap → (p expire : ℕ) → Run ℕ
find_later zero h p expire = out_of_fuel
find_later (suc fuel) h p expire =
    let rest = load p h >>= λ n. find_later fuel h n.next expire in
    if p == null then ok null else load p h >>= λ n. if leb expire n.expire then ok p else rest

-- addTimer(head, timer) behind its loop.
pub insert_last : Timers → (timer : ℕ) → Run Timers
insert_last s t = do
  h ← set_next s.tail t s.heap
  h' ← set_pre t s.tail h
  ok (record s { heap = h'; tail = t })

pub insert_at : Timers → (tmp timer : ℕ) → Run Timers
insert_at s p t = do
  h ← set_next t p s.heap
  h' ← set_pre p t h
  n ← load t h'
  h'' ← set_pre t n.next h'
  h''' ← set_next n.next t h''
  ok (record s { heap = h''' })

-- addTimer(head, timer)
pub insert_from : (fuel : ℕ) → Timers → (head timer : ℕ) → Run Timers
insert_from fuel s p t = do
  n ← load t s.heap
  q ← find_later fuel s.heap p n.expire
  if q == null then insert_last s t else insert_at s q t

-- The branch of addTimer for a timer that expires before the head.
pub insert_first : Timers → (timer : ℕ) → Run Timers
insert_first s t = do
  h ← set_next t s.head s.heap
  h' ← set_pre t null h
  ok (record s { heap = h'; head = t })

-- addTimer(timer)
unfoldable pub add_timer : (fuel : ℕ) → Timers → (timer : ℕ) → Run Timers
add_timer fuel s t =
    if t == null then ok s else if s.head == null then ok (record s { head = t; tail = t }) else do
      n ← load t s.heap
      m ← load s.head s.heap
      if ltb n.expire m.expire then insert_first s t else insert_from fuel s s.head t

-- The branches of deleteTimer.
pub delete_only : Timers → (timer : ℕ) → Run Timers
delete_only s t = do h ← free t s.heap; ok (record s { heap = h; head = null; tail = null })

pub delete_head : Timers → (timer : ℕ) → Run Timers
delete_head s t = do
  n ← load t s.heap
  h ← set_pre n.next null s.heap
  h' ← free t h
  ok (record s { heap = h'; head = n.next })

pub delete_tail : Timers → (timer : ℕ) → Run Timers
delete_tail s t = do
  n ← load s.tail s.heap
  h ← set_next n.pre null s.heap
  h' ← free t h
  ok (record s { heap = h'; tail = n.pre })

-- timer->_next->_pre = timer->_pre; timer->_pre->_next = timer->_next;
pub unlink : (timer : ℕ) → Heap → Run Heap
unlink t h = do
  n ← load t h
  h' ← set_pre n.next n.pre h
  n' ← load t h'
  set_next n'.pre n'.next h'

pub delete_inner : Timers → (timer : ℕ) → Run Timers
delete_inner s t = do h ← unlink t s.heap; h' ← free t h; ok (record s { heap = h' })

-- deleteTimer
pub delete_timer : Timers → (timer : ℕ) → Run Timers
delete_timer s t =
    if t == null
    then ok s
    else if (s.head == t) && (t == s.tail)
    then delete_only s t
    else if s.head == t
    then delete_head s t
    else if s.tail == t
    then delete_tail s t
    else delete_inner s t

-- The branches of adjust that take the timer out and insert it again.
pub move_head : (fuel : ℕ) → Timers → (timer : ℕ) → Run Timers
move_head fuel s t = do
  m ← load s.head s.heap
  h ← set_pre m.next null s.heap
  add_timer fuel (record s { head = m.next; heap = h }) t

pub move_inner : (fuel : ℕ) → Timers → (timer : ℕ) → Run Timers
move_inner fuel s t = do
  h ← unlink t s.heap
  n ← load t h
  insert_from fuel (record s { heap = h }) n.next t

-- adjust behind the test of the next node, which is `n.next`.
pub adjust_before : (fuel : ℕ) → Timers → (timer : ℕ) → Timer → Run Timers
adjust_before fuel s t n = load n.next s.heap >>= λ m.
    if ltb n.expire m.expire
    then ok s
    else if s.head == t
    then move_head fuel s t
    else move_inner fuel s t

-- adjust
pub adjust : (fuel : ℕ) → Timers → (timer : ℕ) → Run Timers
adjust fuel s t =
    if t == null
    then ok s
    else load t s.heap >>= λ n. if n.next == null then ok s else adjust_before fuel s t n

-- The body of tick's loop at the node `cur`, at the time `now`; `again` is the rest of the loop.
pub tick_at : (again : Timers → Run Timers) → Timers → (cur now : ℕ) → Timer → Run Timers
tick_at again s cur now n =
    if ltb now n.expire
    then ok s
    else (delete_timer (record s { fired = s.fired ++ n.user_data ∷ [] }) cur >>= again)

-- The loop of tick from the node `cur` on.
pub tick_from : (fuel : ℕ) → Timers → (cur now : ℕ) → Run Timers
tick_from zero s cur now = out_of_fuel
tick_from (suc fuel) s cur now =
    if cur == null
    then ok s
    else (load cur s.heap >>= λ n. tick_at (λ s'. tick_from fuel s' n.next now) s cur now n)

-- tick
pub tick : (fuel : ℕ) → Timers → (now : ℕ) → Run Timers
tick fuel s now = tick_from fuel s s.head now

-- The destructor, with the loop over the nodes.
pub destroy : (fuel : ℕ) → Timers → Run Timers
destroy zero s = out_of_fuel
destroy (suc fuel) s =
    if s.head == null
    then ok s
    else (load s.head s.heap >>= λ n.
        free s.head s.heap >>= λ h. destroy fuel (record s { head = n.next; heap = h }))
