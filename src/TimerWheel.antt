-- ===== src/TimerWheel.antt =====
-- timer/timer_wheel/timer_wheel.cpp and timer_wheel.h: the time wheel. Pointers are numbers, 0 is
-- nullptr; a command faults at nullptr, at a freed node, behind the end of the vector and in a
-- division by 0.
pub mod Unusable
mod Examples
use advanced_programming_in.Base.{
  ℕ, zero, suc, ◌+◌, ◌-◌, ◌/◌, ◌%◌, ltb, ◌==◌, ◌||◌, if◌then◌else◌, Bool, true, false, Option, none,
  some, List, [], ◌∷◌, ◌++◌, length, get_or, set,
}
use advanced_programming_in.TimerList.Nodes.{null, Run, ok, fault, out_of_fuel, ◌>>=◌}

-- Timer
pub record Timer : Type 0 where
  pub round : ℕ
  pub slot : ℕ
  pub next : ℕ
  pub pre : ℕ
  pub client_data : ℕ
  pub call_back : ℕ

abbrev pub Heap : Type 0
Heap = ℕ → Option Timer

abbrev pub store : Heap → ℕ → Option Timer → Heap
store h p c a = if a == p then c else h a

abbrev pub timer_at : Option Timer → Run Timer
timer_at none = fault
timer_at (some t) = ok t

-- *p
abbrev pub load : ℕ → Heap → Run Timer
load p h = if p == null then fault else timer_at (h p)

-- p->_pre = q, p->_next = q, --(p->_round), delete p
abbrev pub set_pre : (p q : ℕ) → Heap → Run Heap
set_pre p q h = load p h >>= λ t. ok (store h p (some (record t { pre = q })))

abbrev pub set_next : (p q : ℕ) → Heap → Run Heap
set_next p q h = load p h >>= λ t. ok (store h p (some (record t { next = q })))

abbrev pub free : ℕ → Heap → Run Heap
free p h = load p h >>= λ t. ok (store h p none)

-- TimerWheel, its heap, and the data that call backs have been given.
pub record Wheel : Type 0 where
  pub n : ℕ
  pub cur : ℕ
  pub wheel : List ℕ
  pub si : ℕ
  pub heap : Heap
  pub fired : List ℕ

-- wheel[i], and wheel[i] = p
abbrev pub slot_at : Wheel → ℕ → Run ℕ
slot_at w i = if ltb i (length w.wheel) then ok (get_or w.wheel i null) else fault

abbrev pub set_slot : Wheel → (i p : ℕ) → Run Wheel
set_slot w i p = if ltb i (length w.wheel) then ok (record w { wheel = set w.wheel i p }) else fault

-- The loop of the constructors, on a vector that has no entries yet.
pub clear_slots : (rounds i : ℕ) → Wheel → Run Wheel
clear_slots zero i w = ok w
clear_slots (suc k) i w = set_slot w i null >>= λ w'. clear_slots k (i + 1) w'

-- TimerWheel(n, si)
pub construct : (n si : ℕ) → Heap → Run Wheel
construct n si h =
    clear_slots n 0 (record { n = n; cur = 0; wheel = []; si = si; heap = h; fired = [] })

-- The rounds and the slot that addTimer computes.
pub ticks : (si timeout : ℕ) → ℕ
ticks si timeout = if ltb timeout si then 0 else timeout / si

pub place : Wheel → (timeout : ℕ) → ℕ × ℕ
place w timeout =
    let t = ticks w.si timeout in
    let round = t / w.n in
    (round, if ltb round 1 then w.cur + (w.cur + t) % w.n else w.cur + t % w.n)

-- The new timer `p` at the front of its slot.
pub push_front : Wheel → (slot p : ℕ) → Run Wheel
push_front w slot p = slot_at w slot >>= λ first.
    if first == null
    then set_slot w slot p
    else (set_pre first p w.heap >>= λ h.
        set_next p first h >>= λ h'. set_slot (record w { heap = h' }) slot p)

-- addTimer; a timeout of `none` is a negative one, and `p` is the address that new gives.
pub add_timer : Wheel → (timeout : Option ℕ) → (p : ℕ) → Run Wheel
add_timer w none p = ok w
add_timer w (some timeout) p =
    let (round, slot) = place w timeout in
    if (w.si == 0) || (w.n == 0)
    then fault
    else push_front
        (record w {
          heap = store w.heap p (
              some (record {
                round = round;
                slot = slot;
                next = null;
                pre = null;
                client_data = null;
                call_back = null;
              }));
        })
        slot p

-- The branches of deleteTimer, at the node `t`.
pub delete_front : Wheel → Timer → Run Wheel
delete_front w t = set_slot w t.slot t.next >>= λ w'.
    set_pre t.next null w'.heap >>= λ h. ok (record w' { heap = h })

pub delete_behind : Wheel → Timer → Run Wheel
delete_behind w t = set_next t.pre t.next w.heap >>= λ h.
    if t.next == null
    then ok (record w { heap = h })
    else (set_pre t.next t.pre h >>= λ h'. ok (record w { heap = h' }))

-- deleteTimer
pub delete_timer : Wheel → (p : ℕ) → Run Wheel
delete_timer w p =
    if p == null
    then ok w
    else (load p w.heap >>= λ t.
        (if t.pre == null then delete_front w t else delete_behind w t) >>= λ w'.
        free p w'.heap >>= λ h. ok (record w' { heap = h }))

-- next->call_back(next->clientData)
pub call_timer : Wheel → Timer → Run Wheel
call_timer w t =
    if t.call_back == null then fault else ok (record w { fired = w.fired ++ t.client_data ∷ [] })

-- The loop of tick from the node `p` on.
pub tick_from : (fuel : ℕ) → Wheel → (p : ℕ) → Run Wheel
tick_from zero w p = out_of_fuel
tick_from (suc fuel) w p =
    if p == null
    then ok w
    else (load p w.heap >>= λ t.
        if ltb 0 t.round
        then tick_from fuel
            (record w { heap = store w.heap p (some (record t { round = t.round - 1 })) }) t.next
        else (call_timer w t >>= λ w'. delete_timer w' p >>= λ w''. tick_from fuel w'' t.next))

-- tick
pub tick : (fuel : ℕ) → Wheel → Run Wheel
tick fuel w = slot_at w w.cur >>= λ p. tick_from fuel w p
