-- ===== src/TimerList/Nodes.antt =====
-- The nodes of timer/timer_list/timer_list.h at addresses, and commands that read and write them. A
-- command faults at nullptr and at an address that holds no node.
use advanced_programming_in.Base.{ℕ, Option, none, some, ◌==◌, if◌then◌else◌}

abbrev pub null : ℕ
null = 0

-- MyTimer
pub record Timer : Type 0 where
  pub expire : ℕ
  pub user_data : ℕ
  pub pre : ℕ
  pub next : ℕ

abbrev pub Heap : Type 0
Heap = ℕ → Option Timer

abbrev pub write : Heap → ℕ → Option Timer → Heap
write h p c a = if a == p then c else h a

pub data Run {ℓ} (A : Type ℓ) : Type ℓ where
  ok : A → Run A
  fault : Run A
  out_of_fuel : Run A

infixl 5 ◌>>=◌
abbrev pub ◌>>=◌ {ℓ κ} : {A : Type ℓ} {B : Type κ} → Run A → (A → Run B) → Run B
ok a >>= f = f a
fault >>= f = fault
out_of_fuel >>= f = out_of_fuel

abbrev pub node : Option Timer → Run Timer
node none = fault
node (some n) = ok n

-- *p
abbrev pub load : ℕ → Heap → Run Timer
load p h = if p == null then fault else node (h p)

-- p->_pre = q, p->_next = q
abbrev pub set_pre : (p q : ℕ) → Heap → Run Heap
set_pre p q h = load p h >>= λ n. ok (write h p (some (record n { pre = q })))

abbrev pub set_next : (p q : ℕ) → Heap → Run Heap
set_next p q h = load p h >>= λ n. ok (write h p (some (record n { next = q })))

-- delete p
abbrev pub free : ℕ → Heap → Run Heap
free p h = load p h >>= λ n. ok (write h p none)
