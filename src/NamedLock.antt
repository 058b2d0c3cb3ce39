-- ===== src/NamedLock.antt =====
-- process/semaphore/sem_init/slock.c: a lock on a named semaphore. A name is a number; `name pid cnt`
-- is the one that snprintf writes, and what sem_open answers for a name is an argument.
pub mod Names
pub mod Tries
mod Examples
use advanced_programming_in.Base.{
  ℕ, zero, suc, ◌+◌, ◌-◌, ltb, ◌==◌, if◌then◌else◌, Bool, true, false, Option, none, some, List, [],
  ◌∷◌,
}

-- struct slock
pub record Slock : Type 0 where
  pub semp : ℕ
  pub name : ℕ

-- What sem_open answers: a semaphore, EEXIST, and another error.
pub data Opened : Type 0 where
  opened : (semp : ℕ) → Opened
  exists : Opened
  failed : Opened

-- How s_alloc ends: the lock or NULL, the static cnt, the name that it unlinks, and whether it gives
-- its memory back. `trying` is the loop cut off.
pub data Alloc : Type 0 where
  allocated : Slock → (cnt : ℕ) → (unlinked : ℕ) → Alloc
  refused : (cnt : ℕ) → (freed : Bool) → Alloc
  trying : Alloc

-- The end of s_alloc behind its loop, with the last name and answer.
pub settle : (name : ℕ) → Opened → (cnt : ℕ) → Alloc
settle n (opened semp) cnt = allocated (record { semp = semp; name = n }) cnt n
settle n exists cnt = refused cnt true
settle n failed cnt = refused cnt true

-- The test of the loop; `again` is its next turn.
pub after_open : (again : Alloc) → (name cnt : ℕ) → Opened → Alloc
after_open again n cnt (opened semp) = settle n (opened semp) cnt
after_open again n cnt exists = again
after_open again n cnt failed = settle n failed cnt

module _ (name : (pid cnt : ℕ) → ℕ) (sem_open : ℕ → Opened) where
  -- do ... while((sp->semp == SEM_FAILED) && (errno == EEXIST))
  pub alloc_loop : (fuel pid cnt : ℕ) → Alloc
  alloc_loop zero pid cnt = trying
  alloc_loop (suc fuel) pid cnt =
      let again = alloc_loop fuel pid (cnt + 1) in
      after_open again (name pid cnt) (cnt + 1) (sem_open (name pid cnt))

  -- s_alloc; `memory` tells whether malloc succeeds.
  pub s_alloc : (fuel : ℕ) → (memory : Bool) → (pid cnt : ℕ) → Alloc
  s_alloc fuel memory pid cnt = if memory then alloc_loop fuel pid cnt else refused cnt false

-- The value of the semaphore, 1 when s_alloc opens it. s_lock and s_trylock are sem_wait and
-- sem_trywait, s_unlock is sem_post; `none` is a thread that waits, or EAGAIN.
pub s_lock : (value : ℕ) → Option ℕ
s_lock value = if ltb 0 value then some (value - 1) else none

pub s_trylock : (value : ℕ) → Option ℕ
s_trylock value = if ltb 0 value then some (value - 1) else none

pub s_unlock : (value : ℕ) → ℕ
s_unlock value = value + 1
