-- ===== src/NamedLock/Examples.antt =====
-- process/semaphore/sem_init/slock.c: runs on small inputs.
use advanced_programming_in.Base.{
  ℕ, ◌+◌, ◌≤◌, ◌≡◌, refl, true, List, [], ◌∷◌, arith, ◌==◌, if◌then◌else◌,
}
use advanced_programming_in.NamedLock.{
  Opened, opened, exists, allocated, settle, after_open, alloc_loop, s_alloc,
}
use advanced_programming_in.NamedLock.Names.{In}
use advanced_programming_in.NamedLock.Tries.{Settles, s_alloc-Settles}

-- The name of a process and a count, the names in use, and the answers.
abbrev name : (pid cnt : ℕ) → ℕ
name pid cnt = 100 + cnt

abbrev used : List ℕ
used = 100 ∷ 101 ∷ []

abbrev answer : ℕ → Opened
answer n = if n == 100 then exists else if n == 101 then exists else opened 7

answer_used : (n : ℕ) → answer n ≡ exists → In n used
answer_used n e = ground arith

third_name : s_alloc name answer 3 true 5 0 ≡ allocated (record { semp = 7; name = 102 }) 3 102
unfolding s_alloc alloc_loop after_open settle
third_name = refl

s_alloc-Settles_example :
    (k : ℕ) × (k ≤ 2) × Settles name answer 5 0 k (s_alloc name answer 3 true 5 0)
s_alloc-Settles_example =
    s_alloc-Settles name answer 5 used 3 0 (λ i j e. omega (arith, e)) answer_used (omega arith)
