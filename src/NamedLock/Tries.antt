-- ===== src/NamedLock/Tries.antt =====
-- process/semaphore/sem_init/slock.c: the end of the loop of s_alloc.
use advanced_programming_in.Base.{
  ℕ, zero, suc, ◌+◌, ◌<◌, ◌≤◌, ◌≡◌, ◌≢◌, refl, ap, subst, sym, ◌∙◌, ◌⊎◌, inl, inr, true, List,
  arith, length,
}
use advanced_programming_in.NamedLock.{
  Opened, opened, exists, failed, Alloc, settle, after_open, alloc_loop, s_alloc,
}
use advanced_programming_in.NamedLock.Names.{In, names_fit}

module _ (name : (pid cnt : ℕ) → ℕ) (sem_open : ℕ → Opened) (pid : ℕ) where
  -- Whether a name is in use.
  exists_or : (a : Opened) → (a ≡ exists) ⊎ (a ≢ exists)
  exists_or (opened semp) = inr (λ e. ground arith)
  exists_or exists = inl refl
  exists_or failed = inr (λ e. ground arith)

  -- The `k`th try, from `cnt` on, is the first that does not answer EEXIST, and it settles s_alloc.
  abbrev pub Settles : (cnt k : ℕ) → Alloc → Type 0
  Settles cnt k r =
      ((j : ℕ) → j < k → sem_open (name pid (cnt + j)) ≡ exists)
      × (sem_open (name pid (cnt + k)) ≢ exists)
      × (r ≡ settle (name pid (cnt + k)) (sem_open (name pid (cnt + k))) (cnt + k + 1))

  loop_on :
      (fuel cnt : ℕ)
      → sem_open (name pid cnt) ≡ exists
      → alloc_loop name sem_open (suc fuel) pid cnt ≡ alloc_loop name sem_open fuel pid (cnt + 1)
  unfolding alloc_loop after_open
  loop_on fuel cnt e =
      ap (after_open (alloc_loop name sem_open fuel pid (cnt + 1)) (name pid cnt) (cnt + 1)) e

  settle_loop :
      (again : Alloc) (n cnt : ℕ) (a : Opened)
      → a ≢ exists
      → after_open again n cnt a ≡ settle n a cnt
  unfolding after_open
  settle_loop again n cnt (opened semp) other = refl
  settle_loop again n cnt exists other = absurd (other refl)
  settle_loop again n cnt failed other = refl

  loop_ends :
      (fuel cnt : ℕ)
      → sem_open (name pid cnt) ≢ exists
      → alloc_loop name sem_open (suc fuel) pid cnt
        ≡ settle (name pid cnt) (sem_open (name pid cnt)) (cnt + 1)
  unfolding alloc_loop
  loop_ends fuel cnt other =
      settle_loop (alloc_loop name sem_open fuel pid (cnt + 1)) (name pid cnt) (cnt + 1)
        (sem_open (name pid cnt)) other

  at_each :
      (j m cnt : ℕ)
      → sem_open (name pid cnt) ≡ exists
      → ((i : ℕ) → i < m → sem_open (name pid (cnt + 1 + i)) ≡ exists)
      → j < suc m
      → sem_open (name pid (cnt + j)) ≡ exists
  at_each zero m cnt e all lt =
      let here : cnt + 0 ≡ cnt = omega arith in
      subst (λ n. sem_open (name pid n) ≡ exists) (sym here) e
  at_each (suc j) m cnt e all lt =
      let there : cnt + suc j ≡ cnt + 1 + j = omega arith in
      subst (λ n. sem_open (name pid n) ≡ exists) (sym there) (all j (omega (arith, lt)))

  -- The first `fuel` names are all in use, or one of them settles the loop.
  loop_lem :
      (fuel cnt : ℕ)
      → ((j : ℕ) → j < fuel → sem_open (name pid (cnt + j)) ≡ exists)
        ⊎ ((k : ℕ) × (k < fuel) × Settles cnt k (alloc_loop name sem_open fuel pid cnt))
  loop_lem zero cnt = inl (λ j lt. absurd (omega arith))
  loop_lem (suc fuel) cnt =
      let here : cnt + 0 ≡ cnt = omega arith in
      let there : (j : ℕ) → cnt + suc j ≡ cnt + 1 + j = λ j. omega arith in
      elim (exists_or (sem_open (name pid cnt))) [
        | inl e ↦
            let before : (j : ℕ) (m : ℕ)
                → ((i : ℕ) → i < m → sem_open (name pid (cnt + 1 + i)) ≡ exists)
                → j < suc m
                → sem_open (name pid (cnt + j)) ≡ exists =
              λ j m all lt. at_each j m cnt e all lt in
            elim (loop_lem fuel (cnt + 1)) [
              | inl all ↦ inl (λ j lt. before j fuel all lt)
              | inr (k, lt, (all, other, eq)) ↦
                  let settled : Settles cnt (suc k) (alloc_loop name sem_open (suc fuel) pid cnt) =
                    (
                      (λ j low. before j k all low),
                      subst (λ m. sem_open (name pid m) ≢ exists) (sym (there k)) other,
                      loop_on fuel cnt e
                          ∙ (eq
                              ∙ ap (λ m. settle (name pid m) (sem_open (name pid m)) (m + 1))
                                  (sym (there k))),
                    ) in
                  inr (suc k, omega (arith, lt), settled)
            ]
        | inr other ↦
            let settled : Settles cnt 0 (alloc_loop name sem_open (suc fuel) pid cnt) = (
              (λ j lt. absurd (omega (arith, lt))),
              subst (λ m. sem_open (name pid m) ≢ exists) (sym here) other,
              loop_ends fuel cnt other
                  ∙ ap (λ m. settle (name pid m) (sem_open (name pid m)) (m + 1)) (sym here),
            ) in
            inr (0, omega arith, settled)
      ]

  -- When malloc gives memory, at most the names in a list are in use, and snprintf writes another name
  -- for each count, s_alloc ends within as many tries as the list has entries, and one: the first name that is not
  -- in use gives the lock, or the error of sem_open gives NULL.
  pub s_alloc-Settles :
      (used : List ℕ) (fuel cnt : ℕ)
      → ((i j : ℕ) → name pid i ≡ name pid j → i ≡ j)
      → ((n : ℕ) → sem_open n ≡ exists → In n used)
      → length used < fuel
      → (k : ℕ) × (k ≤ length used) × Settles cnt k (s_alloc name sem_open fuel true pid cnt)
  unfolding s_alloc
  s_alloc-Settles used fuel cnt distinct in_use enough =
      let fit : (m : ℕ)
          → ((j : ℕ) → j < m → sem_open (name pid (cnt + j)) ≡ exists)
          → m ≤ length used =
        λ m all.
          names_fit m (λ j. name pid (cnt + j)) used
            (λ i j e. let x = distinct (cnt + i) (cnt + j) e in omega (arith, x))
            (λ j lt. in_use (name pid (cnt + j)) (all j lt)) in
      elim (loop_lem fuel cnt) [
        | inl all ↦ let x = fit fuel all in absurd (omega (arith, x, enough))
        | inr (k, lt, (all, other, eq)) ↦ (k, fit k all, (all, other, eq))
      ]
