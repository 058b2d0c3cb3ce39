-- ===== src/NamedLock/Names.antt =====
-- process/semaphore/sem_init/slock.c: among more names than there are in use, one is free.
use advanced_programming_in.Base.{
  ℕ, zero, suc, ◌+◌, ◌<◌, ◌≤◌, ◌≡◌, ◌≢◌, sym, ◌∙◌, ◌⊎◌, inl, inr, Bool-cases, List, [], ◌∷◌, ◌==◌,
  if◌then◌else◌, arith, length,
}

abbrev pub In : ℕ → List ℕ → Type 0
In a [] = ⊥
In a (b ∷ bs) = (a ≡ b) ⊎ In a bs

-- A list without the first `a`.
abbrev without : ℕ → List ℕ → List ℕ
without a [] = []
without a (b ∷ bs) = let rest = without a bs in if a == b then bs else b ∷ rest

length-without : (a : ℕ) (bs : List ℕ) → In a bs → length (without a bs) + 1 ≡ length bs
length-without a [] h = absurd h
length-without a (b ∷ bs) h = elim (Bool-cases (a == b)) [
  | inl e ↦ rw e (omega arith)
  | inr e ↦
      let apart : a ≢ b = ground arith in
      elim h [
        | inl q ↦ absurd (apart q)
        | inr q ↦ let x = length-without a bs q in rw e (omega (arith, x))
      ]
]

In-without : (a c : ℕ) (bs : List ℕ) → c ≢ a → In c bs → In c (without a bs)
In-without a c [] apart h = h
In-without a c (b ∷ bs) apart h = elim (Bool-cases (a == b)) [
  | inl e ↦
      let same : a ≡ b = ground arith in
      elim h [ inl q ↦ absurd (apart (q ∙ sym same)) | inr q ↦ rw e q ]
  | inr e ↦ rw e (elim h [ inl q ↦ inl q | inr q ↦ inr (In-without a c bs apart q) ])
]

-- Different names of which each is in a list are no more than the list has entries.
pub names_fit :
    (k : ℕ) (f : ℕ → ℕ) (used : List ℕ)
    → ((i j : ℕ) → f i ≡ f j → i ≡ j)
    → ((j : ℕ) → j < k → In (f j) used)
    → k ≤ length used
names_fit zero f used distinct all = omega arith
names_fit (suc k) f used distinct all =
    let first = all 0 (omega arith) in
    let rest =
      names_fit k (λ j. f (suc j)) (without (f 0) used)
        (λ i j e. let x = distinct (suc i) (suc j) e in omega (arith, x))
        (λ j lt.
          In-without (f 0) (f (suc j)) used
            (λ e. let x = distinct (suc j) 0 e in absurd (omega (arith, x)))
            (all (suc j) (omega arith))) in
    let x = length-without (f 0) used first in omega (arith, x, rest)
