-- ===== src/Base/Takes.antt =====
-- The first cells of a list, where a write changes one of them.
use Prim.Native.Nat.{ℕ, zero, suc, ◌+◌, ◌-◌, ◌≤◌, ◌<◌}
use mathlib.Core.Path.{◌≡◌, refl, ap}
use mathlib.Core.List.{List, [], ◌∷◌, ◌++◌}
use mathlib.Core.Option.{some}
use native.Mathlib.Omega.{arith}
use advanced_programming_in.Base.Lists.{length, get_elem?, get_or, set, take}

module _ {ℓ} {A : Type ℓ} where
  -- A write behind the first `n` cells does not show in them.
  pub take-set-beyond : (xs : List A) (n i : ℕ) (v : A) → n ≤ i → take n (set xs i v) ≡ take n xs
  take-set-beyond [] n i v h = refl
  take-set-beyond (x ∷ xs) zero i v h = refl
  take-set-beyond (x ∷ xs) (suc n) zero v h = absurd (omega arith)
  take-set-beyond (x ∷ xs) (suc n) (suc i) v h =
      ap (λ r. x ∷ r) (take-set-beyond xs n i v (omega arith))

  take-set-suc :
      (xs : List A) (n : ℕ) (v : A)
      → n < length xs
      → take (suc n) (set xs n v) ≡ take n xs ++ v ∷ []
  take-set-suc [] n v h = absurd (omega arith)
  take-set-suc (x ∷ xs) zero v h = refl
  take-set-suc (x ∷ xs) (suc n) v h = ap (λ r. x ∷ r) (take-set-suc xs n v (omega arith))

  -- A write into the next cell appends to them.
  pub take-set-next :
      (xs : List A) (n : ℕ) (v : A)
      → n < length xs
      → take (n + 1) (set xs n v) ≡ take n xs ++ v ∷ []
  take-set-next xs n v h = let e : n + 1 ≡ suc n = omega arith in rw e (take-set-suc xs n v h)

  take-suc :
      (xs : List A) (n : ℕ) (d : A)
      → n < length xs
      → take (suc n) xs ≡ take n xs ++ get_or xs n d ∷ []
  take-suc [] n d h = absurd (omega arith)
  take-suc (x ∷ xs) zero d h = refl
  take-suc (x ∷ xs) (suc n) d h = ap (λ r. x ∷ r) (take-suc xs n d (omega arith))

  -- The first cells end in the last of them.
  pub take-last :
      (xs : List A) (n : ℕ) (d : A)
      → 0 < n
      → n ≤ length xs
      → take n xs ≡ take (n - 1) xs ++ get_or xs (n - 1) d ∷ []
  take-last xs zero d some_cell h = absurd (omega arith)
  take-last xs (suc n) d some_cell h =
      let e : suc n - 1 ≡ n = omega arith in rw e (take-suc xs n d (omega arith))

  -- An index in range holds an element.
  pub get_elem?-get_or :
      (xs : List A) (i : ℕ) (d : A) → i < length xs → get_elem? xs i ≡ some (get_or xs i d)
  get_elem?-get_or [] i d h = absurd (omega arith)
  get_elem?-get_or (x ∷ xs) zero d h = refl
  get_elem?-get_or (x ∷ xs) (suc i) d h = get_elem?-get_or xs i d (omega arith)
