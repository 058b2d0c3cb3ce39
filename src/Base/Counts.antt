-- ===== src/Base/Counts.antt =====
-- Weighted counts over a list, such as the number of threads in a given state.
use Prim.Native.Nat.{ℕ, zero, suc, ◌+◌, ◌*◌, ◌≤◌, ◌<◌}
use mathlib.Core.Path.{◌≡◌, refl}
use mathlib.Core.List.{List, [], ◌∷◌, ◌++◌}
use mathlib.Core.Option.{some}
use native.Mathlib.Omega.{arith}
use native.Mathlib.Decide.{dec_lt}
use advanced_programming_in.Base.Lists.{get_elem?, set, replicate}

module _ {ℓ} {A : Type ℓ} (w : A → ℕ) where
  abbrev pub total : List A → ℕ
  total [] = 0
  total (x ∷ xs) = w x + total xs

  -- Replacing an element moves the count by the difference of the two weights.
  pub total-set :
      (xs : List A) (i : ℕ) (a b : A)
      → get_elem? xs i ≡ some a
      → total (set xs i b) + w a ≡ total xs + w b
  total-set [] i a b h = cc
  total-set (x ∷ xs) zero a b h = ground arith
  total-set (x ∷ xs) (suc i) a b h = omega (arith, total-set xs i a b h)

  pub total-append : (xs ys : List A) → total (xs ++ ys) ≡ total xs + total ys
  total-append [] ys = omega arith
  total-append (x ∷ xs) ys = omega (arith, total-append xs ys)

  pub total-replicate : (n : ℕ) (a : A) → total (replicate n a) ≡ n * w a
  total-replicate zero a = omega arith
  total-replicate (suc n) a = grind (arith, total-replicate n a)

  pub weight-le-total : (xs : List A) (i : ℕ) (a : A) → get_elem? xs i ≡ some a → w a ≤ total xs
  weight-le-total [] i a h = cc
  weight-le-total (x ∷ xs) zero a h = ground arith
  weight-le-total (x ∷ xs) (suc i) a h = omega (arith, weight-le-total xs i a h)

  -- A positive count comes from an entry with a positive weight.
  pub heavy_entry :
      (xs : List A) → 0 < total xs → (i : ℕ) × (a : A) × (get_elem? xs i ≡ some a) × (0 < w a)
  heavy_entry [] h = absurd (omega (arith, h))
  heavy_entry (x ∷ xs) h = elim (dec_lt 0 (w x)) [
    | yes here ↦ (0, x, refl, here)
    | no light ↦ let (i, a, at, heavy) = heavy_entry xs (omega arith) in (suc i, a, at, heavy)
  ]
