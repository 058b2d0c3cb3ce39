-- ===== src/Base/Drops.antt =====
-- The two parts of a list, before and behind an index.
use Prim.Native.Nat.{ℕ, zero, suc, ◌+◌, ◌-◌, ◌≤◌}
use mathlib.Core.Path.{◌≡◌, refl, ap, sym, ◌∙◌}
use mathlib.Core.List.{List, [], ◌∷◌, ◌++◌, map}
use native.Mathlib.Omega.{arith}
use advanced_programming_in.Base.Lists.{length, set, take, drop}

module _ {ℓ} {A : Type ℓ} where
  pub take-drop : (n : ℕ) (xs : List A) → take n xs ++ drop n xs ≡ xs
  take-drop zero xs = refl
  take-drop (suc n) [] = refl
  take-drop (suc n) (x ∷ xs) = ap (λ r. x ∷ r) (take-drop n xs)

  pub nil_of_length : (xs : List A) → length xs ≡ 0 → xs ≡ []
  nil_of_length [] e = refl
  nil_of_length (x ∷ xs) e = absurd (omega (arith, e))

  pub length-drop : (n : ℕ) (xs : List A) → length (drop n xs) ≡ length xs - n
  length-drop zero xs = omega arith
  length-drop (suc n) [] = omega arith
  length-drop (suc n) (x ∷ xs) = omega (arith, length-drop n xs)

  pub drop-append : (xs ys : List A) → drop (length xs) (xs ++ ys) ≡ ys
  drop-append [] ys = refl
  drop-append (x ∷ xs) ys = drop-append xs ys

  pub length-take : (xs : List A) (n : ℕ) → n ≤ length xs → length (take n xs) ≡ n
  length-take xs zero h = refl
  length-take [] (suc n) h = absurd (omega (arith, h))
  length-take (x ∷ xs) (suc n) h = ap suc (length-take xs n (omega (arith, h)))

  take-nil : (n : ℕ) → take {A = A} n [] ≡ []
  take-nil zero = refl
  take-nil (suc n) = refl

  -- The first cells can grow by the first of those that follow.
  pub split_at : (n m : ℕ) (xs : List A) → take n xs ++ take m (drop n xs) ≡ take (n + m) xs
  split_at zero m xs = ap (λ i. take i xs) (omega arith)
  split_at (suc n) m [] = take-nil m ∙ sym (take-nil (suc n + m))
  split_at (suc n) m (x ∷ xs) =
      let e : suc (n + m) ≡ suc n + m = omega arith in
      ap (λ r. x ∷ r) (split_at n m xs) ∙ ap (λ i. take i (x ∷ xs)) e

  pub take-beyond : (n : ℕ) (xs ys : List A) → n ≤ length xs → take n (xs ++ ys) ≡ take n xs
  take-beyond zero xs ys h = refl
  take-beyond (suc n) [] ys h = absurd (omega (arith, h))
  take-beyond (suc n) (x ∷ xs) ys h = ap (λ r. x ∷ r) (take-beyond n xs ys (omega (arith, h)))

  -- A write behind a first part does not show in it.
  pub take-append : (xs ys : List A) (v : A) → take (length xs) (set (xs ++ ys) (length xs) v) ≡ xs
  take-append [] ys v = refl
  take-append (x ∷ xs) ys v = ap (λ t. x ∷ t) (take-append xs ys v)

module _ {ℓ κ} {A : Type ℓ} {B : Type κ} (f : A → B) where
  pub map-append : (xs ys : List A) → map f (xs ++ ys) ≡ map f xs ++ map f ys
  map-append [] ys = refl
  map-append (x ∷ xs) ys = ap (λ r. f x ∷ r) (map-append xs ys)

  pub length-map : (xs : List A) → length (map f xs) ≡ length xs
  length-map [] = refl
  length-map (x ∷ xs) = ap suc (length-map xs)
