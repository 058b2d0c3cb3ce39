-- ===== src/Ring.antt =====
-- Circular arrays, as the two thread pools use them: an array of `m` cells, a front index, and `n`
-- entries from there on, continued at cell 0 behind the last cell.
use advanced_programming_in.Base.{
  ℕ, zero, suc, ◌+◌, ◌-◌, ◌%◌, ◌≤◌, ◌<◌, ◌≡◌, refl, ap, ◌∙◌, ◌⊎◌, inl, inr, List, [], ◌∷◌, ◌++◌,
  arith, length, get_or, set, get_or-set_self, get_or-set_ne,
}
use mathlib.Core.Path.{ap₂}
use native.Mathlib.Decide.{dec_lt}
use native.Mathlib.Numerals.{add-one}
use native.Mathlib.Nat.{mod-eq_of_lt, mod_self}

-- The cell after `i`, as the code computes it.
abbrev pub next_index : ℕ → ℕ → ℕ
next_index m i = (i + 1) % m

pub next_index_cases :
    (m i : ℕ)
    → i < m
    → ((suc i ≡ m) × (next_index m i ≡ 0)) ⊎ ((suc i < m) × (next_index m i ≡ suc i))
next_index_cases m i h = elim (dec_lt (suc i) m) [
  | yes p ↦ inr (p, mod-eq_of_lt (omega arith) ∙ omega arith)
  | no q ↦ let e : m ≡ i + 1 = omega arith in inl (omega arith, rw e (mod_self (i + 1)))
]

-- `r` is the cell that follows `n` entries from cell `f` on.
abbrev pub Follows : (m f n r : ℕ) → Type 0
Follows m f n r = (r < m) × ((f + n ≡ r) ⊎ (f + n ≡ r + m))

module _ {ℓ} {A : Type ℓ} (d : A) where
  -- The `n` entries from cell `f` on, in order.
  unfoldable pub window : List A → (m f n : ℕ) → List A
  window xs m f zero = []
  window xs m f (suc n) = get_or xs f d ∷ window xs m (next_index m f) n

  pub window-zero : (xs : List A) (m f : ℕ) → window xs m f 0 ≡ []
  unfolding window
  window-zero xs m f = refl

  pub length-window : (xs : List A) (m f n : ℕ) → length (window xs m f n) ≡ n
  unfolding window
  length-window xs m f zero = refl
  length-window xs m f (suc n) = ap suc (length-window xs m (next_index m f) n)

  -- A write to the cell behind the entries leaves them as they are.
  window-set :
      (xs : List A) (m f n r : ℕ) (v : A)
      → f < m
      → n < m
      → Follows m f n r
      → window (set xs r v) m f n ≡ window xs m f n
  unfolding window
  window-set xs m f zero r v hf hn h = refl
  window-set xs m f (suc n) r v hf hn h = ap₂ ◌∷◌ (get_or-set_ne xs r f v d (omega arith)) (
      window-set xs m (next_index m f) n r v (omega (arith, next_index_cases m f hf)) (omega arith)
        (omega (arith, next_index_cases m f hf)))

  -- One more entry is the one in the cell that follows.
  window-suc :
      (xs : List A) (m f n r : ℕ)
      → f < m
      → n < m
      → Follows m f n r
      → window xs m f (suc n) ≡ window xs m f n ++ get_or xs r d ∷ []
  unfolding window
  window-suc xs m f zero r hf hn h = let e : r ≡ f = omega arith in rw e refl
  window-suc xs m f (suc n) r hf hn h =
      ap (λ t. get_or xs f d ∷ t)
        (window-suc xs m (next_index m f) n r (omega (arith, next_index_cases m f hf)) (omega arith)
          (omega (arith, next_index_cases m f hf)))

  -- A write behind the entries, counted in, appends the value.
  pub window-push :
      (xs : List A) (m f n r : ℕ) (v : A)
      → length xs ≡ m
      → f < m
      → n < m
      → Follows m f n r
      → window (set xs r v) m f (n + 1) ≡ window xs m f n ++ v ∷ []
  window-push xs m f n r v len hf hn h = rw add-one (
      window-suc (set xs r v) m f n r hf hn h
      ∙ rw (window-set xs m f n r v hf hn h, get_or-set_self xs r v d (omega arith)) refl)

  -- The first entry, and the window without it.
  pub window-pop :
      (xs : List A) (m f n : ℕ)
      → 0 < n
      → window xs m f n ≡ get_or xs f d ∷ window xs m (next_index m f) (n - 1)
  unfolding window
  window-pop xs m f zero h = absurd (omega arith)
  window-pop xs m f (suc n) h = let e : suc n - 1 ≡ n = omega arith in rw e refl

pub Follows-push :
    (m f n r : ℕ) → f < m → n < m → Follows m f n r → Follows m f (n + 1) (next_index m r)
Follows-push m f n r hf hn h = omega (arith, next_index_cases m r h.0)

pub Follows-pop :
    (m f n r : ℕ)
    → f < m
    → 0 < n
    → n ≤ m
    → Follows m f n r
    → (next_index m f < m) × Follows m (next_index m f) (n - 1) r
Follows-pop m f n r hf hn hm h = omega (arith, next_index_cases m f hf)
