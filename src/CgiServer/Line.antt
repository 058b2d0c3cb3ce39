-- ===== src/CgiServer/Line.antt =====
-- process/CGI_server/cgi_server.h: a request's line, described on the list of the bytes received, and
-- the search of the loop.
use advanced_programming_in.Base.{
  ℕ, zero, suc, ◌+◌, ◌-◌, ◌≤◌, ◌<◌, ◌≡◌, refl, ap, sym, ◌∙◌, Bool, true, false, Bool-cases, inl,
  inr, Option, none, some, List, [], ◌∷◌, get_or, length, take, leb, ◌==◌, ◌&&◌, if◌then◌else◌,
  arith,
}
use mathlib.Core.Option
use advanced_programming_in.CgiServer.{ends_line, find_line}

-- The bytes before the first "\r\n", if there is one.
abbrev pub line : List ℕ → Option (List ℕ)
line [] = none
line (x ∷ []) = none
line (x ∷ y ∷ l) =
    let rest = line (y ∷ l) in
    if (x == 13) && (y == 10) then some [] else Option.map (λ r. x ∷ r) rest

pub ends_line-zero : (l : List ℕ) → ends_line l 0 ≡ false
unfolding ends_line
ends_line-zero l = refl

ends_line-suc :
    (l : List ℕ) (j : ℕ)
    → ends_line l (suc j) ≡ ((get_or l j 0 == 13) && (get_or l (suc j) 0 == 10))
unfolding ends_line
ends_line-suc l j =
    let e : suc j - 1 ≡ j = omega arith in
    let t : leb 1 (suc j) ≡ true = ground arith in rw e (rw t refl)

ends_line-cons :
    (x : ℕ) (l : List ℕ) (j : ℕ) → ends_line (x ∷ l) (suc (suc j)) ≡ ends_line l (suc j)
ends_line-cons x l j = ends_line-suc (x ∷ l) (suc j) ∙ sym (ends_line-suc l j)

-- No byte of the list completes a "\r\n".
abbrev pub NoEnd : List ℕ → Type 0
NoEnd l = (j : ℕ) → suc j < length l → ends_line l (suc j) ≡ false

tail-NoEnd : (x : ℕ) (l : List ℕ) → NoEnd (x ∷ l) → NoEnd l
tail-NoEnd x l h j lt = sym (ends_line-cons x l j) ∙ h (suc j) (omega arith)

pub line_of-NoEnd : (l : List ℕ) → NoEnd l → line l ≡ none
line_of-NoEnd [] h = refl
line_of-NoEnd (x ∷ []) h = refl
line_of-NoEnd (x ∷ y ∷ l) h =
    let first : ((x == 13) && (y == 10)) ≡ false =
      sym (ends_line-suc (x ∷ y ∷ l) 0) ∙ h 0 (omega arith) in
    let ih = line_of-NoEnd (y ∷ l) (tail-NoEnd x (y ∷ l) h) in
    rw first (ap (Option.map (λ r. x ∷ r)) ih)

none_of_map :
    (x : ℕ) (b : Bool) (o : Option (List ℕ))
    → (if b then some [] else Option.map (λ r. x ∷ r) o) ≡ none
    → (b ≡ false) × (o ≡ none)
none_of_map x true o h = cc
none_of_map x false none h = (refl, refl)
none_of_map x false (some r) h = cc

none_parts :
    (x y : ℕ) (l : List ℕ)
    → line (x ∷ y ∷ l) ≡ none
    → (((x == 13) && (y == 10)) ≡ false) × (line (y ∷ l) ≡ none)
none_parts x y l h = none_of_map x ((x == 13) && (y == 10)) (line (y ∷ l)) h

pub NoEnd-of_line : (l : List ℕ) → line l ≡ none → NoEnd l
NoEnd-of_line [] h j lt = absurd (omega arith)
NoEnd-of_line (x ∷ []) h j lt = absurd (omega arith)
NoEnd-of_line (x ∷ y ∷ l) h zero lt = ends_line-suc (x ∷ y ∷ l) 0 ∙ (none_parts x y l h).0
NoEnd-of_line (x ∷ y ∷ l) h (suc j) lt =
    ends_line-cons x (y ∷ l) j ∙ NoEnd-of_line (y ∷ l) (none_parts x y l h).1 j (omega arith)

-- The byte `k + 1` is the first that completes a "\r\n".
pub line_of_first :
    (l : List ℕ) (k : ℕ)
    → suc k < length l
    → ends_line l (suc k) ≡ true
    → ((j : ℕ) → j < k → ends_line l (suc j) ≡ false)
    → line l ≡ some (take k l)
line_of_first [] k lt here before = absurd (omega arith)
line_of_first (x ∷ []) k lt here before = absurd (omega arith)
line_of_first (x ∷ y ∷ l) zero lt here before =
    let first : ((x == 13) && (y == 10)) ≡ true = sym (ends_line-suc (x ∷ y ∷ l) 0) ∙ here in
    rw first refl
line_of_first (x ∷ y ∷ l) (suc k) lt here before =
    let first : ((x == 13) && (y == 10)) ≡ false =
      sym (ends_line-suc (x ∷ y ∷ l) 0) ∙ before 0 (omega arith) in
    let ih : line (y ∷ l) ≡ some (take k (y ∷ l)) =
      line_of_first (y ∷ l) k (omega arith) (sym (ends_line-cons x (y ∷ l) k) ∙ here)
        (λ j a. sym (ends_line-cons x (y ∷ l) j) ∙ before (suc j) (omega arith)) in
    rw first (ap (Option.map (λ r. x ∷ r)) ih)

-- The search finds the first such byte from `i` on, or ends behind the last.
pub find_line_lem :
    (rounds i : ℕ) (l : List ℕ)
    → (i ≤ find_line rounds i l)
      × (find_line rounds i l ≤ i + rounds)
      × ((j : ℕ) → i ≤ j → j < find_line rounds i l → ends_line l j ≡ false)
      × (find_line rounds i l < i + rounds → ends_line l (find_line rounds i l) ≡ true)
unfolding find_line
find_line_lem zero i l =
    (omega arith, omega arith, λ j a b. absurd (omega arith), λ h. absurd (omega arith))
find_line_lem (suc rounds) i l = elim (Bool-cases (ends_line l i)) [
  | inl e ↦ rw e (omega arith, omega arith, λ j a b. absurd (omega arith), λ h. e)
  | inr e ↦
      let (low, high, before, at) = find_line_lem rounds (i + 1) l in
      rw e (
        omega arith,
        omega arith,
        (λ j a b. elim (Bool-cases (j == i)) [
          | inl here ↦ let same : j ≡ i = ground arith in rw same e
          | inr on ↦ before j (ground arith) b
        ]),
        λ h. at (omega arith),
      )
]
