-- ===== src/Handshake/Runs.antt =====
-- thread/thread_create/main.c: the states that the two threads reach.
use advanced_programming_in.Base.{
  ℕ, zero, suc, ◌+◌, ◌<◌, ◌≤◌, ◌≡◌, ◌≢◌, refl, ap, sym, ◌∙◌, List, [], ◌∷◌, ◌++◌, arith, ◌⊎◌, inl,
  inr, leb, ◌==◌, Bool-cases, if◌then◌else◌,
}
use advanced_programming_in.Handshake.{System, initial, print_n, Step, Reach, here, next}

-- What th_fun has printed before its operation `child`.
abbrev said_before : (child : ℕ) → List ℕ
said_before zero = []
said_before (suc zero) = 10 ∷ []
said_before (suc (suc zero)) = 10 ∷ []
said_before (suc (suc (suc zero))) = 10 ∷ []
said_before (suc (suc (suc (suc k)))) = 10 ∷ 11 ∷ []

record Holds (s : System) : Type 0 where
  child_end : s.child ≤ 4
  parent_end : s.parent ≤ 4
  second : s.sem2 + (if leb 1 s.parent then 1 else 0) ≡ (if leb 2 s.child then 1 else 0)
  first : s.sem1 + (if leb 3 s.child then 1 else 0) ≡ (if leb 3 s.parent then 1 else 0)
  number : s.n ≡ (if leb 2 s.parent then 11 else 10)
  said : s.printed ≡ said_before s.child
  joined : 4 ≤ s.parent → s.child ≡ 4

print_first-Holds : (s : System) → Holds s → s.child ≡ 0 → Holds (print_n s)
print_first-Holds s h at =
    let e : s.n ≡ 10 = ground (arith, h.second, h.number) in
    record {
      child_end = omega arith;
      parent_end = h.parent_end;
      second = ground (arith, h.second);
      first = ground (arith, h.first);
      number = h.number;
      said =
          ap (λ l. l ++ s.n ∷ []) (h.said ∙ ap said_before at)
          ∙ (ap (λ m. m ∷ []) e ∙ ap (λ c. said_before (c + 1)) (sym at));
      joined = λ x. let y = h.joined x in absurd (omega (arith, y));
    }

print_second-Holds : (s : System) → Holds s → s.child ≡ 3 → Holds (print_n s)
print_second-Holds s h at =
    let e : s.n ≡ 11 = ground (arith, h.first, h.number) in
    record {
      child_end = omega arith;
      parent_end = h.parent_end;
      second = ground (arith, h.second);
      first = ground (arith, h.first);
      number = h.number;
      said =
          ap (λ l. l ++ s.n ∷ []) (h.said ∙ ap said_before at)
          ∙ (ap (λ m. 10 ∷ m ∷ []) e ∙ ap (λ c. said_before (c + 1)) (sym at));
      joined = λ x. omega (arith, at);
    }

Step-Holds : {s t : System} → Step s t → Holds s → Holds t
Step-Holds {s = s} (Step.print_first at) h = print_first-Holds s h at
Step-Holds {s = s} (Step.print_second at) h = print_second-Holds s h at
Step-Holds (Step.post2 at) h = record {
  child_end = omega arith;
  parent_end = h.parent_end;
  second = ground (arith, h.second);
  first = ground (arith, h.first);
  number = h.number;
  said = h.said ∙ ap said_before at;
  joined = λ x. let y = h.joined x in absurd (omega (arith, y));
}
Step-Holds (Step.wait1 at some_unit) h = record {
  child_end = omega arith;
  parent_end = h.parent_end;
  second = ground (arith, h.second);
  first = ground (arith, h.first);
  number = h.number;
  said = h.said ∙ ap said_before at;
  joined = λ x. let y = h.joined x in absurd (omega (arith, y));
}
Step-Holds (Step.wait2 at some_unit) h = ground arith
Step-Holds (Step.add at) h = ground arith
Step-Holds (Step.post1 at) h = ground arith
Step-Holds (Step.join at at_child) h = ground arith

Reach-Holds : {s : System} → Reach initial s → Holds s
Reach-Holds here = ground arith
Reach-Holds (next r st) = Step-Holds st (Reach-Holds r)

ready :
    (s : System)
    → Holds s
    → s.parent ≢ 4
    → ((s.child ≡ 0) ⊎ ((s.child ≡ 1) ⊎ ((s.child ≡ 2) × (0 < s.sem1))))
      ⊎ ((s.child ≡ 3)
          ⊎ (((s.parent ≡ 0) × (0 < s.sem2))
              ⊎ ((s.parent ≡ 1) ⊎ ((s.parent ≡ 2) ⊎ ((s.parent ≡ 3) × (s.child ≡ 4))))))
ready s h going = ground (arith, h.child_end, h.parent_end, h.second, h.first)

Step-counts : {s t : System} → Step s t → t.child + t.parent ≡ s.child + s.parent + 1
Step-counts (Step.print_first at) = omega arith
Step-counts (Step.print_second at) = omega arith
Step-counts (Step.post2 at) = omega (arith, at)
Step-counts (Step.wait1 at some_unit) = omega (arith, at)
Step-counts (Step.wait2 at some_unit) = omega (arith, at)
Step-counts (Step.add at) = omega (arith, at)
Step-counts (Step.post1 at) = omega (arith, at)
Step-counts (Step.join at at_child) = omega (arith, at)

ends_or_goes_on :
    {s : System}
    → Holds s
    → ((s.parent ≡ 4) × (s.printed ≡ 10 ∷ 11 ∷ [])) ⊎ ((s.parent ≢ 4) × ((t : System) × Step s t))
ends_or_goes_on {s} h = elim (Bool-cases (s.parent == 4)) [
  | inl e ↦
      let end : s.parent ≡ 4 = ground arith in
      inl (end, h.said ∙ ap said_before (h.joined (omega (arith, end))))
  | inr e ↦
      let going : s.parent ≢ 4 = ground arith in
      inr (
        going,
        elim (ready s h going) [
          | inl (inl a) ↦ (_, Step.print_first a)
          | inl (inr (inl a)) ↦ (_, Step.post2 a)
          | inl (inr (inr (a, b))) ↦ (_, Step.wait1 a b)
          | inr (inl a) ↦ (_, Step.print_second a)
          | inr (inr (inl (a, b))) ↦ (_, Step.wait2 a b)
          | inr (inr (inr (inl a))) ↦ (_, Step.add a)
          | inr (inr (inr (inr (inl a)))) ↦ (_, Step.post1 a)
          | inr (inr (inr (inr (inr (a, b))))) ↦ (_, Step.join a b)
        ],
      )
]

-- How many steps a run has.
abbrev pub steps : {s t : System} → Reach s t → ℕ
steps here = 0
steps (next r st) = steps r + 1

steps_lem : {s : System} (r : Reach initial s) → steps r ≡ s.child + s.parent
steps_lem here = refl
steps_lem (next r st) = omega (arith, steps_lem r, Step-counts st)

-- No run of the two threads has more than 8 steps. In every state that they reach main is at its
-- end, and then th_fun has printed 10 and 11, the values before and after main's ++n, or some thread
-- can take its next step.
pub prints_both :
    {s : System} (r : Reach initial s)
    → (steps r ≤ 8)
      × (((s.parent ≡ 4) × (s.printed ≡ 10 ∷ 11 ∷ []))
          ⊎ ((s.parent ≢ 4) × ((t : System) × Step s t)))
prints_both r =
    let h = Reach-Holds r in
    (omega (arith, steps_lem r, h.child_end, h.parent_end), ends_or_goes_on h)
