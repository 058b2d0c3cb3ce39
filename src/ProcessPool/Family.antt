-- ===== src/ProcessPool/Family.antt =====
-- process/processpool/processpool.h: the processes that come out of the constructor.
use advanced_programming_in.Base.{
  ℕ, zero, suc, ◌+◌, ◌≤◌, ◌<◌, ◌≡◌, refl, ap, ◌∙◌, Bool-cases, inl, inr, true, false, none, some,
  List, ◌==◌, get_or, set, replicate, ◌-◌, length, length-set, length-replicate, get_or-set_self,
  get_or-set_ne, arith,
}
use advanced_programming_in.ProcessPool.{
  Process, no_process, Forked, in_parent, in_child, construct, start_processes, Role, run,
}

-- A sub-process as its parent knows it, and as the process itself does.
abbrev pub started : ℕ → Process
started pid = record { pid = some pid; end_0 = true; end_1 = false }

abbrev pub own : Process
own = record { pid = some 0; end_0 = false; end_1 = true }

module _ (forks : ℕ → Forked) (pid : ℕ → ℕ) where
  construct-started :
      (rounds i : ℕ) (subs : List Process)
      → forks i ≡ in_parent (pid i)
      → construct (suc rounds) i forks subs
        ≡ construct rounds (i + 1) forks (set subs i (started (pid i)))
  unfolding construct
  construct-started rounds i subs e = rw (e, construct) refl

  construct_end : (i : ℕ) (subs : List Process) → construct zero i forks subs ≡ (subs, none)
  unfolding construct
  construct_end i subs = refl

  construct_child :
      (rounds i : ℕ) (subs : List Process)
      → forks i ≡ in_child
      → construct (suc rounds) i forks subs ≡ (set subs i own, some i)
  unfolding construct
  construct_child rounds i subs e = rw (e, construct) refl

  -- The process in which fork returns pids up to the round `n` passes the rounds one by one.
  record Passed (i n : ℕ) (subs subs' : List Process) : Type 0 where
    size : length subs' ≡ length subs
    before : (j : ℕ) → j < i → get_or subs' j no_process ≡ get_or subs j no_process
    new : (j : ℕ) → i ≤ j → j < n → get_or subs' j no_process ≡ started (pid j)

  construct_lem :
      (rounds i n more total : ℕ) (subs : List Process)
      → i + rounds ≡ n
      → total ≡ rounds + more
      → ((j : ℕ) → i ≤ j → j < n → forks j ≡ in_parent (pid j))
      → n ≤ length subs
      → (subs' : List Process) × (construct total i forks subs ≡ construct more n forks subs')
        × Passed i n subs subs'
  construct_lem zero i n more total subs e t all room =
      let same : total ≡ more = omega (arith, t) in
      let here : n ≡ i = omega (arith, e) in
      (
        subs,
        rw same (rw here refl),
        record {
          size = refl;
          before = λ j lt. refl;
          new = λ j low high. absurd (omega (arith, e));
        },
      )
  construct_lem (suc rounds) i n more total subs e t all room =
      let next = set subs i (started (pid i)) in
      let len = length-set subs i (started (pid i)) in
      let (subs', eq, passed) =
        construct_lem rounds (i + 1) n more (rounds + more) next (omega (arith, e)) refl
          (λ j low high. all j (omega arith) high) (omega (arith, len)) in
      let here : total ≡ suc (rounds + more) = omega (arith, t) in
      (
        subs',
        ap (λ t. construct t i forks subs) here
            ∙ (construct-started (rounds + more) i subs (all i (omega arith) (omega arith)) ∙ eq),
        record {
          size = passed.size ∙ len;
          before = λ j lt.
              passed.before j (omega arith)
              ∙ get_or-set_ne subs i j (started (pid i)) no_process
                  (λ q. absurd (omega (arith, q)));
          new = λ j low high. elim (Bool-cases (j == i)) [
            | inl q ↦
                let at : j ≡ i = ground arith in
                rw at (
                  passed.before i (omega arith)
                  ∙ get_or-set_self subs i (started (pid i)) no_process (omega arith))
            | inr q ↦ passed.new j (ground arith) high
          ];
        },
      )

  -- The process for which fork always returns a pid.
  pub parent_lem :
      (n : ℕ)
      → ((j : ℕ) → j < n → forks j ≡ in_parent (pid j))
      → let (subs, index) = start_processes n forks in
        (run index ≡ Role.parent)
        × (length subs ≡ n)
        × ((j : ℕ) → j < n → get_or subs j no_process ≡ started (pid j))
  unfolding start_processes run
  parent_lem n all =
      let (subs', eq, passed) =
        construct_lem n 0 n 0 n (replicate n no_process) (omega arith) (omega arith)
          (λ j low high. all j high) (omega (arith, length-replicate n no_process)) in
      rw (eq ∙ construct_end n subs')
        (refl, passed.size ∙ length-replicate n no_process, λ j lt. passed.new j (omega arith) lt)

  -- The process for which fork returns 0 for the child `n`.
  pub child_lem :
      (total n : ℕ)
      → n < total
      → ((j : ℕ) → j < n → forks j ≡ in_parent (pid j))
      → forks n ≡ in_child
      → let (subs, index) = start_processes total forks in
        (run index ≡ Role.child n)
        × (get_or subs n no_process ≡ own)
        × ((j : ℕ) → j < n → get_or subs j no_process ≡ started (pid j))
  unfolding start_processes run
  child_lem total n lt all here =
      let (subs', eq, passed) =
        construct_lem n 0 n (suc (total - n - 1)) total (replicate total no_process) (omega arith)
          (omega arith) (λ j low high. all j high)
          (omega (arith, length-replicate total no_process)) in
      let size = passed.size ∙ length-replicate total no_process in
      rw (eq ∙ construct_child (total - n - 1) n subs' here) (
        refl,
        get_or-set_self subs' n own no_process (omega (arith, size)),
        λ j low.
            get_or-set_ne subs' n j own no_process (λ q. absurd (omega (arith, q)))
            ∙ passed.new j (omega arith) low,
      )
