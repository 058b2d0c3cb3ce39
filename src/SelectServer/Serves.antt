-- ===== src/SelectServer/Serves.antt =====
-- unix网络编程/IO多路复用/select/server.c: the clients that a loop serves.
use advanced_programming_in.Base.{
  ℕ, ◌+◌, ◌-◌, ◌≤◌, ◌≡◌, refl, ap, sym, ◌∙◌, inl, inr, Bool-cases, Option, none, some, List, [],
  ◌∷◌, append-nil, ◌==◌, if◌then◌else◌, arith,
}
use advanced_programming_in.PollServer.{Received, received, closed, failed}
use advanced_programming_in.SelectServer.{
  FdSet, fd_clr, Served, keep, entry_after, reset_after, calls_on, serve_clients,
}

-- The entries whose descriptor is in the set.
abbrev pub number_ready : FdSet → List (Option ℕ) → ℕ
number_ready set [] = 0
number_ready set (none ∷ cs) = number_ready set cs
number_ready set (some fd ∷ cs) = (if set fd then 1 else 0) + number_ready set cs

number_ready-clr :
    (fd : ℕ) (set : FdSet) (cs : List (Option ℕ))
    → number_ready (fd_clr fd set) cs ≤ number_ready set cs
number_ready-clr fd set [] = omega arith
number_ready-clr fd set (none ∷ cs) = number_ready-clr fd set cs
number_ready-clr fd set (some g ∷ cs) = let x = number_ready-clr fd set cs in ground arith

number_ready_after :
    (fd : ℕ) (r : Received) (set : FdSet) (cs : List (Option ℕ))
    → number_ready (reset_after fd r set) cs ≤ number_ready set cs
unfolding reset_after
number_ready_after fd (received bytes) set cs = omega arith
number_ready_after fd closed set cs = number_ready-clr fd set cs
number_ready_after fd failed set cs = omega arith

module _ (toupper : ℕ → ℕ) where
  -- Every client whose descriptor is in the set served, in the order of the table.
  abbrev pub all_served : (i : ℕ) → (ℕ → Received) → FdSet → List (Option ℕ) → Served
  all_served i reads set [] = record { client = []; reset = set; calls = [] }
  all_served i reads set (none ∷ cs) = keep none [] (all_served (i + 1) reads set cs)
  all_served i reads set (some fd ∷ cs) =
      let set' = if set fd then reset_after fd (reads i) set else set in
      let rest = all_served (i + 1) reads set' cs in
      if set fd
      then keep (entry_after fd (reads i)) (calls_on toupper fd (reads i)) rest
      else keep (some fd) [] rest

  all_served_none :
      (i : ℕ) (reads : ℕ → Received) (set : FdSet) (cs : List (Option ℕ))
      → number_ready set cs ≡ 0
      → all_served i reads set cs ≡ record { client = cs; reset = set; calls = [] }
  all_served_none i reads set [] h = refl
  all_served_none i reads set (none ∷ cs) h =
      ap (keep none []) (all_served_none (i + 1) reads set cs h)
  all_served_none i reads set (some fd ∷ cs) h = elim (Bool-cases (set fd)) [
    | inl e ↦ absurd (ground arith)
    | inr e ↦ rw e (ap (keep (some fd) []) (all_served_none (i + 1) reads set cs (ground arith)))
  ]

  -- When `retfd` is at least the number of the entries whose descriptor is in the set, the loop does
  -- what one over the whole table does, which serves each entry whose descriptor is in the set when
  -- it gets there: its early end passes over none.
  pub serve_clients_select :
      (i retfd : ℕ) (reads : ℕ → Received) (set : FdSet) (cs : List (Option ℕ))
      → number_ready set cs ≤ retfd
      → serve_clients toupper i retfd reads set cs ≡ all_served i reads set cs
  unfolding serve_clients
  serve_clients_select i retfd reads set [] h = refl
  serve_clients_select i retfd reads set (none ∷ cs) h =
      ap (keep none []) (serve_clients_select (i + 1) retfd reads set cs h)
  serve_clients_select i retfd reads set (some fd ∷ cs) h = elim (Bool-cases (set fd)) [
    | inl e ↦
        let set' = reset_after fd (reads i) set in
        let c = entry_after fd (reads i) in
        let calls = calls_on toupper fd (reads i) in
        let fewer = number_ready_after fd (reads i) set cs in
        let few : number_ready set cs + 1 ≤ retfd = ground arith in
        elim (Bool-cases (retfd == 1)) [
          | inl last ↦
              let no_other : number_ready set' cs ≡ 0 = ground arith in
              rw (e, last)
                (ap (λ l. record { client = c ∷ cs; reset = set'; calls = l })
                    (sym (append-nil calls))
                  ∙ ap (keep c calls) (sym (all_served_none (i + 1) reads set' cs no_other)))
          | inr more ↦
              rw (e, more)
                (ap (keep c calls) (
                  serve_clients_select (i + 1) (retfd - 1) reads set' cs
                    (omega (arith, fewer, few))))
        ]
    | inr e ↦
        rw e
          (ap (keep (some fd) []) (serve_clients_select (i + 1) retfd reads set cs (ground arith)))
  ]
