-- ===== src/SelectServer/Spares.antt =====
-- unix网络编程/IO多路复用/select/server.c: a loop over the clients makes no call on a
-- descriptor that is not in the set.
use advanced_programming_in.Base.{
  ℕ, ◌+◌, ◌-◌, ◌≡◌, ◌≢◌, ap, inl, inr, false, Bool-cases, Option, none, some, List, [], ◌∷◌, ◌++◌,
  ◌==◌, arith,
}
use advanced_programming_in.PollServer.{Received, received, closed, failed}
use advanced_programming_in.SelectServer.{
  FdSet, Call, accept, read, close, write, Served, keep, entry_after, reset_after, calls_on,
  serve_clients,
}

-- A call that is not on the descriptor `g`.
abbrev pub Spares : ℕ → Call → Type 0
Spares g (accept fd) = fd ≢ g
Spares g (read fd) = fd ≢ g
Spares g (close fd) = fd ≢ g
Spares g (write fd buf) = fd ≢ some g

abbrev pub AllSpare : ℕ → List Call → Type 0
AllSpare g [] = Unit
AllSpare g (c ∷ cs) = Spares g c × AllSpare g cs

pub AllSpare-append :
    (g : ℕ) (cs ds : List Call) → AllSpare g cs → AllSpare g ds → AllSpare g (cs ++ ds)
AllSpare-append g [] ds a b = b
AllSpare-append g (c ∷ cs) ds (x, a) b = (x, AllSpare-append g cs ds a b)

reset_after-keeps :
    (g fd : ℕ) (r : Received) (set : FdSet) → set g ≡ false → reset_after fd r set g ≡ false
unfolding reset_after
reset_after-keeps g fd (received bytes) set out = out
reset_after-keeps g fd closed set out = ground arith
reset_after-keeps g fd failed set out = out

module _ (toupper : ℕ → ℕ) (g : ℕ) where
  calls_on-AllSpare : (fd : ℕ) (r : Received) → fd ≢ g → AllSpare g (calls_on toupper fd r)
  unfolding calls_on
  calls_on-AllSpare fd (received bytes) apart = (apart, ((λ e. apart (cc e)), tt))
  calls_on-AllSpare fd closed apart = (apart, (apart, ((λ e. ground arith), tt)))
  calls_on-AllSpare fd failed apart = (apart, ((λ e. apart (cc e)), tt))

  -- A loop over the clients that leaves `g` alone.
  abbrev pub Leaves : Served → Type 0
  Leaves r = (r.reset g ≡ false) × AllSpare g r.calls

  keep-Leaves :
      (c : Option ℕ) (calls : List Call) (r : Served)
      → AllSpare g calls
      → Leaves r
      → Leaves (keep c calls r)
  keep-Leaves c calls r a (out, b) = (out, AllSpare-append g calls r.calls a b)

  pub serve_clients-Leaves :
      (i retfd : ℕ) (reads : ℕ → Received) (set : FdSet) (cs : List (Option ℕ))
      → set g ≡ false
      → Leaves (serve_clients toupper i retfd reads set cs)
  unfolding serve_clients
  serve_clients-Leaves i retfd reads set [] out = (out, tt)
  serve_clients-Leaves i retfd reads set (none ∷ cs) out =
      keep-Leaves none [] (serve_clients toupper (i + 1) retfd reads set cs) tt
        (serve_clients-Leaves (i + 1) retfd reads set cs out)
  serve_clients-Leaves i retfd reads set (some fd ∷ cs) out = elim (Bool-cases (set fd)) [
    | inl e ↦
        let apart : fd ≢ g = λ q. cc (e, out, ap set q) in
        let set' = reset_after fd (reads i) set in
        let out' = reset_after-keeps g fd (reads i) set out in
        let c = entry_after fd (reads i) in
        let calls = calls_on toupper fd (reads i) in
        let spare = calls_on-AllSpare fd (reads i) apart in
        elim (Bool-cases (retfd == 1)) [
          | inl last ↦ rw (e, last) (out', spare)
          | inr more ↦
              rw (e, more)
                (keep-Leaves c calls (serve_clients toupper (i + 1) (retfd - 1) reads set' cs) spare
                  (serve_clients-Leaves (i + 1) (retfd - 1) reads set' cs out'))
        ]
    | inr e ↦ rw e (
        keep-Leaves (some fd) [] (serve_clients toupper (i + 1) retfd reads set cs) tt
          (serve_clients-Leaves (i + 1) retfd reads set cs out))
  ]
