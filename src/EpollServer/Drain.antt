-- ===== src/EpollServer/Drain.antt =====
-- unix网络编程/IO多路复用/epoll/epoll_ET/server.c and epoll_LT/server.c: what a client gets back. A
-- client is watched level-triggered in both programs: epoll_wait reports it as long as data is left,
-- and read gives at most as many bytes as it is asked for, the rest stays.
use advanced_programming_in.Base.{
  map-append, take-drop, length-drop, ℕ, zero, suc, ◌≤◌, ◌<◌, ◌≡◌, refl, ap, sym, ◌∙◌, true, inl,
  inr, Bool-cases, List, [], ◌∷◌, ◌++◌, map, take, drop, length, append_assoc, append-nil, ◌==◌,
  if◌then◌else◌, arith,
}
use advanced_programming_in.Kernel.{Kernel}
use advanced_programming_in.EpollServer.{Variant, Received, Server, read_client}

-- What has been given to write for a descriptor.
abbrev pub written : ℕ → List (ℕ × List ℕ) → List ℕ
written fd [] = []
written fd ((g, bytes) ∷ out) = if g == fd then bytes ++ written fd out else written fd out

written-append :
    (fd : ℕ) (a b : List (ℕ × List ℕ)) → written fd (a ++ b) ≡ written fd a ++ written fd b
written-append fd [] b = refl
written-append fd ((g, bytes) ∷ a) b = elim (Bool-cases (g == fd)) [
  | inl e ↦ rw e (ap (λ r. bytes ++ r) (written-append fd a b) ∙ sym (append_assoc bytes _ _))
  | inr e ↦ rw e (written-append fd a b)
]

module _ (k : Kernel) (toupper : ℕ → ℕ) (serverfd : ℕ) (v : Variant) where
  -- The turns for a client that has sent `bytes`, at most `rounds` of them.
  abbrev pub drain : (rounds : ℕ) → Server k → (fd : ℕ) → List ℕ → Server k
  drain zero s fd bytes = s
  drain (suc rounds) s fd [] = s
  drain (suc rounds) s fd (b ∷ bytes) =
      drain rounds
        (read_client k toupper serverfd s fd (Received.received (take v.read_size (b ∷ bytes)))) fd
        (drop v.read_size (b ∷ bytes))

  pub read-written :
      (s : Server k) (fd : ℕ) (bytes : List ℕ)
      → written fd (read_client k toupper serverfd s fd (Received.received bytes)).output
        ≡ written fd s.output ++ map toupper bytes
  unfolding read_client
  read-written s fd bytes =
      let self : (fd == fd) ≡ true = ground arith in
      written-append fd s.output ((fd, map toupper bytes) ∷ [])
      ∙ rw self (ap (λ r. written fd s.output ++ r) (append-nil (map toupper bytes)))

  -- All that a client has sent comes back to it, in order and through toupper, however few bytes a
  -- turn reads: after as many turns as there are bytes nothing is left.
  pub drain_lem :
      (rounds : ℕ) (s : Server k) (fd : ℕ) (bytes : List ℕ)
      → 0 < v.read_size
      → length bytes ≤ rounds
      → written fd (drain rounds s fd bytes).output ≡ written fd s.output ++ map toupper bytes
  drain_lem zero s fd [] some_room h = sym (append-nil (written fd s.output))
  drain_lem zero s fd (b ∷ bytes) some_room h = absurd (omega arith)
  drain_lem (suc rounds) s fd [] some_room h = sym (append-nil (written fd s.output))
  drain_lem (suc rounds) s fd (b ∷ bytes) some_room h =
      let all = b ∷ bytes in
      let got = take v.read_size all in
      let rest = drop v.read_size all in
      drain_lem rounds (read_client k toupper serverfd s fd (Received.received got)) fd rest
        some_room (omega (arith, length-drop v.read_size all))
      ∙ (ap (λ r. r ++ map toupper rest) (read-written s fd got)
          ∙ (append_assoc (written fd s.output) (map toupper got) (map toupper rest)
              ∙ ap (λ r. written fd s.output ++ r)
                  (sym (map-append toupper got rest)
                    ∙ ap (map toupper) (take-drop v.read_size all))))
