-- ===== src/PollServer/Arrival.antt =====
-- unix网络编程/IO多路复用/poll/server.c: the entry that a new connection gets.
use advanced_programming_in.Base.{
  ℕ, zero, suc, ◌+◌, ◌-◌, ◌≤◌, ◌<◌, ◌≡◌, ◌≢◌, refl, ap, ◌∙◌, ◌⊎◌, inl, inr, Bool-cases, none, some,
  Option-cases, List, get_or, set, length, ◌==◌, arith, get_or-set_self, get_or-set_ne,
}
use advanced_programming_in.PollServer.{Pollfd, unused, Server, find_free, add_client, client_count}

module _ (rounds i : ℕ) (client : List Pollfd) where
  find_free_here : (get_or client i unused).fd ≡ none → find_free (suc rounds) i client ≡ some i
  unfolding find_free
  find_free_here e = rw (e, find_free) refl

  find_free_used :
      {fd : ℕ}
      → (get_or client i unused).fd ≡ some fd
      → find_free (suc rounds) i client ≡ find_free rounds (i + 1) client
  unfolding find_free
  find_free_used e = rw (e, find_free) refl

-- What holds at `i` and above it.
above :
    (client : List Pollfd) (i j : ℕ)
    → (get_or client i unused).fd ≢ none
    → (i + 1 ≤ j → (get_or client j unused).fd ≢ none)
    → i ≤ j
    → (get_or client j unused).fd ≢ none
above client i j here there a = elim (Bool-cases (j == i)) [
  | inl e ↦ let same : j ≡ i = ground arith in rw same here
  | inr e ↦ there (ground arith)
]

-- The search finds the first free entry, if there is one.
pub find_free_lem :
    (rounds i : ℕ) (client : List Pollfd)
    → ((find_free rounds i client ≡ none)
        × ((j : ℕ) → i ≤ j → j < i + rounds → (get_or client j unused).fd ≢ none))
      ⊎ ((k : ℕ) × (find_free rounds i client ≡ some k)
          × (i ≤ k)
          × (k < i + rounds)
          × ((get_or client k unused).fd ≡ none)
          × ((j : ℕ) → i ≤ j → j < k → (get_or client j unused).fd ≢ none))
unfolding find_free
find_free_lem zero i client = inl (refl, λ j a b. absurd (omega arith))
find_free_lem (suc rounds) i client = elim (Option-cases (get_or client i unused).fd) [
  | inl e ↦ inr (
    i,
    find_free_here rounds i client e,
    omega arith,
    omega arith,
    e,
    λ j a b. absurd (omega arith),
  )
  | inr (fd, e) ↦
      let used : (get_or client i unused).fd ≢ none = λ gap. cc in
      elim (find_free_lem rounds (i + 1) client) [
        | inl (absent, rest) ↦ inl (
          find_free_used rounds i client e ∙ absent,
          λ j a b. above client i j used (λ l. rest j l (omega arith)) a,
        )
        | inr (k, found, low, high, free, rest) ↦ inr (
          k,
          find_free_used rounds i client e ∙ found,
          omega arith,
          omega arith,
          free,
          λ j a b. above client i j used (λ l. rest j l b) a,
        )
      ]
]

-- A new connection gets the first free entry behind the listening one, and maxindex becomes that
-- entry, also where it was larger: the clients in the entries behind it keep them, and the next call
-- of poll, which looks at maxindex + 1 entries, leaves each of them out. If no entry is free,
-- nothing changes: the descriptor stays open unserved.
pub add_client_lem :
    (s : Server) (confd : ℕ)
    → length s.client ≡ client_count
    → ((add_client s confd ≡ s)
        × ((j : ℕ) → 1 ≤ j → j < client_count → (get_or s.client j unused).fd ≢ none))
      ⊎ ((k : ℕ) × ((get_or s.client k unused).fd ≡ none)
          × ((j : ℕ) → 1 ≤ j → j < k → (get_or s.client j unused).fd ≢ none)
          × ((get_or (add_client s confd).client k unused).fd ≡ some confd)
          × ((j : ℕ)
              → k ≢ j
              → get_or (add_client s confd).client j unused ≡ get_or s.client j unused)
          × ((j : ℕ) → k < j → (add_client s confd).maxindex + 1 ≤ j)
          × ((add_client s confd).maxindex ≡ k))
unfolding add_client
add_client_lem s confd size = elim (find_free_lem (client_count - 1) 1 s.client) [
  | inl (absent, all_used) ↦
      inl (rw (absent, add_client) refl, λ j a b. all_used j a (omega (arith, b)))
  | inr (k, found, low, high, free, below) ↦
      let room : k < length s.client = omega (arith, size) in
      let c : Pollfd = record (get_or s.client k unused) { fd = some confd } in
      let e : add_client s confd ≡ record { client = set s.client k c; maxindex = k } =
        rw (found, add_client) refl in
      rw e (
        inr (
          k,
          free,
          below,
          ap (λ (d : Pollfd). d.fd) (get_or-set_self s.client k c unused room),
          λ j other. get_or-set_ne s.client k j c unused other,
          λ j a. omega arith,
          refl,
        ))
]
