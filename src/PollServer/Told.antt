-- ===== src/PollServer/Told.antt =====
-- unix网络编程/IO多路复用/poll/server.c: a turn told without the code's own steps.
use advanced_programming_in.Base.{
  ℕ, ◌+◌, ◌-◌, ◌≤◌, ◌<◌, ◌≡◌, ◌≢◌, refl, ap, sym, subst, ◌∙◌, ◌⊎◌, inl, inr, Bool, true, false,
  Bool-cases, Option, none, some, List, [], ◌∷◌, ◌++◌, map, get_or, set, drop, take, if◌then◌else◌,
  ◌&&◌, arith, total,
}
use native.Mathlib.Decide.{dec_lt}
use advanced_programming_in.PollServer.{
  Pollfd, unused, is_ready, Received, received, closed, failed, Write, Server, client_count,
  add_client, serve_client, turn,
}
use advanced_programming_in.PollServer.Arrival.{find_free_lem}
use advanced_programming_in.PollServer.Turn.{
  weight, weight_of_listener, all_served, served, arrived, turn-served,
}

-- The table after a new connection: its first free entry behind the listening one holds the
-- descriptor and is the new maxindex; a table without a free entry stays as it is.
abbrev pub Takes : Server → (confd : ℕ) → Server → Type 0
Takes s confd t =
    (((j : ℕ) → 1 ≤ j → j < client_count → (get_or s.client j unused).fd ≢ none) × (t ≡ s))
    ⊎ ((k : ℕ) × (1 ≤ k)
        × (k < client_count)
        × ((get_or s.client k unused).fd ≡ none)
        × ((j : ℕ) → 1 ≤ j → j < k → (get_or s.client j unused).fd ≢ none)
        × (t ≡ record {
          client =
              set s.client k
                (record { fd = some confd; readable = (get_or s.client k unused).readable });
          maxindex = k;
        }))

-- The same if the listening descriptor is ready, and no change if it is not.
abbrev pub Arrives : Server → (confd : ℕ) → Server → Type 0
Arrives s confd t =
    (((get_or s.client 0 unused).readable ≡ true) × Takes s confd t)
    ⊎ (((get_or s.client 0 unused).readable ≡ false) × (t ≡ s))

abbrev pub has_closed : Received → Bool
has_closed (received bytes) = false
has_closed closed = true
has_closed failed = false

-- What goes back to a client: its bytes through toupper; nothing, to the descriptor -1, when it has
-- closed; the length -1 when read has failed.
abbrev pub reply : (toupper : ℕ → ℕ) → (fd : Option ℕ) → Received → Write
reply toupper fd (received bytes) = record { fd = fd; buf = some (map toupper bytes) }
reply toupper fd closed = record { fd = none; buf = some [] }
reply toupper fd failed = record { fd = fd; buf = none }

module _ (toupper : ℕ → ℕ) (answers : ℕ → Received) where
  -- The entries from `i` on after a turn: a ready one whose client has closed is free.
  abbrev pub entries_left : (i : ℕ) → List Pollfd → List Pollfd
  entries_left i [] = []
  entries_left i (c ∷ cs) =
      (if is_ready c && has_closed (answers i) then record c { fd = none } else c)
      ∷ entries_left (i + 1) cs

  -- One reply for each ready entry, in the order of the table.
  abbrev pub replies : (i : ℕ) → List Pollfd → List Write
  replies i [] = []
  replies i (c ∷ cs) =
      let rest = replies (i + 1) cs in
      if is_ready c then reply toupper c.fd (answers i) ∷ rest else rest

  serve_client-reply :
      (c : Pollfd) (r : Received)
      → serve_client toupper c r
        ≡ (if has_closed r then record c { fd = none } else c, reply toupper c.fd r)
  unfolding serve_client
  serve_client-reply c (received bytes) = refl
  serve_client-reply c closed = refl
  serve_client-reply c failed = refl

  all_served-replies :
      (i : ℕ) (cs : List Pollfd)
      → all_served toupper i answers cs ≡ (entries_left i cs, replies i cs)
  all_served-replies i [] = refl
  all_served-replies i (c ∷ cs) = elim (Bool-cases (is_ready c)) [
    | inl e ↦ rw e (rw (all_served-replies (i + 1) cs) (rw (serve_client-reply c (answers i)) refl))
    | inr e ↦ rw e (rw (all_served-replies (i + 1) cs) refl)
  ]

-- The first free entry is one entry.
first_free :
    (client : List Pollfd) (k m : ℕ)
    → 1 ≤ k
    → 1 ≤ m
    → (get_or client k unused).fd ≡ none
    → (get_or client m unused).fd ≡ none
    → ((j : ℕ) → 1 ≤ j → j < k → (get_or client j unused).fd ≢ none)
    → ((j : ℕ) → 1 ≤ j → j < m → (get_or client j unused).fd ≢ none)
    → k ≡ m
first_free client k m some_k some_m free free' before before' = elim (dec_lt k m) [
  | yes lt ↦ absurd (before' k some_k lt free)
  | no a ↦ elim (dec_lt m k) [ yes lt ↦ absurd (before m some_m lt free') | no b ↦ omega arith ]
]

Takes-add_client : (s : Server) (confd : ℕ) (t : Server) → Takes s confd t → t ≡ add_client s confd
unfolding add_client
Takes-add_client s confd t takes = elim (find_free_lem (client_count - 1) 1 s.client) [
  | inl (absent, used) ↦ elim takes [
    | inl (full, same) ↦ same ∙ sym (rw (absent, add_client) refl)
    | inr (k, low, high, free, before, same) ↦ absurd (used k low (omega (arith, high)) free)
  ]
  | inr (m, found, low', high', free', before') ↦ elim takes [
    | inl (full, same) ↦ absurd (full m low' (omega (arith, high')) free')
    | inr (k, low, high, free, before, same) ↦
        let at : k ≡ m = first_free s.client k m low low' free free' before before' in
        let e = found ∙ ap (λ n. some n) (sym at) in same ∙ sym (rw (e, add_client) refl)
  ]
]

Arrives-arrived : (s : Server) (confd : ℕ) (t : Server) → Arrives s confd t → t ≡ arrived s confd
Arrives-arrived s confd t (inl (e, takes)) = Takes-add_client s confd t takes ∙ sym (rw e refl)
Arrives-arrived s confd t (inr (e, same)) = same ∙ sym (rw e refl)

-- A turn in which accept does not fail, where `t` is the table with the new connection, if there is
-- one: it goes to the first free entry, and nowhere if no entry is free. When poll counts at least as
-- many entries as the ready clients of `t`, and the listening descriptor if it is ready, each ready
-- client gets one reply, in the order of the table: its bytes through toupper, or the empty or failed
-- write where it has closed or read has failed. The entries of those that have closed are free after
-- the turn, and the others are as in `t`.
pub turn_lem :
    (toupper : ℕ → ℕ) (s t : Server) (retfd confd : ℕ) (answers : ℕ → Received)
    → Arrives s confd t
    → total weight (drop 1 t.client) + weight_of_listener s ≤ retfd
    → turn toupper s retfd (some confd) answers
      ≡ some (
        record t { client = take 1 t.client ++ entries_left toupper answers 1 (drop 1 t.client) },
        replies toupper answers 1 (drop 1 t.client),
      )
turn_lem toupper s t retfd confd answers arrives enough =
    let e = Arrives-arrived s confd t arrives in
    turn-served toupper s retfd confd answers
      (subst (λ u. total weight (drop 1 u.client) + weight_of_listener s ≤ retfd) e enough)
    ∙ ap (λ u. some (served toupper u answers)) (sym e)
    ∙ ap
        (λ (r : List Pollfd × List Write). some (record t { client = take 1 t.client ++ r.0 }, r.1))
        (all_served-replies toupper answers 1 (drop 1 t.client))
