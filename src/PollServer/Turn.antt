-- ===== src/PollServer/Turn.antt =====
-- unix网络编程/IO多路复用/poll/server.c: the clients that a turn serves.
use advanced_programming_in.Base.{
  take-drop, ℕ, ◌+◌, ◌-◌, ◌≤◌, ◌≡◌, refl, ap, sym, ◌∙◌, inl, inr, true, false, Bool-cases, some,
  List, [], ◌∷◌, ◌++◌, get_or, drop, take, ◌==◌, if◌then◌else◌, arith, total,
}
use advanced_programming_in.PollServer.{
  Pollfd, unused, is_ready, Received, Write, Server, add_client, serve_client, serve_clients,
  serve_all, turn,
}

abbrev pub weight : Pollfd → ℕ
weight c = if is_ready c then 1 else 0

module _ (toupper : ℕ → ℕ) where
  -- Every ready client served in the order of the table, and the others left as they are.
  abbrev pub all_served : (i : ℕ) → (ℕ → Received) → List Pollfd → List Pollfd × List Write
  all_served i answers [] = ([], [])
  all_served i answers (c ∷ cs) =
      let (cs', ws) = all_served (i + 1) answers cs in
      let (c', w) = serve_client toupper c (answers i) in
      if is_ready c then (c' ∷ cs', w ∷ ws) else (c ∷ cs', ws)

  all_served_none :
      (i : ℕ) (answers : ℕ → Received) (cs : List Pollfd)
      → total weight cs ≡ 0
      → all_served i answers cs ≡ (cs, [])
  all_served_none i answers [] h = refl
  all_served_none i answers (c ∷ cs) h = elim (Bool-cases (is_ready c)) [
    | inl e ↦ absurd (ground arith)
    | inr e ↦ rw e (rw (all_served_none (i + 1) answers cs (ground arith)) refl)
  ]

  -- When poll counts at least as many entries as there are ready clients, the loop serves each of
  -- them once, in the order of the table, and leaves the others as they are: its early end passes
  -- over no ready client.
  pub serve_clients_lem :
      (i retfd : ℕ) (answers : ℕ → Received) (cs : List Pollfd)
      → total weight cs ≤ retfd
      → serve_clients toupper i retfd answers cs ≡ all_served i answers cs
  unfolding serve_clients
  serve_clients_lem i retfd answers [] h = refl
  serve_clients_lem i retfd answers (c ∷ cs) h = elim (Bool-cases (is_ready c)) [
    | inl e ↦
        let few : total weight cs ≤ retfd - 1 = ground arith in
        elim (Bool-cases (retfd == 1)) [
          | inl last ↦ rw e (rw last (rw (all_served_none (i + 1) answers cs (ground arith)) refl))
          | inr more ↦
              rw e (rw more (rw (serve_clients_lem (i + 1) (retfd - 1) answers cs few) refl))
        ]
    | inr e ↦ rw e (rw (serve_clients_lem (i + 1) retfd answers cs (ground arith)) refl)
  ]

-- The table and the writes after every ready client has been served.
abbrev pub served : (toupper : ℕ → ℕ) → Server → (ℕ → Received) → Server × List Write
served toupper s answers =
    let (cs, ws) = all_served toupper 1 answers (drop 1 s.client) in
    (record s { client = take 1 s.client ++ cs }, ws)

-- The table after the new connection, if the listening descriptor is ready.
abbrev pub arrived : Server → (confd : ℕ) → Server
arrived s confd = if (get_or s.client 0 unused).readable then add_client s confd else s

abbrev pub weight_of_listener : Server → ℕ
weight_of_listener s = if (get_or s.client 0 unused).readable then 1 else 0

module _ (toupper : ℕ → ℕ) where
  serve_all_lem :
      (s : Server) (retfd : ℕ) (answers : ℕ → Received)
      → total weight (drop 1 s.client) ≤ retfd
      → serve_all toupper s retfd answers ≡ served toupper s answers
  unfolding serve_all
  serve_all_lem s retfd answers h =
      rw (serve_clients_lem toupper 1 retfd answers (drop 1 s.client) h) refl

  served_none :
      (s : Server) (answers : ℕ → Received)
      → total weight (drop 1 s.client) ≡ 0
      → served toupper s answers ≡ (s, [])
  served_none s answers h =
      rw (all_served_none toupper 1 answers (drop 1 s.client) h)
        (ap (λ cs. (record s { client = cs }, [])) (take-drop 1 s.client))

  module _ (s : Server) (retfd confd : ℕ) (answers : ℕ → Received) where
    turn_idle :
        (get_or s.client 0 unused).readable ≡ false
        → turn toupper s retfd (some confd) answers ≡ some (serve_all toupper s retfd answers)
    unfolding turn
    turn_idle e = rw e refl

    turn_last :
        (get_or s.client 0 unused).readable ≡ true
        → (retfd == 1) ≡ true
        → turn toupper s retfd (some confd) answers ≡ some (add_client s confd, [])
    unfolding turn
    turn_last e last = rw (e, last) refl

    turn_more :
        (get_or s.client 0 unused).readable ≡ true
        → (retfd == 1) ≡ false
        → turn toupper s retfd (some confd) answers
          ≡ some (serve_all toupper (add_client s confd) (retfd - 1) answers)
    unfolding turn
    turn_more e more = rw (e, more) refl

    turn_arrival :
        (get_or s.client 0 unused).readable ≡ true
        → total weight (drop 1 (add_client s confd).client) + 1 ≤ retfd
        → turn toupper s retfd (some confd) answers
          ≡ some (served toupper (add_client s confd) answers)
    turn_arrival e h = elim (Bool-cases (retfd == 1)) [
      | inl last ↦
          let no_other : total weight (drop 1 (add_client s confd).client) ≡ 0 = ground arith in
          turn_last e last
          ∙ ap (λ r. some r) (sym (served_none (add_client s confd) answers no_other))
      | inr more ↦
          turn_more e more
          ∙ ap (λ r. some r)
              (serve_all_lem (add_client s confd) (retfd - 1) answers (omega (arith, h)))
    ]

    -- The turn with the code's own steps.
    pub turn-served :
        total weight (drop 1 (arrived s confd).client) + weight_of_listener s ≤ retfd
        → turn toupper s retfd (some confd) answers
          ≡ some (served toupper (arrived s confd) answers)
    turn-served = elim (Bool-cases (get_or s.client 0 unused).readable) [
      | inl e ↦ rw e (turn_arrival e)
      | inr e ↦
          rw e
            (λ h. turn_idle e ∙ ap (λ r. some r) (serve_all_lem s retfd answers (omega (arith, h))))
    ]
