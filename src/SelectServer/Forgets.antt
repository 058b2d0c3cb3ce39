-- ===== src/SelectServer/Forgets.antt =====
-- unix网络编程/IO多路复用/select/server.c: the descriptors that fall out of the set.
use advanced_programming_in.Base.{
  ℕ, ◌-◌, ◌≤◌, ◌<◌, ◌≡◌, ◌≢◌, refl, ap, subst, sym, ◌∙◌, ◌⊎◌, inl, inr, true, false, Bool-cases,
  Option, none, some, List, [], ◌++◌, ◌==◌, arith,
}
use advanced_programming_in.PollServer.{Received}
use advanced_programming_in.SelectServer.{Call, Server, Turn, add_client, serve_all, arrival, turn}
use advanced_programming_in.SelectServer.Spares.{AllSpare, AllSpare-append, serve_clients-Leaves}

module _ (toupper : ℕ → ℕ) (serverfd : ℕ) where
  -- What the system answers to a turn: select gives descriptors of the set that are below maxfd.
  pub record IsSelected (s : Server) (t : Turn) : Type 0 where
    pub in_set : (fd : ℕ) → t.ready fd ≡ true → s.reset fd ≡ true
    pub below : (fd : ℕ) → t.ready fd ≡ true → fd < s.maxfd

  -- Turns of the loop, with their calls, in which accept never gives `g`.
  pub data Turns (g : ℕ) : Server → List Call → Server → Type 0 where
    no_turn : {s : Server} → Turns g s [] s
    then_turn :
        {s s' s'' : Server} {calls calls' : List Call} (t : Turn)
        → Turns g s calls s'
        → IsSelected s' t
        → t.confd ≢ some g
        → turn toupper serverfd s' t ≡ some (s'', calls')
        → Turns g s (calls ++ calls') s''

  module _ (g : ℕ) where
    -- What a turn leaves, when it ends and leaves `g` alone.
    abbrev TurnLeaves : Option (Server × List Call) → Type 0
    TurnLeaves none = Unit
    TurnLeaves (some (s, calls)) = (s.reset g ≡ false) × AllSpare g calls

    serve_all-Leaves :
        (s : Server) (retfd : ℕ) (reads : ℕ → Received)
        → s.reset g ≡ false
        → TurnLeaves (some (serve_all toupper s retfd reads))
    unfolding serve_all
    serve_all-Leaves s retfd reads out =
        serve_clients-Leaves toupper g 0 retfd reads s.reset s.client out

    add_client-reset :
        (s : Server) (confd : ℕ)
        → g ≢ confd
        → s.reset g ≡ false
        → (add_client s confd).reset g ≡ false
    unfolding add_client
    add_client-reset s confd apart out = ground arith

    arrival-Leaves :
        (s : Server) (t : Turn) (o : Option ℕ)
        → serverfd ≢ g
        → s.reset g ≡ false
        → o ≢ some g
        → TurnLeaves (arrival toupper serverfd s t o)
    unfolding arrival
    arrival-Leaves s t none not_listener out other = tt
    arrival-Leaves s t (some confd) not_listener out other =
        let apart : g ≢ confd = λ p. other (ap (λ n. some n) (sym p)) in
        let out' = add_client-reset s confd apart out in
        elim (Bool-cases (t.retfd == 1)) [
          | inl last ↦ rw last (out', (not_listener, tt))
          | inr more ↦
              let (gone, spare) =
                serve_all-Leaves (add_client s confd) (t.retfd - 1) t.reads out' in
              rw more (gone, (not_listener, spare))
        ]

    -- A turn in which select does not report `g`.
    turn-Leaves :
        (s : Server) (t : Turn)
        → t.ready g ≡ false
        → t.confd ≢ some g
        → TurnLeaves (turn toupper serverfd s t)
    unfolding turn
    turn-Leaves s t out other =
        let s' : Server = record s { reset = t.ready } in
        elim (Bool-cases (t.ready serverfd)) [
          | inl e ↦
              let not_listener : serverfd ≢ g = λ q. cc (e, out, ap t.ready q) in
              rw e (arrival-Leaves s' t t.confd not_listener out other)
          | inr e ↦ rw e (serve_all-Leaves s' t.retfd t.reads out)
        ]

    -- The state that no turn gets `g` out of: it is not in the set, or beyond what select looks at.
    abbrev Gone : Server → Type 0
    Gone s = (s.reset g ≡ false) ⊎ (s.maxfd ≤ g)

    Gone-unready : (s : Server) (t : Turn) → Gone s → IsSelected s t → t.ready g ≡ false
    Gone-unready s t gone sel = elim (Bool-cases (t.ready g)) [
      | inl e ↦
          let x = sel.in_set g e in
          let y = sel.below g e in
          elim gone [ inl out ↦ absurd (cc (x, out)) | inr far ↦ absurd (omega (arith, far, y)) ]
      | inr e ↦ e
    ]

    Turns-Gone :
        (s : Server) (calls : List Call) (s' : Server)
        → Gone s
        → Turns g s calls s'
        → Gone s' × AllSpare g calls
    Turns-Gone s calls s' gone no_turn = (gone, tt)
    Turns-Gone s calls s' gone
          (then_turn {s' = s1} {calls = before} {calls' = new} t run sel other e) =
        let (gone1, spare) = Turns-Gone s before s1 gone run in
        let (out, spare') =
          subst TurnLeaves e (turn-Leaves s1 t (Gone-unready s1 t gone1 sel) other) in
        (inl out, AllSpare-append g before new spare spare')

    -- A descriptor that select does not report.
    unready_forgotten :
        (s s1 s2 : Server) (t : Turn) (calls calls' : List Call)
        → turn toupper serverfd s t ≡ some (s1, calls)
        → t.ready g ≡ false
        → t.confd ≢ some g
        → Turns g s1 calls' s2
        → AllSpare g calls'
    unready_forgotten s s1 s2 t calls calls' e out other run =
        let (out', spare) = subst TurnLeaves e (turn-Leaves s t out other) in
        (Turns-Gone s1 calls' s2 (inl out') run).1

    -- What a turn's end leaves as the bound.
    abbrev BoundAtMost : Option (Server × List Call) → Type 0
    BoundAtMost none = Unit
    BoundAtMost (some (s, calls)) = s.maxfd ≤ g

    add_client-maxfd : (s : Server) → s.maxfd ≤ g → (add_client s g).maxfd ≤ g
    unfolding add_client
    add_client-maxfd s far = ground arith

    serve_all-maxfd :
        (s : Server) (retfd : ℕ) (reads : ℕ → Received)
        → s.maxfd ≤ g
        → BoundAtMost (some (serve_all toupper s retfd reads))
    unfolding serve_all
    serve_all-maxfd s retfd reads far = far

    arrival-maxfd :
        (s : Server) (t : Turn) → s.maxfd ≤ g → BoundAtMost (arrival toupper serverfd s t (some g))
    unfolding arrival
    arrival-maxfd s t far =
        let far' = add_client-maxfd s far in
        elim (Bool-cases (t.retfd == 1)) [
          | inl e ↦ rw e far'
          | inr e ↦ rw e (serve_all-maxfd (add_client s g) (t.retfd - 1) t.reads far')
        ]

    turn-arrival :
        (s : Server) (t : Turn)
        → t.ready serverfd ≡ true
        → turn toupper serverfd s t
          ≡ arrival toupper serverfd (record s { reset = t.ready }) t t.confd
    unfolding turn
    turn-arrival s t e = rw e refl

    -- A client whose number is not below maxfd.
    highest_unserved :
        (s s1 s2 : Server) (t : Turn) (calls calls' : List Call)
        → turn toupper serverfd s t ≡ some (s1, calls)
        → t.ready serverfd ≡ true
        → t.confd ≡ some g
        → s.maxfd ≤ g
        → Turns g s1 calls' s2
        → AllSpare g calls'
    highest_unserved s s1 s2 t calls calls' e listening got far run =
        let s' : Server = record s { reset = t.ready } in
        let as_arrival =
          sym (turn-arrival s t listening ∙ ap (arrival toupper serverfd s' t) got) ∙ e in
        let far' = subst BoundAtMost as_arrival (arrival-maxfd s' t far) in
        (Turns-Gone s1 calls' s2 (inr far') run).1

    pub lost_unserved :
        (s s1 s2 : Server) (t : Turn) (calls calls' : List Call)
        → turn toupper serverfd s t ≡ some (s1, calls)
        → ((t.ready g ≡ false) × (t.confd ≢ some g))
          ⊎ ((t.ready serverfd ≡ true) × (t.confd ≡ some g) × (s.maxfd ≤ g))
        → Turns g s1 calls' s2
        → AllSpare g calls'
    lost_unserved s s1 s2 t calls calls' e (inl (out, other)) run =
        unready_forgotten s s1 s2 t calls calls' e out other run
    lost_unserved s s1 s2 t calls calls' e (inr (listening, got, far)) run =
        highest_unserved s s1 s2 t calls calls' e listening got far run
