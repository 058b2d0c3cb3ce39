-- ===== src/EpollServer/Watches.antt =====
-- unix网络编程/IO多路复用/epoll/epoll_ET/server.c and epoll_LT/server.c: the descriptors that epoll
-- watches.
use advanced_programming_in.Base.{
  ℕ, ◌≡◌, ◌≢◌, refl, ap, subst, sym, ◌∙◌, ◌⊎◌, inl, inr, Bool, true, false, Bool-cases, Option,
  none, some, ◌==◌, arith,
}
use advanced_programming_in.Kernel.{Kernel, Watch, Op}
use advanced_programming_in.EpollServer.{
  Variant, listen_events, client_events, Accepted, accepted, add_failed, Received, Server, start,
  accept_client, read_client, serve_event,
}

module _ (k : Kernel) (toupper : ℕ → ℕ) (serverfd : ℕ) where
  open k use {watched}

  -- The listening descriptor is watched as the program asked for, and so is each other descriptor in
  -- the set, under its own number.
  pub record IsServing (v : Variant) (s : Server k) : Type 0 where
    pub listening :
        watched s.epoll serverfd ≡ some (record { events = listen_events v; index = serverfd })
    pub clients :
        (fd : ℕ) (w : Watch)
        → fd ≢ serverfd
        → watched s.epoll fd ≡ some w
        → w ≡ record { events = client_events; index = fd }

  -- accept gives a descriptor that the set does not hold.
  abbrev pub IsFresh : Server k → Accepted → Type 0
  IsFresh s (accepted confd) = watched s.epoll confd ≡ none
  IsFresh s add_failed = Unit

  -- start, with a kernel that watches nothing yet and adds the listening descriptor, gives a server that watches the listening
  -- descriptor as the program asks for, and nothing else.
  pub start-IsServing :
      (v : Variant) (e : k.State)
      → ((fd : ℕ) → watched e fd ≡ none)
      → (let w : Watch = record { events = listen_events v; index = serverfd } in
          watched (k.ctl Op.add serverfd w e) serverfd ≡ some w)
      → IsServing v (start k toupper serverfd v e)
  unfolding start
  start-IsServing v e free added = record {
    listening = added;
    clients = λ fd w other h. absurd (
        cc (
          h,
          k.other Op.add e serverfd (record { events = listen_events v; index = serverfd }) fd
              other,
          free fd,
        ));
  }

  -- The server goes on after the event, in a state that serves, or it exits since epoll_ctl has
  -- refused the new descriptor.
  abbrev pub GoesOn : Variant → (fd : ℕ) → Accepted → Option (Server k) → Type 0
  GoesOn v fd a o =
      ((fd ≡ serverfd) × (a ≡ add_failed) × (o ≡ none))
      ⊎ ((t : Server k) × (o ≡ some t) × IsServing v t)

  module _ (v : Variant) (s : Server k) (inv : IsServing v s) where
    accept-IsServing :
        (confd : ℕ)
        → watched s.epoll confd ≡ none
        → IsServing v (record s {
          epoll = k.ctl Op.add confd (record { events = client_events; index = confd }) s.epoll;
        })
    accept-IsServing confd free =
        let w' : Watch = record { events = client_events; index = confd } in
        let new : serverfd ≢ confd = λ e. cc (inv.listening, free, ap (watched s.epoll) e) in
        record {
          listening = k.other Op.add s.epoll confd w' serverfd new ∙ inv.listening;
          clients = λ fd w client h. elim (Bool-cases (fd == confd)) [
            | inl e ↦
                let same : fd ≡ confd = ground arith in
                let h' = subst (λ g. watched (k.ctl Op.add confd w' s.epoll) g ≡ some w) same h in
                elim (k.add_new s.epoll confd w' free) [
                  | inl added ↦ let eq : w ≡ w' = cc (h', added) in rw same eq
                  | inr refused ↦ absurd (cc (h', refused))
                ]
            | inr e ↦
                let apart : fd ≢ confd = ground arith in
                inv.clients fd w client (sym (k.other Op.add s.epoll confd w' fd apart) ∙ h)
          ];
        }

    -- What a client that has closed leaves: its descriptor is out of the set, the others are not
    -- touched.
    closed_gone :
        (fd : ℕ)
        → (watched (read_client k toupper serverfd s fd Received.closed).epoll fd ≡ none)
          × ((g : ℕ)
              → g ≢ fd
              → watched (read_client k toupper serverfd s fd Received.closed).epoll g
                ≡ watched s.epoll g)
    unfolding read_client
    closed_gone fd =
        let w : Watch = record { events = client_events; index = fd } in
        (
          k.close_gone (k.ctl Op.delete fd w s.epoll) fd,
          λ g apart.
              k.close_other (k.ctl Op.delete fd w s.epoll) fd g apart
              ∙ k.other Op.delete s.epoll fd w g apart,
        )

    closed-IsServing :
        (fd : ℕ) → fd ≢ serverfd → IsServing v (read_client k toupper serverfd s fd Received.closed)
    closed-IsServing fd client =
        let (gone, others) = closed_gone fd in
        record {
          listening = others serverfd (λ e. client (sym e)) ∙ inv.listening;
          clients = λ g w other h. elim (Bool-cases (g == fd)) [
            | inl e ↦
                let same : g ≡ fd = ground arith in
                absurd (
                  cc (
                    h,
                    gone,
                    ap (watched (read_client k toupper serverfd s fd Received.closed).epoll) same,
                  ))
            | inr e ↦
                let apart : g ≢ fd = ground arith in
                inv.clients g w other (sym (others g apart) ∙ h)
          ];
        }

    read-IsServing :
        (fd : ℕ) (r : Received)
        → fd ≢ serverfd
        → IsServing v (read_client k toupper serverfd s fd r)
    unfolding read_client
    read-IsServing fd (Received.received bytes) client = record {
      listening = inv.listening;
      clients = inv.clients;
    }
    read-IsServing fd Received.closed client = closed-IsServing fd client
    read-IsServing fd Received.failed client = inv

    serve_listener :
        (fd : ℕ) (input : Bool) (a : Accepted) (r : Received)
        → (fd == serverfd) ≡ true
        → serve_event k toupper serverfd s fd input a r ≡ accept_client k toupper serverfd s a
    unfolding serve_event
    serve_listener fd input a r e = rw e refl

    serve_reader :
        (fd : ℕ) (a : Accepted) (r : Received)
        → (fd == serverfd) ≡ false
        → serve_event k toupper serverfd s fd true a r
          ≡ some (read_client k toupper serverfd s fd r)
    unfolding serve_event
    serve_reader fd a r e = rw e refl

    serve_other :
        (fd : ℕ) (a : Accepted) (r : Received)
        → (fd == serverfd) ≡ false
        → serve_event k toupper serverfd s fd false a r ≡ some s
    unfolding serve_event
    serve_other fd a r e = rw e refl

    accept-GoesOn :
        (fd : ℕ) (a : Accepted)
        → fd ≡ serverfd
        → IsFresh s a
        → GoesOn v fd a (accept_client k toupper serverfd s a)
    unfolding accept_client
    accept-GoesOn fd (accepted confd) same fresh = inr (_, refl, accept-IsServing confd fresh)
    accept-GoesOn fd add_failed same fresh = inl (same, refl, refl)

    -- Each event of a serving server, whatever the calls answer, leaves it serving: the listening
    -- descriptor stays watched with the events that the program asked for, and the set holds only
    -- clients under their own numbers. Only a refused registration of a new client ends the program.
    pub serve_event-GoesOn :
        (fd : ℕ) (input : Bool) (a : Accepted) (r : Received)
        → IsFresh s a
        → GoesOn v fd a (serve_event k toupper serverfd s fd input a r)
    serve_event-GoesOn fd input a r fresh = elim (Bool-cases (fd == serverfd)) [
      | inl e ↦
          let same : fd ≡ serverfd = ground arith in
          rw (serve_listener fd input a r e) (accept-GoesOn fd a same fresh)
      | inr e ↦
          let client : fd ≢ serverfd = ground arith in
          elim (Bool-cases input) [
            | inl i ↦ rw i (rw (serve_reader fd a r e) (inr (_, refl, read-IsServing fd r client)))
            | inr i ↦ rw i (rw (serve_other fd a r e) (inr (s, refl, inv)))
          ]
    ]
