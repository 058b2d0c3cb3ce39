-- ===== src/FileReactor/Rearm.antt =====
-- unix网络编程/IO多路复用/epoll/reactor/server.c: event_del, event_set and event_add on an event
-- in use.
use advanced_programming_in.Base.{
  take-append, ℕ, suc, ◌<◌, ◌≡◌, refl, ap, subst, sym, ◌∙◌, true, false, none, some, Option, List,
  [], ◌∷◌, ◌++◌, length, map, set, take, drop, get_or-set_self, length-set, ◌==◌, if◌then◌else◌,
  arith, replicate,
}
use advanced_programming_in.Kernel.{Events, Watch, Op}
use advanced_programming_in.FileReactor.{
  blank, bufsize, epollin, epollout, Callback, MyEvent, event_set, fill, Calls, Server, event_at,
  put, event_add, event_del, rearm, send_data, recv_data, Answers, call, serve,
}

-- epoll_ctl refuses no addition of `fd` while it is open and not watched.
abbrev pub Willing : Calls → (fd : ℕ) → Type 0
Willing c fd =
    (e : c.kernel.State)
    → c.open_fd e fd ≡ true
    → c.kernel.watched e fd ≡ none
    → c.accepts e Op.add fd ≡ true

module _ (c : Calls) (toupper : ℕ → ℕ) where
  open c use {kernel}

  -- The event `i` waits for `event` with `call_back`, and epoll watches its open descriptor.
  pub record IsWaiting (s : Server c toupper) (i fd : ℕ) (event : Events) (call_back : Callback)
      : Type 0 where
    pub in_range : i < length s.events
    pub its_fd : (event_at c toupper s i).fd ≡ fd
    pub its_call : (event_at c toupper s i).call_back ≡ call_back
    pub status : (event_at c toupper s i).status ≡ 1
    pub opened : c.open_fd s.epoll fd ≡ true
    pub watched : kernel.watched s.epoll fd ≡ some (record { events = event; index = i })

  event_del_on :
      (s : Server c toupper) (i : ℕ)
      → (event_at c toupper s i).status ≡ 1
      → event_del c toupper s i ≡ record s {
        epoll =
            kernel.ctl Op.delete
              (event_at c toupper s i).fd
              (record { events = (event_at c toupper s i).event; index = i })
              s.epoll;
      }
  unfolding event_del
  event_del_on s i e = rw e refl

  event_add_new :
      (s : Server c toupper) (i : ℕ) (ev : MyEvent)
      → event_at c toupper s i ≡ ev
      → ev.status ≡ 0
      → event_add c toupper s i ≡ (
          if c.accepts s.epoll Op.add ev.fd
          then some (record s {
            events = set s.events i (record ev { status = 1 });
            epoll = kernel.ctl Op.add ev.fd (record { events = ev.event; index = i }) s.epoll;
          })
          else none)
  unfolding event_add
  event_add_new s i ev e zero = rw e (rw zero refl)

  module _ (s : Server c toupper) (i : ℕ) (in_range : i < length s.events)
      (status : (event_at c toupper s i).status ≡ 1) (event : Events) (call_back : Callback)
      (now : ℕ) where
    abbrev pub mine : MyEvent
    mine = event_at c toupper s i

    abbrev pub renewed : MyEvent
    renewed = record mine {
      event = event;
      call_back = call_back;
      status = 0;
      buf = if mine.datalen == 0 then replicate bufsize 0 else mine.buf;
      last_active = now;
    }

    abbrev pub deleted : kernel.State
    deleted = kernel.ctl Op.delete mine.fd (record { events = mine.event; index = i }) s.epoll

    abbrev pub added : Server c toupper
    added = record s {
      events = set (set s.events i renewed) i (record renewed { status = 1 });
      epoll = kernel.ctl Op.add mine.fd (record { events = event; index = i }) deleted;
    }

    -- event_del, event_set and event_add on an event in use.
    rearm_on :
        rearm c toupper s i event call_back now
        ≡ (if c.accepts deleted Op.add mine.fd then some added else none)
    unfolding rearm event_set
    rearm_on =
        ap
          (λ t.
            event_add c toupper
              (put c toupper t i (
                event_set (event_at c toupper t i) (event_at c toupper t i).fd event call_back now))
              i)
          (event_del_on s i status)
        ∙ event_add_new (record s { events = set s.events i renewed; epoll = deleted }) i renewed
            (get_or-set_self s.events i renewed blank in_range) refl

    pub added_event : event_at c toupper added i ≡ record renewed { status = 1 }
    added_event =
        get_or-set_self (set s.events i renewed) i (record renewed { status = 1 }) blank
          (subst (λ n. i < n) (sym (length-set s.events i renewed)) in_range)

    pub rearm_open :
        Willing c mine.fd
        → c.open_fd s.epoll mine.fd ≡ true
        → rearm c toupper s i event call_back now ≡ some added
    rearm_open willing opened =
        let w : Watch = record { events = mine.event; index = i } in
        let still = c.ctl_open s.epoll Op.delete mine.fd w mine.fd ∙ opened in
        let yes_add = willing deleted still (kernel.delete_old s.epoll mine.fd w) in
        rearm_on ∙ ap (λ b. if b then some added else none) yes_add

    pub rearm_closed :
        c.open_fd s.epoll mine.fd ≡ false → rearm c toupper s i event call_back now ≡ none
    rearm_closed shut =
        let w : Watch = record { events = mine.event; index = i } in
        let still = c.ctl_open s.epoll Op.delete mine.fd w mine.fd ∙ shut in
        rearm_on ∙ ap (λ b. if b then some added else none) (c.refuses deleted Op.add mine.fd still)

    pub added-IsWaiting :
        Willing c mine.fd
        → c.open_fd s.epoll mine.fd ≡ true
        → IsWaiting added i mine.fd event call_back
    added-IsWaiting willing opened =
        let w : Watch = record { events = mine.event; index = i } in
        let w' : Watch = record { events = event; index = i } in
        record {
          in_range =
              subst (λ n. i < n)
                (sym (
                  length-set (set s.events i renewed) i (record renewed { status = 1 })
                  ∙ length-set s.events i renewed))
                in_range;
          its_fd = ap (λ (e : MyEvent). e.fd) added_event;
          its_call = ap (λ (e : MyEvent). e.call_back) added_event;
          status = ap (λ (e : MyEvent). e.status) added_event;
          opened =
              c.ctl_open deleted Op.add mine.fd w' mine.fd
              ∙ (c.ctl_open s.epoll Op.delete mine.fd w mine.fd ∙ opened);
          watched =
              let still = c.ctl_open s.epoll Op.delete mine.fd w mine.fd ∙ opened in
              let free = kernel.delete_old s.epoll mine.fd w in
              c.registers deleted mine.fd w' (willing deleted still free) free;
        }

  -- The data that stand in an event after recvdata and its rearm.
  pub filled_data :
      (s : Server c toupper) (i : ℕ) (ev : MyEvent) (bytes : List ℕ) (event : Events)
      (call_back : Callback) (now : ℕ)
      → event_at c toupper s i ≡ fill toupper ev bytes
      → 0 < length bytes
      → ((in_range : i < length s.events) (status : (event_at c toupper s i).status ≡ 1)
          → (take
              (renewed s i in_range status event call_back now).datalen
              (renewed s i in_range status event call_back now).buf)
            ≡ map toupper bytes)
  unfolding fill
  filled_data s i ev [] event call_back now e some_byte in_range status = absurd (omega arith)
  filled_data s i ev (b ∷ bytes) event call_back now e some_byte in_range status =
      let upper = map toupper (b ∷ bytes) in
      let no_zero : (suc (length (map toupper bytes)) == 0) ≡ false = ground arith in
      ap (λ (m : MyEvent). take m.datalen (if m.datalen == 0 then replicate bufsize 0 else m.buf)) e
      ∙ (ap
            (λ z. take (length upper) (
              if z
              then replicate bufsize 0
              else set (upper ++ drop (length upper) ev.buf) (length upper) 0))
            no_zero
          ∙ take-append upper (drop (length upper) ev.buf) 0)

  pub serve_input :
      (s : Server c toupper) (i : ℕ) (a : Answers c toupper)
      → (event_at c toupper s i).call_back ≡ Callback.recvdata
      → serve c toupper s i epollin a
        ≡ elim (recv_data c toupper s i a.recv a.now) [ none ↦ none | some s' ↦ some s' ]
  unfolding serve call
  serve_input s i a e =
      ap
        (λ f. elim (call c toupper f s i a) as (λ o. Option (Server c toupper)) [
          | none ↦ none
          | some s' ↦ some s'
        ])
        e

  pub serve_output :
      (s : Server c toupper) (i : ℕ) (a : Answers c toupper)
      → (event_at c toupper s i).call_back ≡ Callback.senddata
      → serve c toupper s i epollout a ≡ send_data c toupper s i a.sent a.now
  unfolding serve call
  serve_output s i a e = ap (λ f. call c toupper f s i a) e
