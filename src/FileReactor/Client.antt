-- ===== src/FileReactor/Client.antt =====
-- unix网络编程/IO多路复用/epoll/reactor/server.c: what a client gets back, and its end.
use advanced_programming_in.Base.{
  ℕ, ◌<◌, ◌≡◌, ap, subst, sym, ◌∙◌, true, none, some, Option, List, [], ◌∷◌, ◌++◌, length, map,
  take, get_or-set_self, length-set,
}
use advanced_programming_in.Kernel.{Events}
use advanced_programming_in.FileReactor.{
  blank, epollin, epollout, Callback, MyEvent, received, closed, fill, Calls, Server, event_at, put,
  send_data, recv_data, Answers, serve,
}
use advanced_programming_in.FileReactor.Rearm.{
  IsWaiting, Willing, added, added_event, rearm_open, rearm_closed, added-IsWaiting, filled_data,
  serve_input, serve_output,
}

module _ (c : Calls) (toupper : ℕ → ℕ) where
  open c use {kernel}

  module _ (s : Server c toupper) (i fd : ℕ) (event : Events)
      (waits : IsWaiting c toupper s i fd event Callback.recvdata) where
    -- When a client has closed its connection, the program exits: recvdata closes the descriptor and
    -- then asks epoll to watch it.
    pub closed_ends :
        (a : Answers c toupper) → a.recv ≡ closed → serve c toupper s i epollin a ≡ none
    unfolding recv_data fill
    closed_ends a e =
        let ev = event_at c toupper s i in
        let s0 : Server c toupper = record (put c toupper s i (fill toupper ev [])) {
          epoll = kernel.close ev.fd s.epoll;
        } in
        let same = get_or-set_self s.events i (fill toupper ev []) blank waits.in_range in
        let range =
          subst (λ n. i < n) (sym (length-set s.events i (fill toupper ev []))) waits.in_range in
        let status = ap (λ (m : MyEvent). m.status) same ∙ waits.status in
        let shut =
          ap (λ (m : MyEvent). c.open_fd s0.epoll m.fd) same ∙ c.close_open s.epoll ev.fd in
        let ends = rearm_closed c toupper s0 i range status epollout Callback.senddata a.now shut in
        serve_input c toupper s i a waits.its_call
        ∙ (ap
              (λ r. elim (recv_data c toupper s i r a.now) as (λ o. Option (Server c toupper)) [
                | none ↦ none
                | some s' ↦ some s'
              ])
              e
            ∙ ap
                (λ o. elim o as (λ o. Option (Server c toupper)) [
                  | none ↦ none
                  | some s' ↦ some s'
                ])
                ends)

    -- Data of a client that is open, and the turn that sends, when send succeeds and epoll_ctl refuses
    -- no addition of the client's descriptor while it is open and not watched: the client gets the
    -- bytes through toupper, in order, and its event waits for input again.
    pub echo_upper :
        (bytes : List ℕ) (a b : Answers c toupper)
        → a.recv ≡ received bytes
        → 0 < length bytes
        → b.sent ≡ true
        → Willing c fd
        → (s1 s2 : Server c toupper) × (serve c toupper s i epollin a ≡ some s1)
          × (serve c toupper s1 i epollout b ≡ some s2)
          × (s2.output ≡ s.output ++ (fd, map toupper bytes) ∷ [])
          × IsWaiting c toupper s2 i fd epollin Callback.recvdata
    unfolding recv_data send_data fill
    echo_upper bytes a b got some_byte sent willing =
        let ev = event_at c toupper s i in
        let s0 : Server c toupper = put c toupper s i (fill toupper ev bytes) in
        let same : event_at c toupper s0 i ≡ fill toupper ev bytes =
          get_or-set_self s.events i (fill toupper ev bytes) blank waits.in_range in
        let range : i < length s0.events =
          subst (λ n. i < n) (sym (length-set s.events i (fill toupper ev bytes))) waits.in_range in
        let status : (event_at c toupper s0 i).status ≡ 1 =
          ap (λ (m : MyEvent). m.status) same ∙ waits.status in
        let its_fd : (event_at c toupper s0 i).fd ≡ fd =
          ap (λ (m : MyEvent). m.fd) same ∙ waits.its_fd in
        let opened : c.open_fd s0.epoll (event_at c toupper s0 i).fd ≡ true =
          ap (c.open_fd s.epoll) its_fd ∙ waits.opened in
        let s1 = added c toupper s0 i range status epollout Callback.senddata a.now in
        let e1 =
          serve_input c toupper s i a waits.its_call
          ∙ (ap
                (λ r. elim (recv_data c toupper s i r a.now) as (λ o. Option (Server c toupper)) [
                  | none ↦ none
                  | some s' ↦ some s'
                ])
                got
              ∙ ap
                  (λ o. elim o as (λ o. Option (Server c toupper)) [
                    | none ↦ none
                    | some s' ↦ some s'
                  ])
                  (rearm_open c toupper s0 i range status epollout Callback.senddata a.now
                    (subst (Willing c) (sym its_fd) willing) opened)) in
        let w1 =
          added-IsWaiting c toupper s0 i range status epollout Callback.senddata a.now
            (subst (Willing c) (sym its_fd) willing) opened in
        let ev1 = event_at c toupper s1 i in
        let sent_data : take ev1.datalen ev1.buf ≡ map toupper bytes =
          ap (λ (m : MyEvent). take m.datalen m.buf)
            (added_event c toupper s0 i range status epollout Callback.senddata a.now)
          ∙ filled_data c toupper s0 i ev bytes epollout Callback.senddata a.now same some_byte
              range status in
        let fd1 : ev1.fd ≡ fd = w1.its_fd ∙ its_fd in
        let s1' : Server c toupper = record s1 {
          output = s1.output ++ (ev1.fd, take ev1.datalen ev1.buf) ∷ [];
        } in
        let opened1 : c.open_fd s1'.epoll (event_at c toupper s1' i).fd ≡ true =
          ap (c.open_fd s1.epoll) w1.its_fd ∙ w1.opened in
        let s2 = added c toupper s1' i w1.in_range w1.status epollin Callback.recvdata b.now in
        let e2 =
          serve_output c toupper s1 i b w1.its_call
          ∙ (ap (λ z. send_data c toupper s1 i z b.now) sent
              ∙ rearm_open c toupper s1' i w1.in_range w1.status epollin Callback.recvdata b.now
                  (subst (Willing c) (sym (w1.its_fd ∙ its_fd)) willing) opened1) in
        (
          s1,
          s2,
          e1,
          e2,
          ap (λ d. s.output ++ d ∷ [])
              (ap (λ f. (f, take ev1.datalen ev1.buf)) fd1 ∙ ap (λ d. (fd, d)) sent_data),
          subst (λ f. IsWaiting c toupper s2 i f epollin Callback.recvdata) fd1
              (added-IsWaiting c toupper s1' i w1.in_range w1.status epollin Callback.recvdata b.now
                (subst (Willing c) (sym (w1.its_fd ∙ its_fd)) willing) opened1),
        )
