-- ===== src/TimerServer/Handlers.antt =====
-- timer/timer_list/main.cpp: a new connection, and the end of one.
use advanced_programming_in.Base.{
  ℕ, ◌+◌, ◌*◌, ◌<◌, ◌≡◌, ◌≢◌, ap, ◌∙◌, none, some, List, [], ◌∷◌, ◌++◌, ◌⊎◌, inl, inr, length,
}
use advanced_programming_in.Kernel.{Kernel, Watch, Op}
use advanced_programming_in.TimerList.{Timers, delete_timer}
use advanced_programming_in.TimerList.Nodes.{null, Run, ok, write, ◌>>=◌}
use advanced_programming_in.TimerList.Segment.{
  Cell, timer_of, Misses, IsList, write_self, Linked-write,
}
use advanced_programming_in.TimerList.Insert.{AllBefore, IsNew, add_timer_last}
use advanced_programming_in.TimerList.Delete.{delete_timer_lem}
use advanced_programming_in.TimerServer.{
  timeslot, Client, Received, closed, failed, input_events, set_client, Server, addfd, cb_func,
  accept_client, close_client, read_client,
}

-- The timer that a connection gets.
abbrev pub new_timer : (confd addr now : ℕ) → Cell
new_timer confd addr now = record { addr = addr; expire = now + 3 * timeslot; user_data = confd }

module _ (k : Kernel) where
  open k use {watched}

  -- After a call back the client's descriptor is out of the set, and no other is touched.
  pub cb_func-gone : (c : Client) (e : k.State) → watched (cb_func k c e) c.confd ≡ none
  unfolding cb_func
  cb_func-gone c e =
      k.close_gone (k.ctl Op.delete c.confd (record { events = input_events; index = c.confd }) e)
        c.confd

  pub cb_func-other :
      (c : Client) (e : k.State) (g : ℕ) → g ≢ c.confd → watched (cb_func k c e) g ≡ watched e g
  unfolding cb_func
  cb_func-other c e g apart =
      let w : Watch = record { events = input_events; index = c.confd } in
      k.close_other (k.ctl Op.delete c.confd w e) c.confd g apart
      ∙ k.other Op.delete e c.confd w g apart

  -- A server without the client `fd`, whose timer is `t` among the timers `ls ++ t ∷ rs`.
  abbrev pub Leaves : Server k → (fd : ℕ) → List Cell → Run (Server k) → Type 0
  Leaves s fd cs r =
      (s' : Server k) × (r ≡ ok s')
      × IsList s'.timers cs
      × (watched s'.epoll (s.users fd).confd ≡ none)
      × ((g : ℕ) → g ≢ (s.users fd).confd → watched s'.epoll g ≡ watched s.epoll g)

  module _ (s : Server k) (fd : ℕ) (t : Cell) (ls rs : List Cell)
      (mine : (s.users fd).timer ≡ t.addr) (inv : IsList s.timers (ls ++ t ∷ rs)) where
    close_client_lem : Leaves s fd (ls ++ rs) (close_client k s fd)
    unfolding close_client
    close_client_lem =
        let (ts, e, list, gone, same) = delete_timer_lem s.timers t ls rs inv in
        let c = s.users fd in
        (
          record s { epoll = cb_func k c s.epoll; timers = ts },
          ap
                (λ p. delete_timer s.timers p >>= λ timers.
                  ok (record s { epoll = cb_func k c s.epoll; timers = timers }))
                mine
              ∙ ap
                  (λ r.
                    r >>= λ timers. ok (record s { epoll = cb_func k c s.epoll; timers = timers }))
                  e,
          list,
          cb_func-gone c s.epoll,
          λ g apart. cb_func-other c s.epoll g apart,
        )

    -- When recv reports the end of a client or an error, the client's timer leaves the list, whose
    -- other timers stay in their order, the descriptor that its client_data holds leaves epoll's
    -- set, and epoll goes on watching the others as before.
    pub read_client_lem :
        (fuel now : ℕ) (a : Received)
        → (a ≡ closed) ⊎ (a ≡ failed)
        → Leaves s fd (ls ++ rs) (read_client k fuel s fd a now)
    unfolding read_client
    read_client_lem fuel now a (inl e) = rw e close_client_lem
    read_client_lem fuel now a (inr e) = rw e close_client_lem

  module _ (s : Server k) (cs : List Cell) (inv : IsList s.timers cs) (fuel addr now confd : ℕ)
      (enough : length cs < fuel) (some_addr : addr ≢ null) (out : Misses addr cs)
      (all : AllBefore cs (now + 3 * timeslot)) where
    -- A new connection.
    pub accept_client_lem :
        (sockfd : ℕ)
        → (ts : Timers) × (accept_client k fuel s sockfd confd addr now
            ≡ ok (record s {
              epoll = addfd k confd s.epoll;
              users = set_client s.users confd (record { confd = sockfd; timer = addr });
              timers = ts;
            }))
          × IsList ts (cs ++ new_timer confd addr now ∷ [])
    unfolding accept_client
    accept_client_lem sockfd =
        let t = new_timer confd addr now in
        let n = timer_of t null null in
        let ts0 : Timers = record s.timers { heap = write s.timers.heap addr (some n) } in
        let inv0 : IsList ts0 cs = record {
          head = inv.head;
          tail = inv.tail;
          linked = Linked-write s.timers.heap addr (some n) null cs null out inv.linked;
        } in
        let fresh : IsNew ts0 t = record {
          some_addr = some_addr;
          there = write_self s.timers.heap addr (some n);
        } in
        let (ts, e, list, fired) = add_timer_last fuel ts0 t cs inv0 fresh out enough all in
        (
          ts,
          ap
              (λ r. r >>= λ timers. ok (record s {
                epoll = addfd k confd s.epoll;
                users = set_client s.users confd (record { confd = sockfd; timer = addr });
                timers = timers;
              }))
              e,
          list,
        )
