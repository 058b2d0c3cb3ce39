-- ===== src/EpollReactor/Loop.antt =====
-- unix网络编程/IO多路复用/epoll/epoll_reactor/server.c: the start of the server, and one turn of the
-- event loop.
use advanced_programming_in.Base.{
  ℕ, suc, ◌<◌, ◌≡◌, refl, ap, inl, inr, none, [], arith, length, replicate, length-replicate,
  get_or-replicate, Bool-cases, ◌&&◌,
}
use advanced_programming_in.Kernel.{Events, Kernel}
use advanced_programming_in.EpollReactor.{
  max_events, epollin, Callback, unset, acceptconn, recvdata, senddata, Slot, blank, Server, slot,
  init_listen, Answers, dispatch, call, serve,
}
use advanced_programming_in.EpollReactor.Slots.{IsSound}
use advanced_programming_in.EpollReactor.Handlers.{
  arm-IsSound, receive-IsSound, transmit-IsSound, accept-IsSound,
}
use advanced_programming_in.EpollReactor.Lengths.{dispatch-length}

module _ (k : Kernel) where
  open k use {watched}

  -- The server before initlistensocket: each slot is blank.
  abbrev pub zeroed : k.State → Server k
  zeroed e = record { slots = replicate (suc max_events) blank; epoll = e; output = [] }

  -- initlistensocket, with an instance that watches nothing yet, starts with a sound state.
  pub init_listen-IsSound :
      (e : k.State) (lfd now : ℕ)
      → ((g : ℕ) → watched e g ≡ none)
      → IsSound k (init_listen k (zeroed e) lfd now)
  unfolding init_listen
  init_listen-IsSound e lfd now free =
      let each : (i : ℕ) → slot k (zeroed e) i ≡ blank =
        λ i. get_or-replicate (suc max_events) i blank in
      let sound : IsSound k (zeroed e) = record {
        data_ptr = λ g w at. absurd (cc (at, free g));
        args = λ i. inl (ap (λ (v : Slot). v.call_back) (each i));
      } in
      let unused : (slot k (zeroed e) max_events).status ≡ 0 =
        ap (λ (v : Slot). v.status) (each max_events) in
      arm-IsSound k (zeroed e) max_events lfd acceptconn epollin now sound
        (omega (arith, length-replicate (suc max_events) blank))
        (λ q. absurd (omega (arith, q, unused)))

  module _ (i : ℕ) (a : Answers k) where
    dispatch-IsSound :
        (c : Callback) (s : Server k)
        → IsSound k s
        → max_events < length s.slots
        → i < length s.slots
        → IsSound k (dispatch k c s i a)
    unfolding dispatch
    dispatch-IsSound unset s inv room lt = inv
    dispatch-IsSound acceptconn s inv room lt =
        accept-IsSound k s a.accept a.nonblock a.now inv room
    dispatch-IsSound recvdata s inv room lt = receive-IsSound k s i a.recv a.now inv lt
    dispatch-IsSound senddata s inv room lt = transmit-IsSound k s i a.send a.now inv lt

    -- A callback, and the number of slots, which it keeps.
    call-IsSound :
        (s : Server k)
        → IsSound k s
        → max_events < length s.slots
        → i < length s.slots
        → IsSound k (call k s i a) × (length (call k s i a).slots ≡ length s.slots)
    unfolding call dispatch
    call-IsSound s inv room lt = elim (inv.args i) [
      | inl none_set ↦ rw none_set (inv, refl)
      | inr its_arg ↦ rw its_arg (
        dispatch-IsSound (slot k s i).call_back s inv room lt,
        dispatch-length k (slot k s i).call_back s i a,
      )
    ]

    -- One turn of the loop for a slot of the array, whatever it is ready for and whatever the handlers'
    -- calls answer, epoll_ctl included, which may refuse a descriptor, keeps a sound server sound: each
    -- pointer that epoll keeps is that of a slot in use for its descriptor, with the events asked for,
    -- and each slot with a callback has its own pointer as the argument. This holds also where the loop
    -- makes two callbacks in the turn.
    pub serve-IsSound :
        (s : Server k) (ready : Events)
        → IsSound k s
        → max_events < length s.slots
        → i < length s.slots
        → IsSound k (serve k s i ready a)
    unfolding serve
    serve-IsSound s ready inv room lt =
        let (sound, size) = call-IsSound s inv room lt in
        let t = call k s i a in
        elim (Bool-cases (ready.input && (slot k s i).events.input)) [
          | inl go ↦ elim (Bool-cases (ready.output && (slot k t i).events.output)) [
            | inl more ↦ rw go (
                rw more
                  (call-IsSound t sound (omega (arith, room, size)) (omega (arith, lt, size))).0)
            | inr done ↦ rw go (rw done sound)
          ]
          | inr skip ↦ elim (Bool-cases (ready.output && (slot k s i).events.output)) [
            | inl more ↦ rw skip (rw more sound)
            | inr done ↦ rw skip (rw done inv)
          ]
        ]
