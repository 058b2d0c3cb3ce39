-- ===== src/EpollReactor/Echo.antt =====
-- unix网络编程/IO多路复用/epoll/epoll_reactor/server.c: what recvdata gets and senddata gives to send.
use advanced_programming_in.Base.{
  take-append, ℕ, suc, ◌<◌, ◌≡◌, refl, ap, ◌∙◌, inl, inr, true, false, List, [], ◌∷◌, ◌++◌, arith,
  length, length-set, take, drop, ◌==◌, Bool-cases,
}
use mathlib.Core.Path.{ap₂}
use advanced_programming_in.Kernel.{Events, Kernel}
use advanced_programming_in.EpollReactor.{
  epollin, epollout, Callback, Slot, eventset, received, Sent, sent, send_failed, fill, terminate,
  Server, slot, put, eventadd, eventdel, close_slot, rearm, receive, transmit,
}
use advanced_programming_in.EpollReactor.Slots
use advanced_programming_in.EpollReactor.Lengths.{eventdel-length, offered}

-- The slot after recvdata has got data.
abbrev to_send : Slot → ℕ → List ℕ → ℕ → Slot
to_send ev i bytes now =
    record (eventset (terminate (record (fill ev bytes) { status = 0 }) (length bytes)) ev.fd
      Callback.senddata i now) { status = 1; events = epollout }

module _ (k : Kernel) where
  eventdel_slot :
      (s : Server k) (i : ℕ)
      → i < length s.slots
      → (slot k s i).status ≡ 1
      → slot k (eventdel k s i) i ≡ record (slot k s i) { status = 0 }
  unfolding eventdel
  eventdel_slot s i lt on =
      let e : ((slot k s i).status == 1) ≡ true = ground arith in
      rw e (Slots.slot-put_self k s i (record (slot k s i) { status = 0 }) lt)

  rearm_slot :
      (s : Server k) (i : ℕ) (c : Callback) (e : Events) (now : ℕ)
      → i < length s.slots
      → slot k (rearm k s i c e now) i
        ≡ record (eventset (slot k s i) (slot k s i).fd c i now) { status = 1; events = e }
  unfolding rearm eventadd eventset
  rearm_slot s i c e now lt =
      let ev = eventset (slot k s i) (slot k s i).fd c i now in
      let t = put k s i ev in
      let own : slot k t i ≡ ev = Slots.slot-put_self k s i ev lt in
      let off : ((slot k t i).status == 0) ≡ true = ap (λ (v : Slot). v.status == 0) own in
      rw off (
        Slots.slot-put_self k t i (record (slot k t i) { status = 1; events = e })
          (omega (arith, lt, length-set s.slots i ev))
        ∙ ap (λ (v : Slot). record v { status = 1; events = e }) own)

  receive_slot :
      (s : Server k) (i : ℕ) (bytes : List ℕ) (now : ℕ)
      → i < length s.slots
      → (slot k s i).status ≡ 1
      → slot k (receive k s i (received bytes) now) i ≡ to_send (slot k s i) i bytes now
  unfolding receive fill terminate
  receive_slot s i bytes now lt on =
      let ev = fill (slot k s i) bytes in
      let s1 = put k s i ev in
      let e1 : slot k s1 i ≡ ev = Slots.slot-put_self k s i ev lt in
      let lt1 : i < length s1.slots = omega (arith, lt, length-set s.slots i ev) in
      let s2 = eventdel k s1 i in
      let e2 : slot k s2 i ≡ record ev { status = 0 } =
        eventdel_slot s1 i lt1 (ap (λ (v : Slot). v.status) e1 ∙ on)
        ∙ ap (λ (v : Slot). record v { status = 0 }) e1 in
      let lt2 : i < length s2.slots = omega (arith, lt1, eventdel-length k s1 i) in
      let ev3 = terminate (slot k s2 i) (length bytes) in
      let e3 : slot k (put k s2 i ev3) i ≡ terminate (record ev { status = 0 }) (length bytes) =
        Slots.slot-put_self k s2 i ev3 lt2 ∙ ap (λ (v : Slot). terminate v (length bytes)) e2 in
      rearm_slot (put k s2 i ev3) i Callback.senddata epollout now
        (omega (arith, lt2, length-set s2.slots i ev3))
      ∙ ap
          (λ (v : Slot). record (eventset v v.fd Callback.senddata i now) {
            status = 1;
            events = epollout;
          })
          e3

  -- What is given to send is noted by transmit alone.
  eventdel-output : (s : Server k) (i : ℕ) → (eventdel k s i).output ≡ s.output
  unfolding eventdel
  eventdel-output s i = elim (Bool-cases ((slot k s i).status == 1)) [
    | inl on ↦ rw on
    | inr off ↦ rw off
  ]

  eventadd-output : (s : Server k) (i : ℕ) (e : Events) → (eventadd k s i e).output ≡ s.output
  unfolding eventadd
  eventadd-output s i e = elim (Bool-cases ((slot k s i).status == 0)) [
    | inl off ↦ rw off
    | inr on ↦ rw on
  ]

  receive-output :
      (s : Server k) (i : ℕ) (bytes : List ℕ) (now : ℕ)
      → (receive k s i (received bytes) now).output ≡ s.output
  unfolding receive rearm
  receive-output s i bytes now =
      eventadd-output _ i epollout ∙ eventdel-output (put k s i (fill (slot k s i) bytes)) i

  transmit-output :
      (s : Server k) (i : ℕ) (answer : Sent) (now : ℕ)
      → (transmit k s i answer now).output
        ≡ s.output ++ ((slot k s i).fd, take (slot k s i).len (slot k s i).buf) ∷ []
  unfolding transmit rearm close_slot
  transmit-output s i sent now = eventadd-output _ i epollin ∙ eventdel-output (offered k s i) i
  transmit-output s i send_failed now = eventdel-output (offered k s i) i

  -- The data in the slot after recvdata.
  to_send_data :
      (ev : Slot) (i : ℕ) (bytes : List ℕ) (now : ℕ)
      → 0 < length bytes
      → take (to_send ev i bytes now).len (to_send ev i bytes now).buf ≡ bytes
  unfolding eventset terminate fill
  to_send_data ev i [] now h = absurd (omega arith)
  to_send_data ev i (b ∷ bytes) now h =
      let e : (suc (length bytes) == 0) ≡ false = ground arith in
      rw e (take-append (b ∷ bytes) (drop (length (b ∷ bytes)) ev.buf) 0)

  to_send_fd : (ev : Slot) (i : ℕ) (bytes : List ℕ) (now : ℕ) → (to_send ev i bytes now).fd ≡ ev.fd
  unfolding eventset
  to_send_fd ev i bytes now = refl

  -- The echo: on an active slot, what recvdata has got is what the next senddata gives to send, whole,
  -- in order and on the same descriptor.
  pub echo :
      (s : Server k) (i : ℕ) (bytes : List ℕ) (answer : Sent) (now later : ℕ)
      → i < length s.slots
      → (slot k s i).status ≡ 1
      → 0 < length bytes
      → (transmit k (receive k s i (received bytes) now) i answer later).output
        ≡ s.output ++ ((slot k s i).fd, bytes) ∷ []
  echo s i bytes answer now later lt on some_bytes =
      let t = receive k s i (received bytes) now in
      let own = receive_slot s i bytes now lt on in
      transmit-output t i answer later
      ∙ ap₂ (λ o e. o ++ e ∷ []) (receive-output s i bytes now)
          (ap (λ (v : Slot). (v.fd, take v.len v.buf)) own
            ∙ ap₂ (λ f b. (f, b)) (to_send_fd (slot k s i) i bytes now)
                (to_send_data (slot k s i) i bytes now some_bytes))
