-- ===== src/EpollReactor/Lengths.antt =====
-- unix网络编程/IO多路复用/epoll/epoll_reactor/server.c: the number of slots.
use advanced_programming_in.Base.{
  ℕ, ◌≡◌, refl, ◌∙◌, inl, inr, Bool, length, length-set, take, [], ◌∷◌, ◌++◌, ◌==◌, Bool-cases,
}
use advanced_programming_in.Kernel.{Events, Kernel}
use advanced_programming_in.EpollReactor.{
  max_events, epollin, epollout, Callback, unset, acceptconn, recvdata, senddata, Accepted,
  accepted, accept_failed, Received, received, closed, recv_failed, Sent, sent, send_failed, fill,
  Server, find_free, slot, put, eventadd, eventdel, close_slot, accept_connection, rearm, receive,
  transmit, Answers, dispatch,
}

module _ (k : Kernel) where
  -- The server once the data has been given to send.
  abbrev pub offered : Server k → ℕ → Server k
  offered s i = record s {
    output = s.output ++ ((slot k s i).fd, take (slot k s i).len (slot k s i).buf) ∷ [];
  }

  -- No handler changes the number of slots.
  pub eventdel-length : (s : Server k) (i : ℕ) → length (eventdel k s i).slots ≡ length s.slots
  unfolding eventdel
  eventdel-length s i = elim (Bool-cases ((slot k s i).status == 1)) [
    | inl on ↦ rw on (length-set s.slots i _)
    | inr off ↦ rw off
  ]

  pub eventadd-length :
      (s : Server k) (i : ℕ) (e : Events) → length (eventadd k s i e).slots ≡ length s.slots
  unfolding eventadd
  eventadd-length s i e = elim (Bool-cases ((slot k s i).status == 0)) [
    | inl off ↦ rw off (length-set s.slots i _)
    | inr on ↦ rw on (length-set s.slots i _)
  ]

  pub rearm-length :
      (s : Server k) (i : ℕ) (c : Callback) (e : Events) (now : ℕ)
      → length (rearm k s i c e now).slots ≡ length s.slots
  unfolding rearm
  rearm-length s i c e now = eventadd-length _ i e ∙ length-set s.slots i _

  pub accept-length :
      (s : Server k) (answer : Accepted) (nonblock : Bool) (now : ℕ)
      → length (accept_connection k s answer nonblock now).slots ≡ length s.slots
  unfolding accept_connection
  accept-length s accept_failed nonblock now = refl
  accept-length s (accepted fd) nonblock now =
      elim (Bool-cases (find_free s.slots max_events 0 == max_events)) [
        | inl full ↦ rw full
        | inr found ↦ elim (Bool-cases nonblock) [
          | inl yes_ ↦ rw (found, yes_) (eventadd-length _ _ epollin ∙ length-set s.slots _ _)
          | inr no_ ↦ rw (found, no_)
        ]
      ]

  pub receive-length :
      (s : Server k) (i : ℕ) (answer : Received) (now : ℕ)
      → length (receive k s i answer now).slots ≡ length s.slots
  unfolding receive close_slot
  receive-length s i (received bytes) now =
      rearm-length _ i senddata epollout now
      ∙ length-set _ i _
      ∙ eventdel-length (put k s i (fill (slot k s i) bytes)) i
      ∙ length-set s.slots i _
  receive-length s i closed now = eventdel-length s i
  receive-length s i recv_failed now = eventdel-length s i

  pub transmit-length :
      (s : Server k) (i : ℕ) (answer : Sent) (now : ℕ)
      → length (transmit k s i answer now).slots ≡ length s.slots
  unfolding transmit close_slot
  transmit-length s i sent now =
      rearm-length _ i recvdata epollin now ∙ eventdel-length (offered s i) i
  transmit-length s i send_failed now = eventdel-length (offered s i) i

  pub dispatch-length :
      (c : Callback) (s : Server k) (i : ℕ) (a : Answers k)
      → length (dispatch k c s i a).slots ≡ length s.slots
  unfolding dispatch
  dispatch-length unset s i a = refl
  dispatch-length acceptconn s i a = accept-length s a.accept a.nonblock a.now
  dispatch-length recvdata s i a = receive-length s i a.recv a.now
  dispatch-length senddata s i a = transmit-length s i a.send a.now
