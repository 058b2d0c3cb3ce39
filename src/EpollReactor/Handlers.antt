-- ===== src/EpollReactor/Handlers.antt =====
-- unix网络编程/IO多路复用/epoll/epoll_reactor/server.c: acceptconn, recvdata and senddata on each of
-- their branches, and the pointers that epoll keeps.
use advanced_programming_in.Base.{
  ℕ, zero, suc, ◌+◌, ◌≤◌, ◌<◌, ◌≡◌, ◌≢◌, refl, sym, ap, ◌∙◌, inl, inr, Bool, List, arith, length,
  length-set, get_or, ◌==◌, Bool-cases,
}
use advanced_programming_in.Kernel.{Events, Kernel}
use advanced_programming_in.EpollReactor.{
  max_events, epollin, epollout, Callback, Slot, blank, eventset, Accepted, accepted, accept_failed,
  Received, received, closed, recv_failed, Sent, sent, send_failed, fill, terminate, find_free,
  Server, slot, put, eventadd, eventdel, accept_connection, close_slot, rearm, receive, transmit,
}
use advanced_programming_in.EpollReactor.Slots
use advanced_programming_in.EpollReactor.Slots.{IsSound}
use advanced_programming_in.EpollReactor.Lengths.{eventdel-length, offered}

-- The loop of acceptconn stops at the first slot that is not in use, or at the end.
find_free_lem :
    (slots : List Slot) (k i : ℕ)
    → (i ≤ find_free slots k i)
      × (find_free slots k i ≤ i + k)
      × (find_free slots k i < i + k → (get_or slots (find_free slots k i) blank).status ≡ 0)
unfolding find_free
find_free_lem slots zero i = omega arith
find_free_lem slots (suc k) i = elim (Bool-cases ((get_or slots i blank).status == 0)) [
  | inl free ↦ rw free (omega arith, omega arith, λ h. ground arith)
  | inr used ↦
      let (lo, hi, at) = find_free_lem slots k (i + 1) in
      rw used (omega arith, omega arith, λ h. at (omega arith))
]

module _ (k : Kernel) where
  -- eventset and eventadd on a slot that is not in use.
  pub arm-IsSound :
      (s : Server k) (i fd : ℕ) (c : Callback) (events : Events) (now : ℕ)
      → IsSound k s
      → i < length s.slots
      → (slot k s i).status ≢ 1
      → IsSound k (eventadd k (put k s i (eventset (slot k s i) fd c i now)) i events)
  unfolding eventset
  arm-IsSound s i fd c events now inv lt off =
      let ev = eventset (slot k s i) fd c i now in
      Slots.eventadd-IsSound k (put k s i ev) i events
        (Slots.eventset-IsSound k s i fd c now inv lt off) (omega (arith, length-set s.slots i ev))
        (ap (λ (v : Slot). v.status) (Slots.slot-put_self k s i ev lt))

  rearm-IsSound :
      (s : Server k) (i : ℕ) (c : Callback) (events : Events) (now : ℕ)
      → IsSound k s
      → i < length s.slots
      → (slot k s i).status ≢ 1
      → IsSound k (rearm k s i c events now)
  unfolding rearm
  rearm-IsSound s i c events now inv lt off =
      arm-IsSound s i (slot k s i).fd c events now inv lt off

  pub receive-IsSound :
      (s : Server k) (i : ℕ) (answer : Received) (now : ℕ)
      → IsSound k s
      → i < length s.slots
      → IsSound k (receive k s i answer now)
  unfolding receive fill terminate
  receive-IsSound s i (received bytes) now inv lt =
      let ev = fill (slot k s i) bytes in
      let s1 = put k s i ev in
      let lt1 : i < length s1.slots = omega (arith, lt, length-set s.slots i ev) in
      let (sound2, off2) =
        Slots.eventdel-IsSound k s1 i
          (Slots.put-IsSound k s i ev inv lt (inv.args i) refl refl refl) lt1 in
      let s2 = eventdel k s1 i in
      let lt2 : i < length s2.slots = omega (arith, lt1, eventdel-length k s1 i) in
      let ev3 = terminate (slot k s2 i) (length bytes) in
      let s3 = put k s2 i ev3 in
      let off3 : (slot k s3 i).status ≢ 1 =
        λ q. off2 (sym (ap (λ (v : Slot). v.status) (Slots.slot-put_self k s2 i ev3 lt2)) ∙ q) in
      rearm-IsSound s3 i Callback.senddata epollout now
        (Slots.put-IsSound k s2 i ev3 sound2 lt2 (sound2.args i) refl refl refl)
        (omega (arith, lt2, length-set s2.slots i ev3)) off3
  receive-IsSound s i closed now inv lt =
      Slots.close_slot-IsSound k (eventdel k s i) i (Slots.eventdel-IsSound k s i inv lt).0
  receive-IsSound s i recv_failed now inv lt =
      Slots.close_slot-IsSound k (eventdel k s i) i (Slots.eventdel-IsSound k s i inv lt).0

  pub transmit-IsSound :
      (s : Server k) (i : ℕ) (answer : Sent) (now : ℕ)
      → IsSound k s
      → i < length s.slots
      → IsSound k (transmit k s i answer now)
  unfolding transmit
  transmit-IsSound s i answer now inv lt =
      let s1 = offered k s i in
      let sound1 : IsSound k s1 = record { data_ptr = inv.data_ptr; args = inv.args } in
      let (sound2, off2) = Slots.eventdel-IsSound k s1 i sound1 lt in
      let s2 = eventdel k s1 i in
      elim answer
        as (λ r. IsSound k (elim r [
          | sent ↦ rearm k s2 i Callback.recvdata epollin now
          | send_failed ↦ close_slot k s2 i
        ])) [
          | sent ↦
              rearm-IsSound s2 i Callback.recvdata epollin now sound2
                (omega (arith, lt, eventdel-length k s1 i)) off2
          | send_failed ↦ Slots.close_slot-IsSound k s2 i sound2
        ]

  pub accept-IsSound :
      (s : Server k) (answer : Accepted) (nonblock : Bool) (now : ℕ)
      → IsSound k s
      → max_events < length s.slots
      → IsSound k (accept_connection k s answer nonblock now)
  unfolding accept_connection
  accept-IsSound s accept_failed nonblock now inv room = inv
  accept-IsSound s (accepted fd) nonblock now inv room =
      let (lo, hi, free) = find_free_lem s.slots max_events 0 in
      elim (Bool-cases (find_free s.slots max_events 0 == max_events)) [
        | inl full ↦ rw full inv
        | inr found ↦ elim (Bool-cases nonblock) [
          | inr failed ↦ rw (found, failed) inv
          | inl set_up ↦
              let i = find_free s.slots max_events 0 in
              let lt : i < max_events = ground (arith, hi, found) in
              let off : (slot k s i).status ≢ 1 = λ q. absurd (omega (arith, q, free lt)) in
              rw (found, set_up)
                (arm-IsSound s i fd Callback.recvdata epollin now inv (omega (arith, lt, room)) off)
        ]
      ]
