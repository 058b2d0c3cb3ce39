-- ===== src/EpollReactor/Slots.antt =====
-- unix网络编程/IO多路复用/epoll/epoll_reactor/server.c: the operations on a slot, and what the
-- pointers that epoll keeps have to do with the slots.
use native.Mathlib.Decide.{ℕ_discrete}
use advanced_programming_in.Base.{
  ℕ, ◌<◌, ◌≡◌, ◌≢◌, refl, sym, ap, subst, ◌∙◌, ◌⊎◌, inl, inr, true, some, arith, length,
  get_or-set_self, get_or-set_ne, ◌==◌, Bool-cases, Option-cases,
}
use advanced_programming_in.Kernel.{Events, Watch, Op, Kernel}
use advanced_programming_in.EpollReactor.{
  Callback, Slot, blank, eventset, Server, slot, put, eventadd, eventdel, close_slot,
}

module _ (k : Kernel) where
  open k use {watched}

  -- A slot is what epoll keeps of the descriptor `g`: in use for it, with the same events.
  abbrev pub Serves : Slot → (g : ℕ) → Events → Type 0
  Serves ev g e = (ev.status ≡ 1) × (ev.fd ≡ g) × (ev.events ≡ e)

  abbrev pub KnowsItself : Slot → ℕ → Type 0
  KnowsItself ev i = (ev.call_back ≡ Callback.unset) ⊎ (ev.arg ≡ i)

  -- The pointer that epoll keeps with a descriptor is that of a slot in use for this descriptor, with
  -- the events asked for; and a slot with a callback has its own pointer as the argument.
  pub record IsSound (s : Server k) : Type 0 where
    pub data_ptr :
        (g : ℕ) (w : Watch) → watched s.epoll g ≡ some w → Serves (slot k s w.index) g w.events
    pub args : (i : ℕ) → KnowsItself (slot k s i) i

  pub slot-put_self :
      (s : Server k) (i : ℕ) (ev : Slot) → i < length s.slots → slot k (put k s i ev) i ≡ ev
  slot-put_self s i ev h = get_or-set_self s.slots i ev blank h

  slot-put_ne : (s : Server k) (i j : ℕ) (ev : Slot) → i ≢ j → slot k (put k s i ev) j ≡ slot k s j
  slot-put_ne s i j ev h = get_or-set_ne s.slots i j ev blank h

  -- A change of one slot and of the kernel's state: each watch is that slot's, or one from before
  -- with another index.
  update-IsSound :
      (s : Server k) (i : ℕ) (ev : Slot) (e : k.State)
      → IsSound s
      → i < length s.slots
      → KnowsItself ev i
      → ((g : ℕ) (w : Watch)
          → watched e g ≡ some w
          → ((w.index ≡ i) × Serves ev g w.events) ⊎ ((w.index ≢ i) × (watched s.epoll g ≡ some w)))
      → IsSound (record (put k s i ev) { epoll = e })
  update-IsSound s i ev e inv lt own from = record {
    data_ptr = λ g w at. elim (from g w at) [
      | inl (here, serves) ↦
          subst (λ (v : Slot). Serves v g w.events)
            (sym (slot-put_self s i ev lt) ∙ ap (slot k (put k s i ev)) (sym here)) serves
      | inr (there, old) ↦
          subst (λ (v : Slot). Serves v g w.events)
            (sym (slot-put_ne s i w.index ev (λ q. there (sym q)))) (inv.data_ptr g w old)
    ];
    args = λ j. elim (ℕ_discrete i j) [
      | yes p ↦
          subst (λ n. KnowsItself (slot k (put k s i ev) n) n) p
            (subst (λ v. KnowsItself v i) (sym (slot-put_self s i ev lt)) own)
      | no n ↦ subst (λ v. KnowsItself v j) (sym (slot-put_ne s i j ev n)) (inv.args j)
    ];
  }

  -- A slot written with the same status, descriptor and events.
  pub put-IsSound :
      (s : Server k) (i : ℕ) (ev : Slot)
      → IsSound s
      → i < length s.slots
      → KnowsItself ev i
      → ev.status ≡ (slot k s i).status
      → ev.fd ≡ (slot k s i).fd
      → ev.events ≡ (slot k s i).events
      → IsSound (put k s i ev)
  put-IsSound s i ev inv lt own status fd events =
      update-IsSound s i ev s.epoll inv lt own (λ g w at. elim (ℕ_discrete w.index i) [
        | no n ↦ inr (n, at)
        | yes here ↦
            let (on, its_fd, its_events) =
              subst (λ n. Serves (slot k s n) g w.events) here (inv.data_ptr g w at) in
            inl (here, (status ∙ on, fd ∙ its_fd, events ∙ its_events))
      ])

  -- Nothing points to a slot that is not in use.
  no_watch :
      (s : Server k) (i g : ℕ) (w : Watch)
      → IsSound s
      → (slot k s i).status ≢ 1
      → watched s.epoll g ≡ some w
      → w.index ≢ i
  no_watch s i g w inv off at here =
      off (subst (λ n. (slot k s n).status ≡ 1) here (inv.data_ptr g w at).0)

  -- eventset on a slot that is not in use.
  pub eventset-IsSound :
      (s : Server k) (i fd : ℕ) (c : Callback) (now : ℕ)
      → IsSound s
      → i < length s.slots
      → (slot k s i).status ≢ 1
      → IsSound (put k s i (eventset (slot k s i) fd c i now))
  unfolding eventset
  eventset-IsSound s i fd c now inv lt off =
      update-IsSound s i (eventset (slot k s i) fd c i now) s.epoll inv lt (inr refl)
        (λ g w at. inr (no_watch s i g w inv off at, at))

  -- epoll_ctl may add the descriptor, refuse it, or find it there.
  eventadd_new :
      (s : Server k) (i : ℕ) (events : Events)
      → IsSound s
      → i < length s.slots
      → (slot k s i).status ≡ 0
      → IsSound (record (put k s i (record (slot k s i) { status = 1; events = events })) {
        epoll = k.ctl Op.add (slot k s i).fd (record { events = events; index = i }) s.epoll;
      })
  eventadd_new s i events inv lt off =
      let fd = (slot k s i).fd in
      let mine : Watch = record { events = events; index = i } in
      let free : (slot k s i).status ≢ 1 = λ q. absurd (omega (arith, q, off)) in
      update-IsSound s i (record (slot k s i) { status = 1; events = events })
        (k.ctl Op.add fd mine s.epoll) inv lt (inv.args i)
        (λ g w at. elim (ℕ_discrete g fd) [
          | no n ↦
              let old = sym (k.other Op.add s.epoll fd mine g n) ∙ at in
              inr (no_watch s i g w inv free old, old)
          | yes q ↦
              let at' : watched (k.ctl Op.add fd mine s.epoll) fd ≡ some w =
                subst (λ h. watched (k.ctl Op.add fd mine s.epoll) h ≡ some w) q at in
              elim (Option-cases (watched s.epoll fd)) [
                | inr (v, there) ↦
                    let same : some w ≡ some v = sym at' ∙ k.add_old s.epoll fd v mine there in
                    let old : watched s.epoll g ≡ some w =
                      ap (watched s.epoll) q ∙ there ∙ sym same in
                    inr (no_watch s i g w inv free old, old)
                | inl none_there ↦ elim (k.add_new s.epoll fd mine none_there) [
                  | inr refused ↦ absurd (cc (at', refused))
                  | inl added ↦
                      let same : w ≡ mine = cc (at', added) in
                      inl (
                        ap (λ (v : Watch). v.index) same,
                        (refl, sym q, sym (ap (λ (v : Watch). v.events) same)),
                      )
                ]
              ]
        ])

  pub eventadd-IsSound :
      (s : Server k) (i : ℕ) (events : Events)
      → IsSound s
      → i < length s.slots
      → (slot k s i).status ≡ 0
      → IsSound (eventadd k s i events)
  unfolding eventadd
  eventadd-IsSound s i events inv lt off =
      let e : ((slot k s i).status == 0) ≡ true = ground arith in
      rw e (eventadd_new s i events inv lt off)

  -- eventdel leaves no pointer to the slot.
  pub eventdel-IsSound :
      (s : Server k) (i : ℕ)
      → IsSound s
      → i < length s.slots
      → IsSound (eventdel k s i) × ((slot k (eventdel k s i) i).status ≢ 1)
  unfolding eventdel
  eventdel-IsSound s i inv lt = elim (Bool-cases ((slot k s i).status == 1)) [
    | inr off ↦ let out : (slot k s i).status ≢ 1 = ground arith in rw off (inv, out)
    | inl on ↦
        let ev : Slot = record (slot k s i) { status = 0 } in
        let mine : Watch = record { events = (slot k s i).events; index = i } in
        let e = k.ctl Op.delete (slot k s i).fd mine s.epoll in
        let sound : IsSound (record (put k s i ev) { epoll = e }) =
          update-IsSound s i ev e inv lt (inv.args i) (λ g w at.
            elim (ℕ_discrete g (slot k s i).fd) [
              | yes q ↦ absurd (
                  cc (
                    subst (λ h. watched e h ≡ some w) q at,
                    k.delete_old s.epoll (slot k s i).fd mine,
                  ))
              | no n ↦
                  let old = sym (k.other Op.delete s.epoll (slot k s i).fd mine g n) ∙ at in
                  inr (
                    λ here.
                        n (sym (subst (λ m. (slot k s m).fd ≡ g) here (inv.data_ptr g w old).1)),
                    old,
                  )
            ]) in
        let out = ap (λ (v : Slot). v.status) (slot-put_self s i ev lt) in
        rw on (sound, λ q. absurd (omega (arith, q, out)))
  ]

  pub close_slot-IsSound : (s : Server k) (i : ℕ) → IsSound s → IsSound (close_slot k s i)
  unfolding close_slot
  close_slot-IsSound s i inv = record {
    data_ptr = λ g w at. elim (ℕ_discrete g (slot k s i).fd) [
      | yes q ↦ absurd (
          cc (
            subst (λ h. watched (k.close (slot k s i).fd s.epoll) h ≡ some w) q at,
            k.close_gone s.epoll (slot k s i).fd,
          ))
      | no n ↦ inv.data_ptr g w (sym (k.close_other s.epoll (slot k s i).fd g n) ∙ at)
    ];
    args = inv.args;
  }
