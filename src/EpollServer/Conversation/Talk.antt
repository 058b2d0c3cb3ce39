-- ===== src/EpollServer/Conversation/Talk.antt =====
-- unix网络编程/IO多路复用/epoll/epoll_ET/client.c and epoll_LT/client.c: the states that a client and the
-- server reach.
use advanced_programming_in.Base.{
  zero, suc, append-nil, nil_of_length, [], length-append, length-map, length-take, split_at,
  take-beyond, map-append, take-drop, length-drop, ℕ, ◌+◌, ◌≤◌, ◌<◌, ◌≡◌, refl, ap, sym, ◌∙◌, ◌⊎◌,
  true, List, [], ◌++◌, map, take, drop, length, append_assoc, arith,
}
use native.Mathlib.Decide.{dec_lt}
use advanced_programming_in.Kernel.{Kernel}
use advanced_programming_in.EpollServer.{Variant, Server}
use advanced_programming_in.EpollServer.Drain.{written, read-written}
use advanced_programming_in.EpollServer.Conversation.{
  System, initial, arriving, send_line, serve, print, Step, Reach, here, next,
}

module _ (k : Kernel) (toupper : ℕ → ℕ) (serverfd : ℕ) (v : Variant) (fd : ℕ) where
  abbrev returned : System k → List ℕ
  returned s = written fd s.server.output

  record Holds (s : System k) : Type 0 where
    all : returned s ++ map toupper s.pending ≡ map toupper s.sent
    seen : s.screen ≡ take (length s.screen) (returned s)
    shown : length s.screen ≤ length (returned s)
    behind : s.waiting ≡ true → 0 < s.last → length s.screen < length s.sent

  lengths : (s : System k) → Holds s → length (returned s) + length s.pending ≡ length s.sent
  lengths s h =
      let x = ap length h.all in
      let a = length-append (returned s) (map toupper s.pending) in
      omega (arith, x, a, length-map toupper s.pending, length-map toupper s.sent)

  send_line-Holds :
      (s : System k) (bytes : List ℕ) → Holds s → Holds (send_line k toupper serverfd v fd s bytes)
  send_line-Holds s bytes h = record {
    all =
        ap (λ r. returned s ++ r) (map-append toupper s.pending bytes)
        ∙ (sym (append_assoc (returned s) (map toupper s.pending) (map toupper bytes))
            ∙ (ap (λ r. r ++ map toupper bytes) h.all ∙ sym (map-append toupper s.sent bytes)));
    seen = h.seen;
    shown = h.shown;
    behind =
        λ w some_byte. omega (arith, some_byte, lengths s h, h.shown, length-append s.sent bytes);
  }

  serve-Holds : (s : System k) → Holds s → Holds (serve k toupper serverfd v fd s)
  serve-Holds s h =
      let got = take v.read_size s.pending in
      let rest = drop v.read_size s.pending in
      let e = read-written k toupper serverfd v s.server fd got in
      record {
        all =
            ap (λ r. r ++ map toupper rest) e
            ∙ (append_assoc (returned s) (map toupper got) (map toupper rest)
                ∙ (ap (λ r. returned s ++ r)
                      (sym (map-append toupper got rest)
                        ∙ ap (map toupper) (take-drop v.read_size s.pending))
                    ∙ h.all));
        seen =
            h.seen
            ∙ (sym (take-beyond (length s.screen) (returned s) (map toupper got) h.shown)
                ∙ ap (take (length s.screen)) (sym e));
        shown =
            let a = length-append (returned s) (map toupper got) in
            let b = ap length e in omega (arith, h.shown, a, b);
        behind = h.behind;
      }

  print-Holds :
      (s : System k) (n : ℕ)
      → Holds s
      → n ≤ length (arriving k toupper serverfd v fd s)
      → Holds (print k toupper serverfd v fd s n)
  print-Holds s n h fits =
      let m = length s.screen in
      let more = take n (drop m (returned s)) in
      let size : length (s.screen ++ more) ≡ m + n =
        length-append s.screen more ∙ ap (λ i. m + i) (length-take (drop m (returned s)) n fits) in
      record {
        all = h.all;
        seen =
            ap (λ r. r ++ more) h.seen
            ∙ (split_at m n (returned s) ∙ ap (λ i. take i (returned s)) (sym size));
        shown = omega (arith, size, fits, length-drop m (returned s), h.shown);
        behind = λ w some_byte. absurd (ground arith);
      }

  initial-Holds : (s : Server k) → written fd s.output ≡ [] → Holds (initial k s)
  initial-Holds s e = record {
    all = ap (λ r. r ++ []) e;
    seen = refl;
    shown = omega arith;
    behind = λ w some_byte. absurd (ground arith);
  }

  Step-Holds : {s t : System k} → Step k toupper serverfd v fd s t → Holds s → Holds t
  Step-Holds {s = s} (Step.line bytes idle few) h = send_line-Holds s bytes h
  Step-Holds {s = s} (Step.turn some_byte) h = serve-Holds s h
  Step-Holds {s = s} (Step.reply n waits some_byte few fits) h = print-Holds s n h fits

  -- Steps of the server only.
  pub data ServerTurns (s : System k) : System k → Type 0 where
    no_turn : ServerTurns s s
    one_more :
        {t : System k}
        → ServerTurns s t
        → 0 < length t.pending
        → ServerTurns s (serve k toupper serverfd v fd t)

  ServerTurns-trans : {s t u : System k} → ServerTurns s t → ServerTurns t u → ServerTurns s u
  ServerTurns-trans a no_turn = a
  ServerTurns-trans a (one_more b some_byte) = one_more (ServerTurns-trans a b) some_byte

  ServerTurns-Holds : {s t : System k} → ServerTurns s t → Holds s → Holds t
  ServerTurns-Holds no_turn h = h
  ServerTurns-Holds (one_more {t = t} a some_byte) h = serve-Holds t (ServerTurns-Holds a h)

  -- The server's turns empty what is on its way to it.
  all_served :
      (n : ℕ) (s : System k)
      → 0 < v.read_size
      → length s.pending < n
      → (t : System k) × ServerTurns s t × (t.sent ≡ s.sent) × (t.pending ≡ [])
  all_served zero s some_room few = absurd (omega (arith, few))
  all_served (suc n) s some_room few = elim (dec_lt 0 (length s.pending)) [
    | no none_left ↦ (s, no_turn, refl, nil_of_length s.pending (omega arith))
    | yes some_left ↦
        let (t, r, same, empty) =
          all_served n (serve k toupper serverfd v fd s) some_room
            (omega (arith, few, length-drop v.read_size s.pending)) in
        (t, ServerTurns-trans (one_more no_turn some_left) r, same, empty)
  ]

  module _ (s0 : Server k) (silent : written fd s0.output ≡ []) where
    Reach-Holds : {s : System k} → Reach k toupper serverfd v fd (initial k s0) s → Holds s
    Reach-Holds here = initial-Holds s0 silent
    Reach-Holds (next r st) = Step-Holds st (Reach-Holds r)

    -- In every state that a client and the server reach, when the server has written nothing to the
    -- client before and reads at least a byte in a turn: what the client has printed is the start of
    -- what it has sent, through toupper; a client that waits in read after a line that does not begin
    -- with '\0' gets a byte, or the server has one to read; and turns of the server, and nothing else,
    -- lead to a state in which it has written all that
    -- the client has sent back to it, through toupper.
    pub screen_in_order :
        {s : System k}
        → 0 < v.read_size
        → Reach k toupper serverfd v fd (initial k s0) s
        → ((rest : List ℕ) × (s.screen ++ rest ≡ map toupper s.sent))
          × (s.waiting ≡ true
              → 0 < s.last
              → (0 < length (arriving k toupper serverfd v fd s)) ⊎ (0 < length s.pending))
          × ((t : System k) × ServerTurns s t
              × (t.sent ≡ s.sent)
              × (written fd t.server.output ≡ map toupper s.sent))
    screen_in_order {s} some_room r =
        let h = Reach-Holds r in
        let (t, more, same, empty) = all_served (length s.pending + 1) s some_room (omega arith) in
        let h' = ServerTurns-Holds more h in
        let m = length s.screen in
        let rest = drop m (returned s) ++ map toupper s.pending in
        (
          (
            rest,
            sym (append_assoc s.screen (drop m (returned s)) (map toupper s.pending))
                ∙ (ap (λ r. r ++ map toupper s.pending)
                      (ap (λ r. r ++ drop m (returned s)) h.seen ∙ take-drop m (returned s))
                    ∙ h.all),
          ),
          λ w some_byte.
              let far = h.behind w some_byte in
              let total = lengths s h in
              let left = length-drop m (returned s) in ground (arith, far, total, left),
          (
            t,
            more,
            same,
            sym (append-nil (returned t))
                ∙ (ap (λ p. returned t ++ map toupper p) (sym empty)
                    ∙ (h'.all ∙ ap (map toupper) same)),
          ),
        )
