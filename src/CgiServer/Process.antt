-- ===== src/CgiServer/Process.antt =====
-- process/CGI_server/cgi_server.h: cgi_conn::process over a socket, and the same on the list of the
-- bytes received.
use advanced_programming_in.Base.{
  length-take, ℕ, zero, suc, ◌-◌, ◌≤◌, ◌<◌, ◌≡◌, refl, ap, sym, ◌∙◌, Bool, inl, inr, Option, none,
  some, Option-cases, List, ◌++◌, Bool-cases, length, arith,
}
use mathlib.Core.Option
use advanced_programming_in.CgiServer.{
  Connection, buffer_size, c_string, take_data, Socket, Received, received, closed, again, failed,
  Forked, fork_failed, in_parent, in_child, Outcome, run_file, serve_file, turn_data, turn, process,
}
use advanced_programming_in.CgiServer.Line.{line}
use advanced_programming_in.CgiServer.Round.{content, IsReader, take_data_lem}

-- An outcome without the buffer: a connection that stays is known by the bytes received.
pub data Answer : Type 0 where
  waits_after : List ℕ → Answer
  is_removed : Answer
  executes_file : List ℕ → Answer
  no_answer : Answer

abbrev pub view : Outcome → Answer
view (Outcome.waiting c) = Answer.waits_after (content c)
view Outcome.removed = Answer.is_removed
view (Outcome.executes file) = Answer.executes_file file
view Outcome.out_of_fuel = Answer.no_answer

-- A connection between two calls of process.
pub record IsIdle (c : Connection) : Type 0 where
  pub reader : IsReader c
  pub fresh : line (content c) ≡ none

-- process ends, and if the connection stays it is ready for the next call.
abbrev pub Ends : Outcome → Type 0
Ends (Outcome.waiting c) = IsIdle c
Ends Outcome.out_of_fuel = ⊥
Ends o = Unit

length-content : (c : Connection) → IsReader c → length (content c) ≡ c.read_index
length-content c inv = length-take c.buf c.read_index (omega (arith, inv.size, inv.index))

module _ (exists : List ℕ → Bool) (fork : Forked) where
  -- process on the list of the bytes received.
  abbrev pub answer_line : (next : Answer) → Option (List ℕ) → Answer
  answer_line next none = next
  answer_line next (some l) = view (serve_file exists fork (c_string l))

  abbrev pub answer_turn : (next : List ℕ → Answer) → List ℕ → Received → Answer
  answer_turn next seen again = Answer.waits_after seen
  answer_turn next seen failed = Answer.is_removed
  answer_turn next seen closed = Answer.is_removed
  answer_turn next seen (received bytes) = answer_line (next (seen ++ bytes)) (line (seen ++ bytes))

  abbrev pub answer : (k : Socket) → (fuel : ℕ) → List ℕ → k.State → Answer
  answer k zero seen s = Answer.no_answer
  answer k (suc fuel) seen s =
      let (r, s') = k.recv (buffer_size - 1 - length seen) s in
      answer_turn (λ seen'. answer k fuel seen' s') seen r

  run_file-Ends : (f : Forked) (file : List ℕ) → Ends (run_file f file)
  unfolding run_file
  run_file-Ends fork_failed file = tt
  run_file-Ends in_parent file = tt
  run_file-Ends in_child file = tt

  serve_file-Ends : (file : List ℕ) → Ends (serve_file exists fork file)
  unfolding serve_file
  serve_file-Ends file = elim (Bool-cases (exists file)) [
    | inl e ↦ rw e (run_file-Ends fork file)
    | inr e ↦ rw e tt
  ]

  turn_data-Ends :
      (next : Connection → Outcome) (p : Connection × Option (List ℕ))
      → (p.1 ≡ none → Ends (next p.0))
      → Ends (turn_data exists fork next p)
  unfolding turn_data
  turn_data-Ends next (c, none) h = h refl
  turn_data-Ends next (c, some file) h = serve_file-Ends file

  turn_data-none :
      (next : Connection → Outcome) (p : Connection × Option (List ℕ))
      → p.1 ≡ none
      → turn_data exists fork next p ≡ next p.0
  unfolding turn_data
  turn_data-none next (c, none) e = refl
  turn_data-none next (c, some file) e = cc

  turn_data-some :
      (next : Connection → Outcome) (p : Connection × Option (List ℕ)) (file : List ℕ)
      → p.1 ≡ some file
      → turn_data exists fork next p ≡ serve_file exists fork file
  unfolding turn_data
  turn_data-some next (c, none) file e = cc
  turn_data-some next (c, some file') file e = ap (serve_file exists fork) (cc e)

  IsIdle-after :
      (c : Connection) (bytes : List ℕ)
      → IsIdle c
      → length bytes ≤ buffer_size - 1 - c.read_index
      → (take_data c bytes).1 ≡ none
      → IsIdle (take_data c bytes).0
        × (content (take_data c bytes).0 ≡ content c ++ bytes)
        × (line (content c ++ bytes) ≡ none)
  IsIdle-after c bytes idle room e =
      let (says, same, read, inv) = take_data_lem c bytes idle.reader room idle.fresh in
      let no_line : line (content c ++ bytes) ≡ none =
        elim (Option-cases (line (content c ++ bytes))) [
          | inl absent ↦ absent
          | inr (l, there) ↦ absurd (cc (says, e, ap (λ o. Option.map c_string o) there))
        ] in
      (record { reader = inv; fresh = ap line (same e) ∙ no_line }, same e, no_line)

  module _ (c : Connection) (idle : IsIdle c) where
    -- What recv gives fits the free part of the buffer.
    abbrev Fits : Received → Type 0
    Fits r =
        (bytes : List ℕ)
        → r ≡ received bytes
        → (0 < length bytes) × (length bytes ≤ buffer_size - 1 - c.read_index)

    turn-Ends :
        (next : Connection → Outcome) (r : Received)
        → Fits r
        → ((c' : Connection) → IsIdle c' → c.read_index < c'.read_index → Ends (next c'))
        → Ends (turn exists fork next c r)
    unfolding turn
    turn-Ends next again fits h = idle
    turn-Ends next failed fits h = tt
    turn-Ends next closed fits h = tt
    turn-Ends next (received bytes) fits h =
        let (some_bytes, room) = fits bytes refl in
        let (says, same, read, inv) = take_data_lem c bytes idle.reader room idle.fresh in
        turn_data-Ends next (take_data c bytes)
          (λ e. h (take_data c bytes).0 (IsIdle-after c bytes idle room e).0 (omega (arith, read)))

    turn_lem :
        (next : Connection → Outcome) (next' : List ℕ → Answer) (r : Received)
        → Fits r
        → ((c' : Connection) → IsIdle c' → view (next c') ≡ next' (content c'))
        → view (turn exists fork next c r) ≡ answer_turn next' (content c) r
    unfolding turn
    turn_lem next next' again fits h = refl
    turn_lem next next' failed fits h = refl
    turn_lem next next' closed fits h = refl
    turn_lem next next' (received bytes) fits h =
        let (some_bytes, room) = fits bytes refl in
        let (says, same, read, inv) = take_data_lem c bytes idle.reader room idle.fresh in
        elim (Option-cases (line (content c ++ bytes))) [
          | inl absent ↦
              let e : (take_data c bytes).1 ≡ none = says ∙ ap (Option.map c_string) absent in
              let idle' = (IsIdle-after c bytes idle room e).0 in
              ap view (turn_data-none next (take_data c bytes) e)
              ∙ (h (take_data c bytes).0 idle'
                  ∙ (ap next' (same e)
                      ∙ sym (ap (answer_line (next' (content c ++ bytes))) absent)))
          | inr (l, there) ↦
              let e : (take_data c bytes).1 ≡ some (c_string l) =
                says ∙ ap (Option.map c_string) there in
              ap view (turn_data-some next (take_data c bytes) (c_string l) e)
              ∙ sym (ap (answer_line (next' (content c ++ bytes))) there)
        ]

  module _ (k : Socket) where
    fits :
        (c : Connection) (idle : IsIdle c) (s : k.State)
        → Fits c idle (k.recv (buffer_size - 1 - c.read_index) s).0
    fits c idle s bytes e = k.bounded (buffer_size - 1 - c.read_index) s bytes e

    -- A call of process on a connection that is ready ends within as many turns as the buffer has
    -- free bytes, and one: it never reads on without an end, and if the connection stays, it is ready
    -- for the next call, with the buffer well-formed and no complete line in it.
    pub process-Ends :
        (fuel : ℕ) (c : Connection) (s : k.State)
        → IsIdle c
        → buffer_size - 1 - c.read_index < fuel
        → Ends (process exists fork k fuel c s)
    unfolding process
    process-Ends zero c s idle enough = absurd (omega arith)
    process-Ends (suc fuel) c s idle enough =
        let (r, s') = k.recv (buffer_size - 1 - c.read_index) s in
        turn-Ends c idle (λ c'. process exists fork k fuel c' s') r (fits c idle s)
          (λ c' idle' more. process-Ends fuel c' s' idle' (omega (arith, idle'.reader.index)))

    -- process on the buffer does what it does on the list of the bytes received: as long as they
    -- hold no "\r\n" it reads on, and with the first "\r\n" it serves the file that the bytes
    -- before it name.
    pub process_lem :
        (fuel : ℕ) (c : Connection) (s : k.State)
        → IsIdle c
        → view (process exists fork k fuel c s) ≡ answer k fuel (content c) s
    unfolding process
    process_lem zero c s idle = refl
    process_lem (suc fuel) c s idle =
        let (r, s') = k.recv (buffer_size - 1 - c.read_index) s in
        turn_lem c idle (λ c'. process exists fork k fuel c' s') (λ seen'. answer k fuel seen' s') r
          (fits c idle s) (λ c' idle'. process_lem fuel c' s' idle')
        ∙ ap
            (λ n.
              answer_turn (λ seen'. answer k fuel seen' (k.recv (buffer_size - 1 - n) s).1)
                (content c) (k.recv (buffer_size - 1 - n) s).0)
            (sym (length-content c idle.reader))
