-- ===== src/CgiServer/Round.antt =====
-- process/CGI_server/cgi_server.h: a turn of the loop with new data, on the buffer and on the list of
-- the bytes received.
use advanced_programming_in.Base.{
  length-take, ℕ, suc, ◌+◌, ◌-◌, ◌≤◌, ◌<◌, ◌≡◌, refl, ap, sym, ◌∙◌, Bool-cases, inl, inr, none,
  some, List, ◌++◌, get_or, set, length, take, ◌==◌, arith, length-set, get_or-set_ne, true, false,
  length-replicate, get_or-replicate,
}
use mathlib.Core.Option
use native.Mathlib.Decide.{dec_lt}
use advanced_programming_in.CgiServer.{
  Connection, buffer_size, init, write_at, ends_line, find_line, c_string, take_data,
}
use advanced_programming_in.CgiServer.Line.{
  line, ends_line-zero, line_of-NoEnd, NoEnd-of_line, line_of_first, find_line_lem,
}
use advanced_programming_in.CgiServer.Buffer.{
  take-take, length-write_at, take-write_at, write_at-above, write_at-below, c_string-set,
  ends_line-take,
}

-- The bytes received so far.
abbrev pub content : Connection → List ℕ
content c = take c.read_index c.buf

-- The buffer has its size, the next byte goes before the last cell, and from there on the cells are 0.
pub record IsReader (c : Connection) : Type 0 where
  pub size : length c.buf ≡ buffer_size
  pub index : c.read_index ≤ buffer_size - 1
  pub zeros : (j : ℕ) → c.read_index ≤ j → get_or c.buf j 0 ≡ 0

pub init-IsReader : IsReader init
unfolding init
init-IsReader = record {
  size = length-replicate {A = ℕ} buffer_size 0;
  index = omega arith;
  zeros = λ j h. get_or-replicate {A = ℕ} buffer_size j 0;
}

module _ (c : Connection) (bytes : List ℕ) (inv : IsReader c)
    (room : length bytes ≤ buffer_size - 1 - c.read_index) where
  abbrev buf : List ℕ
  buf = write_at c.buf c.read_index bytes

  abbrev read : ℕ
  read = c.read_index + length bytes

  abbrev index : ℕ
  index = find_line (length bytes) c.read_index buf

  abbrev seen : List ℕ
  seen = content c ++ bytes

  take-buf : take read buf ≡ seen
  take-buf = take-write_at bytes c.buf c.read_index (omega (arith, inv.size, inv.index))

  length-buf : length buf ≡ buffer_size
  length-buf = length-write_at bytes c.buf c.read_index ∙ inv.size

  length-seen : length seen ≡ read
  length-seen =
      ap length (sym take-buf) ∙ length-take buf read (omega (arith, length-buf, inv.index))

  -- Below the read index no byte ends a line, and from there on none before the one that is found.
  none_before : line (content c) ≡ none → (j : ℕ) → suc j < index → ends_line seen (suc j) ≡ false
  none_before fresh j lt =
      let (low, high, before, at) = find_line_lem (length bytes) c.read_index buf in
      let in_seen : ends_line seen (suc j) ≡ ends_line buf (suc j) =
        ap (λ l. ends_line l (suc j)) (sym take-buf)
        ∙ ends_line-take buf read (suc j) (omega arith) in
      in_seen ∙ elim (dec_lt (suc j) c.read_index) [
        | yes p ↦
            let old = NoEnd-of_line (content c) fresh j (
              omega (arith, length-take c.buf c.read_index (omega (arith, inv.size, inv.index)))) in
            sym (ends_line-take buf c.read_index (suc j) p)
            ∙ (ap (λ l. ends_line l (suc j))
                  (write_at-below bytes c.buf c.read_index c.read_index (omega arith))
                ∙ old)
        | no q ↦ before (suc j) (omega (arith, q)) lt
      ]

  no_line : line (content c) ≡ none → index ≡ read → line seen ≡ none
  no_line fresh e =
      line_of-NoEnd seen (λ j lt. none_before fresh j (omega (arith, e, length-seen, lt)))

  a_line :
      (k : ℕ)
      → line (content c) ≡ none
      → index ≡ suc k
      → index < read
      → line seen ≡ some (take k buf)
  a_line k fresh e lt =
      let (low, high, before, at) = find_line_lem (length bytes) c.read_index buf in
      let here : ends_line seen (suc k) ≡ true =
        ap (λ l. ends_line l (suc k)) (sym take-buf)
        ∙ (ends_line-take buf read (suc k) (omega arith) ∙ (ap (ends_line buf) (sym e) ∙ at lt)) in
      line_of_first seen k (omega (arith, length-seen, e)) here
        (λ j a. none_before fresh j (omega (arith, e)))
      ∙ ap (λ r. some r) (ap (take k) (sym take-buf) ∙ take-take buf k read (omega (arith, e)))

  more_data :
      (index == read) ≡ true → take_data c bytes ≡ (record { buf = buf; read_index = read }, none)
  unfolding take_data
  more_data e = rw e refl

  complete :
      (index == read) ≡ false
      → take_data c bytes ≡ (
        record { buf = set buf (index - 1) 0; read_index = read },
        some (c_string (set buf (index - 1) 0)),
      )
  unfolding take_data
  complete e = rw e refl

  -- The line that is found starts before its "\r\n".
  found : line (content c) ≡ none → index < read → (k : ℕ) × (index ≡ suc k)
  found fresh lt =
      let (low, high, before, at) = find_line_lem (length bytes) c.read_index buf in
      let some_index : 0 < index = elim (Bool-cases (index == 0)) [
        | inl e ↦ let z : index ≡ 0 = ground arith in absurd (cc (at lt, z, ends_line-zero buf))
        | inr e ↦ ground arith
      ] in
      (index - 1, omega arith)

  -- A turn with new data answers as the list of all bytes received says: with the bytes before the
  -- first "\r\n", up to a '\0', or with nothing as long as there is no "\r\n"; then all bytes
  -- received are in the buffer. In either case the buffer stays well-formed.
  pub take_data_lem :
      line (content c) ≡ none
      → ((take_data c bytes).1 ≡ Option.map c_string (line (content c ++ bytes)))
        × ((take_data c bytes).1 ≡ none → content (take_data c bytes).0 ≡ content c ++ bytes)
        × ((take_data c bytes).0.read_index ≡ c.read_index + length bytes)
        × IsReader (take_data c bytes).0
  take_data_lem fresh =
      let (low, high, before, at) = find_line_lem (length bytes) c.read_index buf in
      let above : (j : ℕ) → read ≤ j → get_or buf j 0 ≡ 0 =
        λ j h. write_at-above bytes c.buf c.read_index j h ∙ inv.zeros j (omega arith) in
      elim (Bool-cases (index == read)) [
        | inl e ↦
            let same : index ≡ read = ground arith in
            rw (more_data e) (
              ap (Option.map c_string) (sym (no_line fresh same)),
              (λ h. take-buf),
              refl,
              record { size = length-buf; index = omega (arith, inv.index); zeros = above },
            )
        | inr e ↦
            let lt : index < read = ground arith in
            let (k, at_k) = found fresh lt in
            let below : index - 1 ≡ k = omega arith in
            rw (complete e) (
              ap (λ r. some r)
                    (c_string-set buf (index - 1) (omega (arith, length-buf, inv.index))
                      ∙ ap (λ n. c_string (take n buf)) below)
                  ∙ ap (Option.map c_string) (sym (a_line k fresh at_k lt)),
              (λ h. absurd (cc h)),
              refl,
              record {
                size = length-set buf (index - 1) 0 ∙ length-buf;
                index = omega (arith, inv.index);
                zeros = λ j h.
                    get_or-set_ne buf (index - 1) j 0 0 (λ q. absurd (omega (arith, q)))
                    ∙ above j h;
              },
            )
      ]
