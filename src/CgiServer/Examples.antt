-- ===== src/CgiServer/Examples.antt =====
-- process/CGI_server/cgi_server.h: runs on small inputs.
use advanced_programming_in.Base.{
  ℕ, zero, suc, ◌+◌, ◌≤◌, ◌<◌, ◌≡◌, refl, ap, Bool, true, none, List, [], ◌∷◌, ◌++◌, length, take,
  arith,
}
use mathlib.Core.Option
use advanced_programming_in.CgiServer.{
  init, write_at, ends_line, find_line, c_string, take_data, Socket, Received, received, closed,
  again, Forked, Outcome, serve_file, run_file, turn, turn_data, process,
}
use advanced_programming_in.CgiServer.Line.{line}
use advanced_programming_in.CgiServer.Round.{content, IsReader, init-IsReader, take_data_lem}
use advanced_programming_in.CgiServer.Process.{
  IsIdle, view, answer, Ends, process-Ends, process_lem,
}

-- A socket on which the chunks come in one after the other; a chunk that does not fit is cut off.
abbrev chunk : (room : ℕ) → List ℕ → Received
chunk zero bytes = closed
chunk (suc room) [] = again
chunk (suc room) (b ∷ bytes) = received (b ∷ take room bytes)

length-take-le : (n : ℕ) (l : List ℕ) → length (take n l) ≤ n
length-take-le zero l = omega arith
length-take-le (suc n) [] = omega arith
length-take-le (suc n) (x ∷ l) = omega (arith, length-take-le n l)

chunk-bounded :
    (room : ℕ) (s bytes : List ℕ)
    → chunk room s ≡ received bytes
    → (0 < length bytes) × (length bytes ≤ room)
chunk-bounded zero s bytes h = cc
chunk-bounded (suc room) [] bytes h = cc
chunk-bounded (suc room) (b ∷ s) bytes h =
    let e : b ∷ take room s ≡ bytes = cc in
    let l = ap length e in omega (arith, l, length-take-le room s)

recv_chunk : (room : ℕ) → List (List ℕ) → Received × List (List ℕ)
recv_chunk room [] = (again, [])
recv_chunk room (c ∷ cs) = (chunk room c, cs)

recv_chunk-bounded :
    (room : ℕ) (s : List (List ℕ)) (bytes : List ℕ)
    → (recv_chunk room s).0 ≡ received bytes
    → (0 < length bytes) × (length bytes ≤ room)
unfolding recv_chunk
recv_chunk-bounded room [] bytes h = cc
recv_chunk-bounded room (c ∷ cs) bytes h = chunk-bounded room c bytes h

abbrev chunks : Socket
chunks = record { State = List (List ℕ); recv = recv_chunk; bounded = recv_chunk-bounded }

-- "/a\r", then "\nx".
abbrev request : List (List ℕ)
request = (47 ∷ 97 ∷ 13 ∷ []) ∷ (10 ∷ 120 ∷ []) ∷ []

abbrev any_file : List ℕ → Bool
any_file file = true

init-IsIdle : IsIdle init
unfolding init
init-IsIdle = record { reader = init-IsReader; fresh = refl }

-- The line that comes in two pieces is served.
served : process any_file Forked.in_child chunks 3 init request ≡ Outcome.executes (47 ∷ 97 ∷ [])
unfolding process turn turn_data take_data init write_at find_line ends_line c_string serve_file
    run_file recv_chunk
served = refl

process-Ends_example : Ends (process any_file Forked.in_child chunks 1024 init request)
unfolding init
process-Ends_example =
    process-Ends any_file Forked.in_child chunks 1024 init request init-IsIdle (omega arith)

process_lem_example :
    view (process any_file Forked.in_child chunks 1024 init request)
    ≡ answer any_file Forked.in_child chunks 1024 (content init) request
process_lem_example = process_lem any_file Forked.in_child chunks 1024 init request init-IsIdle

take_data_lem_example :
    ((take_data init (97 ∷ 13 ∷ 10 ∷ [])).1
      ≡ Option.map c_string (line (content init ++ 97 ∷ 13 ∷ 10 ∷ [])))
    × ((take_data init (97 ∷ 13 ∷ 10 ∷ [])).1 ≡ none
        → content (take_data init (97 ∷ 13 ∷ 10 ∷ [])).0 ≡ content init ++ 97 ∷ 13 ∷ 10 ∷ [])
    × ((take_data init (97 ∷ 13 ∷ 10 ∷ [])).0.read_index ≡ init.read_index + 3)
    × IsReader (take_data init (97 ∷ 13 ∷ 10 ∷ [])).0
unfolding init
take_data_lem_example =
    take_data_lem init (97 ∷ 13 ∷ 10 ∷ []) init-IsReader (omega arith) init-IsIdle.fresh
