-- ===== src/CgiServer.antt =====
-- process/CGI_server/cgi_server.h: cgi_conn, the reader of a client's request. The socket is a
-- parameter; what access and fork answer are arguments. Bytes are numbers.
pub mod Line
pub mod Buffer
pub mod Round
pub mod Process
mod Examples
use advanced_programming_in.Base.{
  ℕ, zero, suc, ◌+◌, ◌-◌, ◌≤◌, ◌<◌, ◌≡◌, Bool, true, false, Option, none, some, List, [], ◌∷◌,
  get_or, set, replicate, length, leb, ◌==◌, ◌&&◌, if◌then◌else◌,
}

-- BUFFER_SIZE
abbrev pub buffer_size : ℕ
buffer_size = 1024

-- buf and read_index
pub record Connection : Type 0 where
  pub buf : List ℕ
  pub read_index : ℕ

-- init
pub init : Connection
init = record { buf = replicate buffer_size 0; read_index = 0 }

-- What recv returns: data, 0, -1 with EAGAIN, and -1 with another error.
pub data Received : Type 0 where
  received : List ℕ → Received
  closed : Received
  again : Received
  failed : Received

-- A client's socket. recv returns data only of one byte at least, and of no more bytes than it was
-- asked for.
pub record Socket : Type 1 where
  pub State : Type 0
  pub recv : (room : ℕ) → State → Received × State
  pub bounded :
      (room : ℕ) (s : State) (bytes : List ℕ)
      → (recv room s).0 ≡ Received.received bytes
      → (0 < length bytes) × (length bytes ≤ room)

-- recv into the buffer from `i` on.
pub write_at : List ℕ → ℕ → List ℕ → List ℕ
write_at buf i [] = buf
write_at buf i (b ∷ bytes) = write_at (set buf i b) (i + 1) bytes

-- index >= 1 && buf[index-1] == '\r' && buf[index] == '\n'
pub ends_line : List ℕ → ℕ → Bool
ends_line buf i = leb 1 i && (get_or buf (i - 1) 0 == 13) && (get_or buf i 0 == 10)

-- The for loop from `i` on over `rounds` bytes: the index where it breaks or ends.
pub find_line : (rounds i : ℕ) → List ℕ → ℕ
find_line zero i buf = i
find_line (suc rounds) i buf =
    let rest = find_line rounds (i + 1) buf in if ends_line buf i then i else rest

-- The C string at the start of an array, without its '\0'.
pub c_string : List ℕ → List ℕ
c_string [] = []
c_string (b ∷ buf) = let rest = c_string buf in if b == 0 then [] else b ∷ rest

-- What a turn of the loop does with new data: the connection, and the file name once a line is
-- complete.
pub take_data : Connection → List ℕ → Connection × Option (List ℕ)
take_data c bytes =
    let buf = write_at c.buf c.read_index bytes in
    let read = c.read_index + length bytes in
    let i = find_line (length bytes) c.read_index buf in
    if i == read then (record { buf = buf; read_index = read }, none) else (
      record { buf = set buf (i - 1) 0; read_index = read },
      some (c_string (set buf (i - 1) 0)),
    )

-- What fork returns.
pub data Forked : Type 0 where
  fork_failed : Forked
  in_parent : Forked
  in_child : Forked

-- How process ends: the connection stays for more data, removefd has closed it, or the process is
-- a child that executes the file. `out_of_fuel` is no end.
pub data Outcome : Type 0 where
  waiting : Connection → Outcome
  removed : Outcome
  executes : List ℕ → Outcome
  out_of_fuel : Outcome

-- The processes after fork.
pub run_file : Forked → List ℕ → Outcome
run_file fork_failed file = Outcome.removed
run_file in_parent file = Outcome.removed
run_file in_child file = Outcome.executes file

-- From the test of access on.
pub serve_file : (exists : List ℕ → Bool) → Forked → List ℕ → Outcome
serve_file exists fork file = if exists file then run_file fork file else Outcome.removed

module _ (exists : List ℕ → Bool) (fork : Forked) where
  -- A turn of the loop with the answer of recv; `next` is the next turn.
  pub turn_data : (next : Connection → Outcome) → Connection × Option (List ℕ) → Outcome
  turn_data next (c, none) = next c
  turn_data next (c, some file) = serve_file exists fork file

  pub turn : (next : Connection → Outcome) → Connection → Received → Outcome
  turn next c again = Outcome.waiting c
  turn next c failed = Outcome.removed
  turn next c closed = Outcome.removed
  turn next c (received bytes) = turn_data next (take_data c bytes)

  -- process, on a socket.
  pub process : (k : Socket) → (fuel : ℕ) → Connection → k.State → Outcome
  process k zero c s = Outcome.out_of_fuel
  process k (suc fuel) c s =
      let (answer, s') = k.recv (buffer_size - 1 - c.read_index) s in
      turn (λ c'. process k fuel c' s') c answer
