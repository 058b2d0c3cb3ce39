-- ===== src/EpollServer/Conversation.antt =====
-- unix网络编程/IO多路复用/epoll/epoll_ET/client.c and epoll_LT/client.c: a client of the epoll servers,
-- together with the server. The connection keeps the bytes that one side has written and the other
-- has not read yet; the client is the only one, with the descriptor `fd` at the server.
pub mod Talk
mod Examples
use advanced_programming_in.Base.{
  ℕ, ◌+◌, ◌≤◌, ◌<◌, ◌≡◌, Bool, true, false, List, [], ◌∷◌, ◌++◌, take, drop, length,
}
use advanced_programming_in.Kernel.{Kernel}
use advanced_programming_in.EpollServer.{Variant, received, Server, read_client}
use advanced_programming_in.EpollServer.Drain.{written}

-- char buf[128]
abbrev pub client_buf : ℕ
client_buf = 128

module _ (k : Kernel) where
  -- The server, the bytes on their way to it, all that the client has sent and printed, how many
  -- bytes its last line had, and whether it waits in read or in fgets.
  pub record System : Type 0 where
    pub server : Server k
    pub pending : List ℕ
    pub sent : List ℕ
    pub screen : List ℕ
    pub last : ℕ
    pub waiting : Bool

  abbrev pub initial : Server k → System
  initial s = record { server = s; pending = []; sent = []; screen = []; last = 0; waiting = false }

module _ (k : Kernel) (toupper : ℕ → ℕ) (serverfd : ℕ) (v : Variant) (fd : ℕ) where
  -- The bytes on their way to the client.
  abbrev pub arriving : System k → List ℕ
  arriving s = drop (length s.screen) (written fd s.server.output)

  -- fgets and write, whose length strlen gives: `line` are the bytes before the first '\0', none if
  -- the line begins with one.
  abbrev pub send_line : System k → List ℕ → System k
  send_line s line = record s {
    pending = s.pending ++ line;
    sent = s.sent ++ line;
    last = length line;
    waiting = true;
  }

  -- A turn of the server.
  abbrev pub serve : System k → System k
  serve s = record s {
    server = read_client k toupper serverfd s.server fd (received (take v.read_size s.pending));
    pending = drop v.read_size s.pending;
  }

  -- read, which gives `n` bytes, and the write to the terminal.
  abbrev pub print : System k → (n : ℕ) → System k
  print s n = record s { screen = s.screen ++ take n (arriving s); waiting = false }

  pub data Step (s : System k) : System k → Type 0 where
    line :
        (bytes : List ℕ)
        → s.waiting ≡ false
        → length bytes < client_buf
        → Step s (send_line s bytes)
    turn : 0 < length s.pending → Step s (serve s)
    reply :
        (n : ℕ)
        → s.waiting ≡ true
        → 0 < n
        → n ≤ client_buf
        → n ≤ length (arriving s)
        → Step s (print s n)

  pub data Reach (s : System k) : System k → Type 0 where
    here : Reach s s
    next : {t u : System k} → Reach s t → Step t u → Reach s u
