-- ===== src/Kernel.antt =====
-- The kernel's epoll instance, as the event loops use it: epoll_ctl and close are not code of the
-- repository, so they are operations of this record, with the behaviour that epoll_ctl(2) and
-- epoll(7) document. A watch is the pair of the events asked for and the user data, here an index.
pub mod Table
use advanced_programming_in.Base.{ℕ, ◌≡◌, ◌≢◌, ◌⊎◌, Bool, Option, none, some}

-- EPOLLIN, EPOLLOUT and EPOLLET
pub record Events : Type 0 where
  pub input : Bool
  pub output : Bool
  pub edge : Bool

pub record Watch : Type 0 where
  pub events : Events
  pub index : ℕ

-- The operation of epoll_ctl; `invalid` is any other number, such as 0.
pub data Op : Type 0 where
  add modify delete invalid : Op

pub record Kernel : Type 1 where
  pub State : Type 0
  pub ctl : Op → ℕ → Watch → State → State
  pub close : ℕ → State → State
  pub watched : State → ℕ → Option Watch
  -- A descriptor that is not registered is added, unless epoll_ctl refuses it, as for ENOSPC; one that
  -- is registered stays as it is, and is modified or deleted.
  pub add_new :
      (s : State) (fd : ℕ) (w : Watch)
      → watched s fd ≡ none
      → (watched (ctl Op.add fd w s) fd ≡ some w) ⊎ (watched (ctl Op.add fd w s) fd ≡ none)
  pub add_old :
      (s : State) (fd : ℕ) (v w : Watch)
      → watched s fd ≡ some v
      → watched (ctl Op.add fd w s) fd ≡ some v
  pub modify_old :
      (s : State) (fd : ℕ) (v w : Watch)
      → watched s fd ≡ some v
      → watched (ctl Op.modify fd w s) fd ≡ some w
  pub delete_old : (s : State) (fd : ℕ) (w : Watch) → watched (ctl Op.delete fd w s) fd ≡ none
  -- An operation that is not valid changes nothing.
  pub invalid_same :
      (s : State) (fd : ℕ) (w : Watch) (g : ℕ) → watched (ctl Op.invalid fd w s) g ≡ watched s g
  -- No operation touches the other descriptors.
  pub other :
      (op : Op) (s : State) (fd : ℕ) (w : Watch) (g : ℕ)
      → g ≢ fd
      → watched (ctl op fd w s) g ≡ watched s g
  -- A descriptor that is closed leaves the set.
  pub close_gone : (s : State) (fd : ℕ) → watched (close fd s) fd ≡ none
  pub close_other : (s : State) (fd g : ℕ) → g ≢ fd → watched (close fd s) g ≡ watched s g
