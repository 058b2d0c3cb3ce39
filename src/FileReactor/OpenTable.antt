-- ===== src/FileReactor/OpenTable.antt =====
-- Watches in a function, with the descriptors that are open: it shows that the documented behaviour
-- of epoll_ctl can be met, and serves the concrete inputs.
use advanced_programming_in.Base.{
  ℕ, ◌≡◌, refl, ap, inl, ◌∙◌, Bool, true, false, Option, none, some, arith, ◌==◌, if◌then◌else◌,
}
use advanced_programming_in.Kernel.{Watch, Op, Kernel}
use advanced_programming_in.Kernel.Table.{
  Table, ctl, write, write_self, write_ne, ctl_other, ctl_add_new, ctl_add_old,
}
use advanced_programming_in.FileReactor.{Calls}
use advanced_programming_in.FileReactor.Rearm.{Willing}

pub record OpenTable : Type 0 where
  pub watches : Table
  pub opened : ℕ → Bool

abbrev pub open_kernel : Kernel
open_kernel = record {
  State = OpenTable;
  ctl = λ op fd w s. record s { watches = ctl op fd w s.watches };
  close = λ fd s. record {
    watches = write s.watches fd none;
    opened = λ g. if g == fd then false else s.opened g;
  };
  watched = λ s fd. s.watches fd;
  add_new = λ s fd w free. inl (ctl_add_new s.watches fd w free);
  add_old = λ s fd v w old. ctl_add_old s.watches fd v w old;
  modify_old = λ s fd v w old. write_self s.watches fd (some w);
  delete_old = λ s fd w. write_self s.watches fd none;
  invalid_same = λ s fd w g. refl;
  other = λ op s fd w g n. ctl_other op s.watches fd w g n;
  close_gone = λ s fd. write_self s.watches fd none;
  close_other = λ s fd g n. write_ne s.watches fd none g n;
}

-- Whether epoll_ctl succeeds.
abbrev pub accepts_op : Op → (opened : Bool) → Option Watch → Bool
accepts_op op false w = false
accepts_op Op.add true none = true
accepts_op Op.add true (some w) = false
accepts_op Op.modify true none = false
accepts_op Op.modify true (some w) = true
accepts_op Op.delete true none = false
accepts_op Op.delete true (some w) = true
accepts_op Op.invalid true w = false

pub accepts_op_shut : (op : Op) (w : Option Watch) → accepts_op op false w ≡ false
accepts_op_shut Op.add w = refl
accepts_op_shut Op.modify w = refl
accepts_op_shut Op.delete w = refl
accepts_op_shut Op.invalid w = refl

pub not_itself : (s : OpenTable) (fd : ℕ) → (if fd == fd then false else s.opened fd) ≡ false
not_itself s fd = ground arith

abbrev pub open_table : Calls
open_table = record {
  kernel = open_kernel;
  open_fd = λ s fd. s.opened fd;
  accepts = λ s op fd. accepts_op op (s.opened fd) (s.watches fd);
  registers = λ s fd w granted free. ctl_add_new s.watches fd w free;
  refuses = λ s op fd shut.
      ap (λ b. accepts_op op b (s.watches fd)) shut ∙ accepts_op_shut op (s.watches fd);
  ctl_open = λ s op fd w g. refl;
  close_open = λ s fd. not_itself s fd;
}

pub open_table-Willing : (fd : ℕ) → Willing open_table fd
open_table-Willing fd s o free =
    ap (λ b. accepts_op Op.add b (s.watches fd)) o ∙ ap (accepts_op Op.add true) free
