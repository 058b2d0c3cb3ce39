-- ===== src/Kernel/Table.antt =====
-- A kernel state that keeps the watches in a function: it shows that the documented behaviour can be
-- met, and serves the concrete inputs of the event loops.
use advanced_programming_in.Base.{
  ℕ, ◌≡◌, ◌≢◌, refl, ap, ◌∙◌, inl, Option, none, some, arith, ◌==◌, if◌then◌else◌,
}
use advanced_programming_in.Kernel.{Watch, Op, Kernel}

abbrev pub Table : Type 0
Table = ℕ → Option Watch

abbrev pub write : Table → ℕ → Option Watch → Table
write s fd c g = if g == fd then c else s g

-- The watch of a descriptor that has none.
abbrev pub add_if : Option Watch → ℕ → Watch → Table → Table
add_if none fd w s = write s fd (some w)
add_if (some v) fd w s = s

abbrev pub ctl : Op → ℕ → Watch → Table → Table
ctl Op.add fd w s = add_if (s fd) fd w s
ctl Op.modify fd w s = write s fd (some w)
ctl Op.delete fd w s = write s fd none
ctl Op.invalid fd w s = s

pub write_self : (s : Table) (fd : ℕ) (c : Option Watch) → write s fd c fd ≡ c
write_self s fd c = ground arith

pub write_ne : (s : Table) (fd : ℕ) (c : Option Watch) (g : ℕ) → g ≢ fd → write s fd c g ≡ s g
write_ne s fd c g n = ground arith

add_if_other :
    (c : Option Watch) (s : Table) (fd : ℕ) (w : Watch) (g : ℕ) → g ≢ fd → add_if c fd w s g ≡ s g
add_if_other none s fd w g n = write_ne s fd (some w) g n
add_if_other (some v) s fd w g n = refl

pub ctl_add_new : (s : Table) (fd : ℕ) (w : Watch) → s fd ≡ none → ctl Op.add fd w s fd ≡ some w
ctl_add_new s fd w e = ap (λ c. add_if c fd w s fd) e ∙ write_self s fd (some w)

pub ctl_add_old : (s : Table) (fd : ℕ) (v w : Watch) → s fd ≡ some v → ctl Op.add fd w s fd ≡ some v
ctl_add_old s fd v w e = ap (λ c. add_if c fd w s fd) e ∙ e

pub ctl_other : (op : Op) (s : Table) (fd : ℕ) (w : Watch) (g : ℕ) → g ≢ fd → ctl op fd w s g ≡ s g
ctl_other Op.add s fd w g n = add_if_other (s fd) s fd w g n
ctl_other Op.modify s fd w g n = write_ne s fd (some w) g n
ctl_other Op.delete s fd w g n = write_ne s fd none g n
ctl_other Op.invalid s fd w g n = refl

abbrev pub table : Kernel
table = record {
  State = Table;
  ctl = ctl;
  close = λ fd s. write s fd none;
  watched = λ s fd. s fd;
  add_new = λ s fd w free. inl (ctl_add_new s fd w free);
  add_old = λ s fd v w old. ctl_add_old s fd v w old;
  modify_old = λ s fd v w old. write_self s fd (some w);
  delete_old = λ s fd w. write_self s fd none;
  invalid_same = λ s fd w g. refl;
  other = ctl_other;
  close_gone = λ s fd. write_self s fd none;
  close_other = λ s fd g n. write_ne s fd none g n;
}
