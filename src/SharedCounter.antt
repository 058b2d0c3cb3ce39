-- ===== src/SharedCounter.antt =====
-- thread/synchronization/mutex/main.c: threads that count a shared number up to 100. The pieces under
-- the mutex are single steps; the test of the loop is outside it.
pub mod Runs
mod Examples
use advanced_programming_in.Base.{ℕ, ◌+◌, ◌-◌, ◌<◌, ◌≤◌, List, [], ◌∷◌, ◌++◌}

-- 100, the number that the threads count to.
abbrev pub limit : ℕ
limit = 100

-- A line of the output: the one that a thread prints first, or one from its loop.
pub data Line : Type 0 where
  greeting : (i : ℕ) → Line
  number : (i : ℕ) → Line

-- How many threads stand before their first printf, before the test of the loop, behind a test that
-- let them on, and at their end; i, and the lines printed so far.
pub record System : Type 0 where
  pub i : ℕ
  pub starting : ℕ
  pub testing : ℕ
  pub counting : ℕ
  pub finished : ℕ
  pub output : List Line

-- The state when the threads are there: main and the thread that it creates are two.
abbrev pub initial : (threads : ℕ) → System
initial threads = record {
  i = 0;
  starting = threads;
  testing = 0;
  counting = 0;
  finished = 0;
  output = [];
}

-- The first piece under the mutex.
abbrev pub greet : System → System
greet s = record s {
  starting = s.starting - 1;
  testing = s.testing + 1;
  output = s.output ++ Line.greeting s.i ∷ [];
}

-- The two ends of the test i < 100.
abbrev pub go_on : System → System
go_on s = record s { testing = s.testing - 1; counting = s.counting + 1 }

abbrev pub finish : System → System
finish s = record s { testing = s.testing - 1; finished = s.finished + 1 }

-- ++i and printf under the mutex.
abbrev pub count : System → System
count s = record s {
  i = s.i + 1;
  counting = s.counting - 1;
  testing = s.testing + 1;
  output = s.output ++ Line.number (s.i + 1) ∷ [];
}

pub data Step (s : System) : System → Type 0 where
  first : 0 < s.starting → Step s (greet s)
  pass : 0 < s.testing → s.i < limit → Step s (go_on s)
  leave : 0 < s.testing → limit ≤ s.i → Step s (finish s)
  add : 0 < s.counting → Step s (count s)

pub data Reach (s : System) : System → Type 0 where
  here : Reach s s
  next : {t u : System} → Reach s t → Step t u → Reach s u
