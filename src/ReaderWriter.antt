-- ===== src/ReaderWriter.antt =====
-- process/semaphore/reader_writer/main.c: the semaphores, the counters and the buffer that readers and
-- writers share, and the pieces of a thread's turn between its operations on the semaphores. The
-- character that a writer stores is an argument. The output and the pauses are not modelled.
pub mod Runs
pub mod Data
mod Examples
use advanced_programming_in.Base.{
  ℕ, List, [], ◌∷◌, ◌++◌, replicate, set, ◌+◌, ◌-◌, ◌<◌, ◌≡◌, ◌≢◌, ◌==◌, if◌then◌else◌,
}

-- How many readers stand before each piece of their turn: before the first sem_wait, before
-- sem_wait(&write_sem) as the first reader, before ++readcount, before sem_wait(&datasize_sem),
-- before the test of datasize, before sem_wait(&data_sem), before the second sem_wait(&write_sem),
-- before sem_post(&datasize_sem), at the data, and before --readcount.
pub record Readers : Type 0 where
  pub outside : ℕ
  pub first : ℕ
  pub counting : ℕ
  pub entered : ℕ
  pub checking : ℕ
  pub starved : ℕ
  pub woken : ℕ
  pub checked : ℕ
  pub reading : ℕ
  pub leaving : ℕ

-- Writers before sem_wait(&write_sem), before the store, before the test of flag, and before
-- flag = 0.
pub record Writers : Type 0 where
  pub outside : ℕ
  pub writing : ℕ
  pub written : ℕ
  pub posted : ℕ

-- buf_size
abbrev pub buf_size : ℕ
buf_size = 4096

-- The semaphores, datasize, readcount, flag, buf, all characters stored so far, and the threads.
pub record System : Type 0 where
  pub count_sem : ℕ
  pub write_sem : ℕ
  pub data_sem : ℕ
  pub datasize_sem : ℕ
  pub datasize : ℕ
  pub readcount : ℕ
  pub flag : ℕ
  pub buf : List ℕ
  pub stored : List ℕ
  pub readers : Readers
  pub writers : Writers

-- main, once the semaphores are set up and the threads are started.
abbrev pub initial : (readers writers : ℕ) → System
initial readers writers = record {
  count_sem = 1;
  write_sem = 1;
  data_sem = 0;
  datasize_sem = 1;
  datasize = 0;
  readcount = 0;
  flag = 0;
  buf = replicate buf_size 0;
  stored = [];
  readers = record {
    outside = readers;
    first = 0;
    counting = 0;
    entered = 0;
    checking = 0;
    starved = 0;
    woken = 0;
    checked = 0;
    reading = 0;
    leaving = 0;
  };
  writers = record { outside = writers; writing = 0; written = 0; posted = 0 };
}

-- The pieces of reader.
abbrev pub enter : System → System
enter s =
    let r = s.readers in
    record s {
      count_sem = s.count_sem - 1;
      readers =
          if s.readcount == 0
          then record r { outside = r.outside - 1; first = r.first + 1 }
          else record r { outside = r.outside - 1; counting = r.counting + 1 };
    }

abbrev pub take_buffer : System → System
take_buffer s =
    let r = s.readers in
    record s {
      write_sem = s.write_sem - 1;
      readers = record r { first = r.first - 1; counting = r.counting + 1 };
    }

abbrev pub count_in : System → System
count_in s =
    let r = s.readers in
    record s {
      readcount = s.readcount + 1;
      count_sem = s.count_sem + 1;
      readers = record r { counting = r.counting - 1; entered = r.entered + 1 };
    }

abbrev pub take_size : System → System
take_size s =
    let r = s.readers in
    record s {
      datasize_sem = s.datasize_sem - 1;
      readers = record r { entered = r.entered - 1; checking = r.checking + 1 };
    }

abbrev pub check_size : System → System
check_size s =
    let r = s.readers in
    if s.datasize == 0
    then record s {
      flag = 1;
      write_sem = s.write_sem + 1;
      readers = record r { checking = r.checking - 1; starved = r.starved + 1 };
    }
    else record s { readers = record r { checking = r.checking - 1; checked = r.checked + 1 } }

abbrev pub take_data : System → System
take_data s =
    let r = s.readers in
    record s {
      data_sem = s.data_sem - 1;
      readers = record r { starved = r.starved - 1; woken = r.woken + 1 };
    }

abbrev pub take_back : System → System
take_back s =
    let r = s.readers in
    record s {
      write_sem = s.write_sem - 1;
      readers = record r { woken = r.woken - 1; checked = r.checked + 1 };
    }

abbrev pub post_size : System → System
post_size s =
    let r = s.readers in
    record s {
      datasize_sem = s.datasize_sem + 1;
      readers = record r { checked = r.checked - 1; reading = r.reading + 1 };
    }

abbrev pub go : System → System
go s =
    let r = s.readers in
    record s {
      count_sem = s.count_sem - 1;
      readers = record r { reading = r.reading - 1; leaving = r.leaving + 1 };
    }

abbrev pub count_out : System → System
count_out s =
    let r = s.readers in
    record s {
      readcount = s.readcount - 1;
      write_sem = if s.readcount == 1 then s.write_sem + 1 else s.write_sem;
      count_sem = s.count_sem + 1;
      readers = record r { leaving = r.leaving - 1; outside = r.outside + 1 };
    }

-- The pieces of writer.
abbrev pub start_writing : System → System
start_writing s =
    let w = s.writers in
    record s {
      write_sem = s.write_sem - 1;
      writers = record w { outside = w.outside - 1; writing = w.writing + 1 };
    }

-- buf[datasize++] = c; the index may lie behind the array, of which only the cells are modelled.
abbrev pub store : System → (c : ℕ) → System
store s c =
    let w = s.writers in
    record s {
      datasize = s.datasize + 1;
      buf = set s.buf s.datasize c;
      stored = s.stored ++ c ∷ [];
      write_sem = s.write_sem + 1;
      writers = record w { writing = w.writing - 1; written = w.written + 1 };
    }

abbrev pub check_flag : System → System
check_flag s =
    let w = s.writers in
    if s.flag == 1
    then record s {
      data_sem = s.data_sem + 1;
      writers = record w { written = w.written - 1; posted = w.posted + 1 };
    }
    else record s { writers = record w { written = w.written - 1; outside = w.outside + 1 } }

abbrev pub clear_flag : System → System
clear_flag s =
    let w = s.writers in
    record s { flag = 0; writers = record w { posted = w.posted - 1; outside = w.outside + 1 } }

pub data Step (s : System) : System → Type 0 where
  wait_count : 0 < s.count_sem → 0 < s.readers.outside → Step s (enter s)
  wait_write : 0 < s.write_sem → 0 < s.readers.first → Step s (take_buffer s)
  add_reader : 0 < s.readers.counting → Step s (count_in s)
  wait_size : 0 < s.datasize_sem → 0 < s.readers.entered → Step s (take_size s)
  check : 0 < s.readers.checking → Step s (check_size s)
  wait_data : 0 < s.data_sem → 0 < s.readers.starved → Step s (take_data s)
  wait_again : 0 < s.write_sem → 0 < s.readers.woken → Step s (take_back s)
  let_go : 0 < s.readers.checked → Step s (post_size s)
  wait_leave : 0 < s.count_sem → 0 < s.readers.reading → Step s (go s)
  drop_reader : 0 < s.readers.leaving → Step s (count_out s)
  wait_writer : 0 < s.write_sem → 0 < s.writers.outside → Step s (start_writing s)
  write : (c : ℕ) → 0 < s.writers.writing → Step s (store s c)
  tell : 0 < s.writers.written → Step s (check_flag s)
  reset : 0 < s.writers.posted → Step s (clear_flag s)

pub data Reach (s : System) : System → Type 0 where
  here : Reach s s
  next : {t u : System} → Reach s t → Step t u → Reach s u
