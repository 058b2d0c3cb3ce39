-- ===== src/ReaderWriter/Examples.antt =====
-- process/semaphore/reader_writer/main.c: runs on small inputs.
use advanced_programming_in.Base.{take, ◌≤◌, ◌<◌, ◌≡◌, ◌⊎◌, arith}
use advanced_programming_in.ReaderWriter.{
  buf_size, System, initial, enter, take_buffer, count_in, take_size, check_size, post_size,
  start_writing, store, Step, Reach, here, next,
}
use advanced_programming_in.ReaderWriter.Data.{readers_see_all, index_leaves_buffer}
use advanced_programming_in.ReaderWriter.Runs.{always_on}

-- The reader comes first and finds no data.
abbrev hungry : System
hungry = check_size (take_size (count_in (take_buffer (enter (initial 2 1)))))

hungry_reached : Reach (initial 2 1) hungry
hungry_reached =
    next
      (next
        (next
          (next (next here (Step.wait_count (omega arith) (omega arith)))
            (Step.wait_write (omega arith) (omega arith)))
          (Step.add_reader (omega arith)))
        (Step.wait_size (omega arith) (omega arith)))
      (Step.check (omega arith))

always_on_example :
    ((t : System) × Step hungry t)
    × (0 < hungry.readers.starved → (hungry.flag ≡ 1) ⊎ (0 < hungry.data_sem))
always_on_example = always_on hungry_reached (omega arith)

-- The writer comes first, and the reader gets to the data.
abbrev fed : System
fed = post_size (
    check_size
      (take_size (count_in (take_buffer (enter (store (start_writing (initial 2 1)) 104))))))

fed_reached : Reach (initial 2 1) fed
fed_reached =
    next
      (next
        (next
          (next
            (next
              (next
                (next (next here (Step.wait_writer (omega arith) (omega arith)))
                  (Step.write 104 (omega arith)))
                (Step.wait_count (omega arith) (omega arith)))
              (Step.wait_write (omega arith) (omega arith)))
            (Step.add_reader (omega arith)))
          (Step.wait_size (omega arith) (omega arith)))
        (Step.check (omega arith)))
      (Step.let_go (omega arith))

readers_see_all_example :
    (fed.writers.writing ≤ 1)
    × (0 < fed.readers.reading → (fed.writers.writing ≡ 0) × (0 < fed.datasize))
    × (fed.datasize ≤ buf_size → take fed.datasize fed.buf ≡ fed.stored)
readers_see_all_example = readers_see_all fed_reached

-- The first index behind the buffer.
index_leaves_buffer_example :
    (s : System) × Reach (initial 2 1) s × (s.writers.writing ≡ 1) × (s.datasize ≡ buf_size)
index_leaves_buffer_example = index_leaves_buffer 2
