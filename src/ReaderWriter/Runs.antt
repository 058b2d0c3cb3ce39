-- ===== src/ReaderWriter/Runs.antt =====
-- process/semaphore/reader_writer/main.c: the states that the threads reach.
use advanced_programming_in.Base.{
  ℕ, ◌+◌, ◌≤◌, ◌<◌, ◌≡◌, ◌≢◌, ◌⊎◌, inl, inr, Bool-cases, ◌==◌, arith,
}
use advanced_programming_in.ReaderWriter.{System, initial, Step, Reach, here, next}

record Holds (made : ℕ) (s : System) : Type 0 where
  count : s.count_sem + s.readers.first + s.readers.counting + s.readers.leaving ≡ 1
  size :
      s.datasize_sem + s.readers.checking + s.readers.starved + s.readers.woken + s.readers.checked
      ≡ 1
  number :
      s.readcount
      ≡ s.readers.entered + s.readers.checking + s.readers.starved + s.readers.woken
        + s.readers.checked + s.readers.reading + s.readers.leaving
  all_writers : s.writers.outside + s.writers.writing + s.writers.written + s.writers.posted ≡ made
  held :
      s.readers.starved + s.readers.woken ≡ 0
      → 0 < s.readcount + s.readers.counting
      → s.write_sem + s.writers.writing ≡ 0
  unheld :
      s.readers.starved + s.readers.woken ≡ 0
      → s.readcount + s.readers.counting ≡ 0
      → s.write_sem + s.writers.writing ≡ 1
  lent : 0 < s.readers.starved + s.readers.woken → s.write_sem + s.writers.writing ≡ 1
  alone : 0 < s.readers.starved + s.readers.woken → s.readers.reading + s.readers.leaving ≡ 0
  first : 0 < s.readers.first → s.readcount ≡ 0
  filled :
      0
        < s.data_sem + s.writers.written + s.writers.posted + s.readers.woken + s.readers.checked
          + s.readers.reading + s.readers.leaving
      → 0 < s.datasize
  told : 0 < s.readers.starved → s.flag ≢ 1 → 0 < s.data_sem
  posted : 0 < s.readers.starved → 0 < s.writers.posted → 0 < s.data_sem

Step-Holds : {made : ℕ} {s t : System} → Step s t → Holds made s → Holds made t
Step-Holds (Step.wait_count a b) h = ground arith
Step-Holds (Step.wait_write a b) h = ground arith
Step-Holds (Step.add_reader a) h = ground arith
Step-Holds (Step.wait_size a b) h = ground arith
Step-Holds (Step.check a) h = ground arith
Step-Holds (Step.wait_data a b) h = ground arith
Step-Holds (Step.wait_again a b) h = ground arith
Step-Holds (Step.let_go a) h = ground arith
Step-Holds (Step.wait_leave a b) h = ground arith
Step-Holds (Step.drop_reader a) h = ground arith
Step-Holds (Step.wait_writer a b) h = ground arith
Step-Holds (Step.write c a) h = ground arith
Step-Holds (Step.tell a) h = ground arith
Step-Holds (Step.reset a) h = ground arith

initial-Holds : (readers writers : ℕ) → Holds writers (initial readers writers)
initial-Holds readers writers = ground arith

Reach-Holds :
    {readers writers : ℕ} {s : System} → Reach (initial readers writers) s → Holds writers s
Reach-Holds {readers} {writers} here = initial-Holds readers writers
Reach-Holds (next r st) = Step-Holds st (Reach-Holds r)

-- A thread that can take its next step, when no reader has lent write_sem out.
ready_unlent :
    {made : ℕ} (s : System)
    → Holds made s
    → 0 < made
    → s.readers.starved + s.readers.woken ≡ 0
    → (0 < s.readers.counting)
      ⊎ ((0 < s.readers.checking)
          ⊎ ((0 < s.readers.checked)
              ⊎ ((0 < s.readers.leaving)
                  ⊎ ((0 < s.writers.writing)
                      ⊎ ((0 < s.write_sem)
                          ⊎ (((0 < s.datasize_sem) × (0 < s.readers.entered))
                              ⊎ ((0 < s.count_sem) × (0 < s.readers.reading))))))))
ready_unlent s h some_writer none_lent =
    ground (arith, h.count, h.size, h.number, h.held, h.unheld, h.first)

module _ {readers writers : ℕ} {s : System} (r : Reach (initial readers writers) s) where
  -- Readers and writers at the buffer.
  pub readers_apart :
      (s.writers.writing ≤ 1) × (0 < s.readers.reading → (s.writers.writing ≡ 0) × (0 < s.datasize))
  readers_apart =
      let h = Reach-Holds r in ground (arith, h.number, h.held, h.unheld, h.lent, h.alone, h.filled)

  -- A writer is ready, or at the buffer, or write_sem is free.
  writer_goes : 0 < writers → 0 < s.write_sem + s.writers.writing → (t : System) × Step s t
  writer_goes some_writer free =
      let h = Reach-Holds r in
      let cases : (0 < s.writers.writing)
          ⊎ ((0 < s.writers.written)
              ⊎ ((0 < s.writers.posted) ⊎ ((0 < s.write_sem) × (0 < s.writers.outside)))) =
        ground (arith, h.all_writers) in
      elim cases [
        | inl a ↦ (_, Step.write 0 a)
        | inr (inl a) ↦ (_, Step.tell a)
        | inr (inr (inl a)) ↦ (_, Step.reset a)
        | inr (inr (inr (a, b))) ↦ (_, Step.wait_writer a b)
      ]

  -- With at least one writer, in every state that the threads reach some thread can take its next
  -- step, and for a reader that waits for data the flag is set or data_sem has been posted.
  pub always_on :
      0 < writers
      → ((t : System) × Step s t) × (0 < s.readers.starved → (s.flag ≡ 1) ⊎ (0 < s.data_sem))
  always_on some_writer =
      let h = Reach-Holds r in
      (
        elim (Bool-cases (s.readers.starved + s.readers.woken == 0)) [
          | inl e ↦ elim (ready_unlent s h some_writer (ground arith)) [
            | inl a ↦ (_, Step.add_reader a)
            | inr (inl a) ↦ (_, Step.check a)
            | inr (inr (inl a)) ↦ (_, Step.let_go a)
            | inr (inr (inr (inl a))) ↦ (_, Step.drop_reader a)
            | inr (inr (inr (inr (inl a)))) ↦ (_, Step.write 0 a)
            | inr (inr (inr (inr (inr (inl a))))) ↦ writer_goes some_writer (omega (arith, a))
            | inr (inr (inr (inr (inr (inr (inl (a, b))))))) ↦ (_, Step.wait_size a b)
            | inr (inr (inr (inr (inr (inr (inr (a, b))))))) ↦ (_, Step.wait_leave a b)
          ]
          | inr e ↦ writer_goes some_writer (let x = h.lent (ground arith) in omega (arith, x))
        ],
        ground (arith, h.told),
      )
