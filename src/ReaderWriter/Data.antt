-- ===== src/ReaderWriter/Data.antt =====
-- process/semaphore/reader_writer/main.c: what the buffer holds.
use advanced_programming_in.Base.{
  ℕ, zero, suc, ◌+◌, ◌≤◌, ◌<◌, ◌≡◌, refl, ap, subst, ◌∙◌, inl, inr, Bool-cases, List, [], ◌∷◌, ◌++◌,
  length, set, take, replicate, length-set, length-replicate, take-set-next, ◌==◌, arith,
}
use advanced_programming_in.ReaderWriter.Runs.{readers_apart}
use advanced_programming_in.ReaderWriter.{
  buf_size, System, initial, store, start_writing, Step, Reach, here, next,
}

record Keeps (s : System) : Type 0 where
  room : length s.buf ≡ buf_size
  kept : s.datasize ≤ buf_size → take s.datasize s.buf ≡ s.stored

store-Keeps : (s : System) (c : ℕ) → Keeps s → Keeps (store s c)
store-Keeps s c h = record {
  room = length-set s.buf s.datasize c ∙ h.room;
  kept = λ fits.
      take-set-next s.buf s.datasize c (omega (arith, h.room))
      ∙ ap (λ l. l ++ c ∷ []) (h.kept (omega (arith, fits)));
}

Step-Keeps : {s t : System} → Step s t → Keeps s → Keeps t
Step-Keeps {s = s} (Step.write c a) h = store-Keeps s c h
Step-Keeps {s = s} (Step.check a) h = elim (Bool-cases (s.datasize == 0)) [
  | inl e ↦ rw e (record { room = h.room; kept = h.kept })
  | inr e ↦ rw e (record { room = h.room; kept = h.kept })
]
Step-Keeps {s = s} (Step.tell a) h = elim (Bool-cases (s.flag == 1)) [
  | inl e ↦ rw e (record { room = h.room; kept = h.kept })
  | inr e ↦ rw e (record { room = h.room; kept = h.kept })
]
Step-Keeps (Step.wait_count a b) h = record { room = h.room; kept = h.kept }
Step-Keeps (Step.wait_write a b) h = record { room = h.room; kept = h.kept }
Step-Keeps (Step.add_reader a) h = record { room = h.room; kept = h.kept }
Step-Keeps (Step.wait_size a b) h = record { room = h.room; kept = h.kept }
Step-Keeps (Step.wait_data a b) h = record { room = h.room; kept = h.kept }
Step-Keeps (Step.wait_again a b) h = record { room = h.room; kept = h.kept }
Step-Keeps (Step.let_go a) h = record { room = h.room; kept = h.kept }
Step-Keeps (Step.wait_leave a b) h = record { room = h.room; kept = h.kept }
Step-Keeps (Step.drop_reader a) h = record { room = h.room; kept = h.kept }
Step-Keeps (Step.wait_writer a b) h = record { room = h.room; kept = h.kept }
Step-Keeps (Step.reset a) h = record { room = h.room; kept = h.kept }

-- The buffer, in every state that the threads reach.
buffer_in_order :
    {readers writers : ℕ} {s : System}
    → Reach (initial readers writers) s
    → (length s.buf ≡ buf_size) × (s.datasize ≤ buf_size → take s.datasize s.buf ≡ s.stored)
buffer_in_order here = (length-replicate {A = ℕ} buf_size 0, λ fits. refl)
buffer_in_order (next r st) =
    let (room, kept) = buffer_in_order r in
    let h = Step-Keeps st (record { room = room; kept = kept }) in (h.room, h.kept)

-- In every state that the threads reach at most one writer is at the buffer. While a reader is there
-- no writer is, and there is data: as long as datasize has not passed the size of the buffer, its
-- first datasize cells hold all characters stored so far, in order.
pub readers_see_all :
    {readers writers : ℕ} {s : System}
    → Reach (initial readers writers) s
    → (s.writers.writing ≤ 1)
      × (0 < s.readers.reading → (s.writers.writing ≡ 0) × (0 < s.datasize))
      × (s.datasize ≤ buf_size → take s.datasize s.buf ≡ s.stored)
readers_see_all r =
    let (few, apart) = readers_apart r in let (room, kept) = buffer_in_order r in (few, apart, kept)

-- The state with the writer outside, after some stores.
abbrev idle : (readers datasize : ℕ) → (buf stored : List ℕ) → System
idle readers datasize buf stored = record (initial readers 1) {
  datasize = datasize;
  buf = buf;
  stored = stored;
}

Reach-idle :
    (readers n : ℕ) → (buf stored : List ℕ) × Reach (initial readers 1) (idle readers n buf stored)
Reach-idle readers zero = (replicate buf_size 0, [], here)
Reach-idle readers (suc n) =
    let (buf, stored, r) = Reach-idle readers n in
    let r1 = next r (Step.wait_writer (omega arith) (omega arith)) in
    let r2 = next r1 (Step.write 0 (omega arith)) in
    let r3 = next r2 (Step.tell (omega arith)) in
    let e : n + 1 ≡ suc n = omega arith in
    (
      set buf n 0,
      stored ++ 0 ∷ [],
      subst (λ m. Reach (initial readers 1) (idle readers m (set buf n 0) (stored ++ 0 ∷ []))) e r3,
    )

-- Nothing bounds the writer's index: with any readers a single writer reaches a state in which it is
-- about to store at the index that is the size of the buffer, the first one behind its end.
pub index_leaves_buffer :
    (readers : ℕ)
    → (s : System) × Reach (initial readers 1) s × (s.writers.writing ≡ 1) × (s.datasize ≡ buf_size)
index_leaves_buffer readers =
    let (buf, stored, r) = Reach-idle readers buf_size in
    (
      start_writing (idle readers buf_size buf stored),
      next r (Step.wait_writer (omega arith) (omega arith)),
      refl,
      refl,
    )
