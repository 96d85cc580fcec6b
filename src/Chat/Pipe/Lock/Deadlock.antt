-- ===== src/Chat/Pipe/Lock/Deadlock.antt =====
-- The reader of MessagePipe takes the lock before it reads, and keeps the writers from writing.
use aip_pkussm.Prelude.{update, ℕ, zero, suc, ◌≡◌, ◌≢◌, inl, inr, refl, true, false, arith}
use aip_pkussm.Chat.Pipe.Lock.{
  Pc, idle, opening, spinning, holding, leaving, Pipe, critical, Step, start, opened, open_failed,
  spin, acquire, write, read, read_end, release, init, Reach, here, next,
}

-- The reader holds the lock and waits in `read` on an empty FIFO, which writer `j` has open while
-- it spins.
pub record IsStuck (j : ℕ) (s : Pipe) : Type 0 where
  pub reader : s.pc 0 ≡ holding
  pub no_data : s.fifo ≡ 0
  pub taken : s.lock ≡ true
  pub writer : s.pc (suc j) ≡ spinning
  pub no_writer_in : (i : ℕ) → critical (s.pc (suc i)) ≡ false

IsStuck-move :
    {j : ℕ} {s : Pipe} (i : ℕ) (p : Pc)
    → IsStuck j s
    → i ≢ 0
    → i ≢ suc j
    → critical p ≡ false
    → IsStuck j (record s { pc = update s.pc i p })
IsStuck-move {j} {s} i p v a b c = record {
  reader = ground (arith, v.reader);
  no_data = v.no_data;
  taken = v.taken;
  writer = ground (arith, v.writer);
  no_writer_in = λ x. ground (arith, v.no_writer_in x);
}

not_stuck : {j : ℕ} {s : Pipe} (i : ℕ) → IsStuck j s → s.pc i ≡ leaving → ⊥
not_stuck zero v e = cc v.reader
not_stuck (suc i) v e = ground (arith, v.no_writer_in i)

IsStuck-step : {j : ℕ} {s t : Pipe} → Step false s t → IsStuck j s → IsStuck j t
IsStuck-step (start i e) v =
    IsStuck-move i opening v (λ z. ground (arith, v.reader)) (λ z. ground (arith, v.writer)) refl
IsStuck-step (opened i k e p o) v =
    IsStuck-move i spinning v (λ z. ground (arith, v.reader)) (λ z. ground (arith, v.writer)) refl
IsStuck-step (open_failed i f e) v = cc
IsStuck-step (spin i e l) v = v
IsStuck-step (acquire i e l) v = cc v.taken
IsStuck-step (write i e) v = ground (arith, v.no_writer_in i)
IsStuck-step (read e l) v = absurd (omega (arith, v.no_data))
IsStuck-step {j} (read_end e l o) v = ground (arith, o j, v.writer)
IsStuck-step (release i e) v = absurd (not_stuck i v e)

-- A state in which the reader holds the lock and waits on an empty FIFO, a writer spins at the lock
-- and no writer is behind it stays so for ever: whatever the threads do from there, as long as no
-- `open` fails.
pub stuck_for_ever : {j : ℕ} {s t : Pipe} → IsStuck j s → Reach false s t → IsStuck j t
stuck_for_ever v here = v
stuck_for_ever v (next r st) = IsStuck-step st (stuck_for_ever v r)

abbrev steps_to_stuck : ℕ → Pipe
steps_to_stuck j = record {
  lock = true;
  fifo = 0;
  pc =
      update
        (update (update (update (update (λ i. idle) 0 opening) (suc j) opening) 0 spinning) (suc j)
          spinning)
        0 holding;
}

-- From the start, with no `open` failing, the reader and any one writer can come to the state in
-- which the reader holds the lock and waits on an empty FIFO, the writer has it open and spins at
-- the lock, and no writer is behind the lock.
pub stuck_is_reachable : (j : ℕ) → (s : Pipe) × Reach false init s × IsStuck j s
stuck_is_reachable j = (
  steps_to_stuck j,
  next
      (next
        (next (next (next here (start 0 refl)) (start (suc j) (ground arith)))
          (opened 0 (suc j) (ground arith) (ground arith, inl refl) (ground arith)))
        (opened (suc j) 0 (ground arith) (ground arith, inr refl) (ground arith)))
      (acquire 0 (ground arith) refl),
  record {
    reader = ground arith;
    no_data = refl;
    taken = refl;
    writer = ground arith;
    no_writer_in = λ i. ground arith;
  },
)
