-- ===== src/Chat/Pipe/Lock/Exclusion.antt =====
-- What the spin lock of MessagePipe protects, and what breaks it.
use aip_pkussm.Prelude.{update, ℕ, suc, ◌≡◌, ◌≢◌, refl, true, false, arith}
use aip_pkussm.Chat.Pipe.Lock.{
  Pc, idle, opening, spinning, holding, leaving, Pipe, critical, Step, start, opened, open_failed,
  spin, acquire, write, read, read_end, release, init, Reach, here, next,
}

pub record Inv (s : Pipe) : Type 0 where
  pub locked : (i : ℕ) → critical (s.pc i) ≡ true → s.lock ≡ true
  pub unique : (i j : ℕ) → critical (s.pc i) ≡ true → critical (s.pc j) ≡ true → i ≡ j

Inv-init : Inv init
Inv-init = record { locked = λ i h. cc; unique = λ i j h g. cc }

-- A step that leaves the lock alone and moves one thread, which is critical after it only if it
-- was before.
Inv-move :
    {s : Pipe} (i n : ℕ) (p : Pc)
    → Inv s
    → (critical p ≡ true → critical (s.pc i) ≡ true)
    → Inv (record s { fifo = n; pc = update s.pc i p })
Inv-move {s} i n p v h = record {
  locked = λ a x. ground (arith, v.locked a, v.locked i, h);
  unique = λ a b x y. ground (arith, v.unique a b, v.unique i b, v.unique a i, h);
}

Step-Inv : {s t : Pipe} → Step false s t → Inv s → Inv t
Step-Inv {s} (start i e) v = Inv-move i s.fifo opening v (λ h. cc)
Step-Inv {s} (opened i j e p o) v = Inv-move i s.fifo spinning v (λ h. cc)
Step-Inv (open_failed i f e) v = cc
Step-Inv (spin i e l) v = v
Step-Inv {s} (acquire i e l) v = record {
  locked = λ a x. refl;
  unique = λ a b x y. ground (arith, v.locked a, v.locked b);
}
Step-Inv {s} (write i e) v = Inv-move (suc i) _ leaving v (λ h. ground arith)
Step-Inv {s} (read e l) v = Inv-move 0 _ leaving v (λ h. ground arith)
Step-Inv {s} (read_end e l o) v = Inv-move 0 _ leaving v (λ h. ground arith)
Step-Inv {s} (release i e) v = record {
  locked = λ a x. ground (arith, v.unique a i);
  unique = λ a b x y. ground (arith, v.unique a b);
}

Reach-Inv : {s : Pipe} → Reach false init s → Inv s
Reach-Inv here = Inv-init
Reach-Inv (next r st) = Step-Inv st (Reach-Inv r)

-- From the start, as long as no `open` fails, two threads are never between the lock and its
-- release together.
pub mutual_exclusion :
    {s : Pipe}
    → Reach false init s
    → (i j : ℕ) → critical (s.pc i) ≡ true
    → critical (s.pc j) ≡ true
    → i ≡ j
mutual_exclusion r = (Reach-Inv r).unique

-- A failing `open` releases the lock of another thread: where one thread holds the lock, a second
-- fails to open the FIFO and a third spins, two steps bring the third into the critical section
-- beside the first.
pub failed_open_breaks_exclusion :
    (s : Pipe) (i j k : ℕ)
    → i ≢ j
    → i ≢ k
    → j ≢ k
    → s.pc i ≡ holding
    → s.pc j ≡ opening
    → s.pc k ≡ spinning
    → (t : Pipe) × Reach true s t × (critical (t.pc i) ≡ true) × (critical (t.pc k) ≡ true)
failed_open_breaks_exclusion s i j k ij ik jk hi hj hk =
    let t : Pipe = record s { lock = false; pc = update s.pc j idle } in
    (
      record t { lock = true; pc = update t.pc k holding },
      next (next here (open_failed j refl hj)) (acquire k (ground arith) refl),
      ground arith,
      ground arith,
    )
