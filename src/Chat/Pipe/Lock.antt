-- ===== src/Chat/Pipe/Lock.antt =====
-- The threads of A5/Chatroom/src/MessagePipe.cc: `getMessage` by the thread of `loop_dispatch`,
-- number 0, and `putMessage` by the threads of the clients, from 1 on. Each access to the lock and
-- to the FIFO is one step. The steps of `open`, `read` and `write` follow the FIFO's documented
-- behaviour: `open` waits for the other side, and `read` waits for data as long as the FIFO is open
-- for writing, and returns nothing where it is not. A message is written and read as a whole.
pub mod Exclusion
pub mod Deadlock
use aip_pkussm.Prelude.{update, ℕ, zero, suc, ◌+◌, ◌-◌, ◌<◌, ◌≡◌, ◌≢◌, ◌⊎◌, Bool, true, false}

-- Where a thread stands in its method.
pub data Pc : Type 0 where
  idle : Pc
  opening : Pc  -- in `open`
  spinning : Pc  -- at the `while` over `atomic_exchange_explicit`
  holding : Pc  -- before `write`, or before the two calls of `read`
  leaving : Pc  -- before `atomic_store_explicit (&lock, false, …)`

pub record Pipe : Type 0 where
  pub lock : Bool
  pub fifo : ℕ  -- messages in the FIFO
  pub pc : ℕ → Pc

abbrev pub critical : Pc → Bool
critical holding = true
critical leaving = true
critical _ = false

-- Has the FIFO open.
abbrev pub is_open : Pc → Bool
is_open spinning = true
is_open holding = true
is_open leaving = true
is_open _ = false

-- One is the reader and the other a writer.
abbrev pub ArePeers : ℕ → ℕ → Type 0
ArePeers i j = (i ≢ j) × ((i ≡ 0) ⊎ (j ≡ 0))

-- One step of one thread. `open` may fail only where `may_fail` says so.
pub data Step (may_fail : Bool) (s : Pipe) : Pipe → Type 0 where
  start : (i : ℕ) → s.pc i ≡ idle → Step may_fail s (record s { pc = update s.pc i opening })
  opened :
      (i j : ℕ)
      → s.pc i ≡ opening
      → ArePeers i j
      → s.pc j ≢ idle
      → Step may_fail s (record s { pc = update s.pc i spinning })
  open_failed :
      (i : ℕ)
      → may_fail ≡ true
      → s.pc i ≡ opening
      → Step may_fail s (record s { lock = false; pc = update s.pc i idle })
  spin : (i : ℕ) → s.pc i ≡ spinning → s.lock ≡ true → Step may_fail s s
  acquire :
      (i : ℕ)
      → s.pc i ≡ spinning
      → s.lock ≡ false
      → Step may_fail s (record s { lock = true; pc = update s.pc i holding })
  write :
      (i : ℕ)
      → s.pc (suc i) ≡ holding
      → Step may_fail s (record s { fifo = s.fifo + 1; pc = update s.pc (suc i) leaving })
  read :
      s.pc 0 ≡ holding
      → 0 < s.fifo
      → Step may_fail s (record s { fifo = s.fifo - 1; pc = update s.pc 0 leaving })
  read_end :
      s.pc 0 ≡ holding
      → s.fifo ≡ 0
      → ((j : ℕ) → is_open (s.pc (suc j)) ≡ false)
      → Step may_fail s (record s { pc = update s.pc 0 leaving })
  release :
      (i : ℕ)
      → s.pc i ≡ leaving
      → Step may_fail s (record s { lock = false; pc = update s.pc i idle })

-- After the constructor.
abbrev pub init : Pipe
init = record { lock = false; fifo = 0; pc = λ i. idle }

pub data Reach (may_fail : Bool) (s : Pipe) : Pipe → Type 0 where
  here : Reach may_fail s s
  next : {t u : Pipe} → Reach may_fail s t → Step may_fail t u → Reach may_fail s u
