-- ===== src/Signals.antt =====
-- A1/signal_comm.cc. A child process raises signals at itself; the time that each call of
-- `currentDateTime` answers is a parameter, numbered by the calls.
use aip_pkussm.Prelude.{
  ℕ, zero, suc, ◌+◌, ◌≡◌, refl, List, [], ◌∷◌, ◌++◌, CString, codes, ℤ, pos, negsuc,
}

pub data Signal : Type 0 where
  sigusr1 sigusr2 : Signal

-- What a handler does: it prints, and it may end the program by `exit (0)`.
pub data Handled : Type 0 where
  goes_on : List CString → Handled
  exits : List CString → Handled

-- What happens to a signal: the default, which ends the process for these two, or a handler.
pub data Disposition : Type 0 where
  by_default : Disposition
  handler : (Signal → ℕ → Handled) → Disposition

-- The dispositions of the two signals.
pub record Process : Type 0 where
  pub on_usr1 : Disposition
  pub on_usr2 : Disposition

-- How a process ends.
pub data Exit : Type 0 where
  exit_zero : Exit
  killed : Signal → Exit

module _ (date : ℕ → CString) where
  -- `sigHandler`, with the number of dates that were printed before.
  unfoldable pub sig_handler : Signal → ℕ → Handled
  sig_handler sigusr1 n = goes_on (date n ∷ [])
  sig_handler sigusr2 n = goes_on []

  -- `sigHandler2`, which is never installed.
  unfoldable pub sig_handler_2 : Signal → ℕ → Handled
  sig_handler_2 sigusr1 n = goes_on []
  sig_handler_2 sigusr2 n = exits (codes "exit" ∷ [])

  -- `signal`
  unfoldable pub signal : Signal → (Signal → ℕ → Handled) → Process → Process
  signal sigusr1 h p = record p { on_usr1 = handler h }
  signal sigusr2 h p = record p { on_usr2 = handler h }

  abbrev pub disposition_of : Process → Signal → Disposition
  disposition_of p sigusr1 = p.on_usr1
  disposition_of p sigusr2 = p.on_usr2

  -- `raise`, in front of what the process does next: what is printed, and the end.
  unfoldable pub raise_signal : Process → Signal → ℕ → (List CString × Exit) → List CString × Exit
  raise_signal p s n (lines, end) = elim (disposition_of p s) [
    | by_default ↦ ([], killed s)
    | handler h ↦ elim (h s n) [
      | goes_on printed ↦ (printed ++ lines, end)
      | exits printed ↦ (printed, exit_zero)
    ]
  ]

  -- The loop of `childProcess` with `max_count` turns left, and what is behind it.
  unfoldable pub turns : Process → ℕ → ℕ → List CString × Exit
  unfolding raise_signal
  turns p zero n = raise_signal p sigusr2 n ([], exit_zero)
  turns p (suc max_count) n = raise_signal p sigusr1 n (turns p max_count (n + 1))

  unfoldable pub child_process : Process → List CString × Exit
  unfolding turns
  child_process p = turns p 5 0

  -- `main`, with what `fork` returns.
  unfoldable pub main : ℤ → Process → List CString × Exit
  unfolding signal child_process
  main pid start =
      let p = signal sigusr1 sig_handler start in
      elim pid [
        | negsuc n ↦ (codes "error!" ∷ [], exit_zero)
        | pos zero ↦ child_process p
        | pos (suc n) ↦ ([], exit_zero)
      ]

  -- The dates of some turns.
  unfoldable dates : ℕ → ℕ → List CString
  dates zero n = []
  dates (suc count) n = date n ∷ dates count (n + 1)

  turns-dates :
      (p : Process) (count n : ℕ)
      → p.on_usr1 ≡ handler sig_handler
      → p.on_usr2 ≡ by_default
      → turns p count n ≡ (dates count n, killed sigusr2)
  unfolding turns dates raise_signal sig_handler
  turns-dates p zero n one two = rw two refl
  turns-dates p (suc count) n one two = rw (one, turns-dates p count (n + 1) one two) refl

  -- Started with the default for SIGUSR2, the child prints five dates and is then killed by SIGUSR2;
  -- it never prints "exit".
  main-child :
      (start : Process)
      → start.on_usr2 ≡ by_default
      → main (pos 0) start ≡ (dates 5 0, killed sigusr2)
  unfolding main child_process signal
  main-child start two = turns-dates (signal sigusr1 sig_handler start) 5 0 refl two
