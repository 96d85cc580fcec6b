-- ===== src/Chat/Tests/Examples.antt =====
-- The theorems about the chatroom at concrete inputs.
use aip_pkussm.Prelude.{
  ◌&&◌, ℕ, zero, suc, ◌≡◌, refl, true, false, none, some, [], ◌++◌, map, pos, arith, List, ◌∷◌, ◌<◌,
  ◌^◌, ◌≤◌, ◌⊎◌, length, ◌==◌, if◌then◌else◌,
}
use aip_pkussm.Chat.Poll.{Call, puts, gets}
use aip_pkussm.Chat.Pipe.Queue.{IsWhole}
use aip_pkussm.Chat.{Message}
use aip_pkussm.Chat.Users.{User, conn_handler, fresh_users}
use aip_pkussm.Chat.Users.Table.{fd_of, conn_handler-refines}
use aip_pkussm.Chat.Pipe.Lock.{
  Pipe, Pc, init, Reach, here, next, spin, critical, opening, holding, spinning,
}
use aip_pkussm.Chat.Pipe.Lock.Exclusion.{mutual_exclusion, failed_open_breaks_exclusion}
use aip_pkussm.Chat.Pipe.Lock.Deadlock.{IsStuck, stuck_for_ever, stuck_is_reachable}
use aip_pkussm.Chat.Dispatch.{dispatch}
use aip_pkussm.Chat.Dispatch.Delivery.{addressees, send_to, dispatch-addressees}
use aip_pkussm.Chat.Client.{text_message, conn_message}
use aip_pkussm.Chat.Tests.{layout, headers, blank, jack, hi, hi_message, some_users}

conn_handler-refines_example :
    ((1 < 32)
      × (users : List User) × (conn_handler headers blank (conn_message jack) (pos 4) fresh_users
          ≡ some users)
      × (length users ≡ 32)
      × ((j : ℕ) → fd_of users j ≡ (if 1 == j then some (pos 4) else fd_of fresh_users j)))
    ⊎ ((32 ≤ 1) × (conn_handler headers blank (conn_message jack) (pos 4) fresh_users ≡ none))
conn_handler-refines_example =
    conn_handler-refines headers blank (conn_message jack) (pos 4) fresh_users (omega arith)

abbrev to_all : Message
to_all = text_message jack 0 hi

dispatch-addressees_example :
    dispatch layout to_all some_users
    ≡ some (
        if 0 == 0 && 1 == 0
        then []
        else map (send_to (layout.bytes to_all ++ hi)) (addressees to_all 0 some_users))
unfolding fd_of
dispatch-addressees_example = dispatch-addressees layout to_all hi some_users refl refl (λ e. cc)

deadlocked : (s : Pipe) × Reach false init s × IsStuck 0 s
deadlocked = stuck_is_reachable 0

stuck_is_reachable_example : (s : Pipe) × Reach false init s × IsStuck 3 s
stuck_is_reachable_example = stuck_is_reachable 3

stuck_for_ever_example : IsStuck 0 deadlocked.0
stuck_for_ever_example =
    stuck_for_ever deadlocked.2 (next here (spin 1 deadlocked.2.writer deadlocked.2.taken))

-- In the deadlock the reader alone is in the critical section.
reader_in : critical (deadlocked.0.pc 0) ≡ true
reader_in = rw deadlocked.2.reader refl

mutual_exclusion_example : ◌≡◌ {A = ℕ} 0 0
mutual_exclusion_example = mutual_exclusion deadlocked.1 0 0 reader_in reader_in

abbrev crowd : ℕ → Pc
crowd zero = holding
crowd (suc zero) = opening
crowd _ = spinning

abbrev crowded : Pipe
crowded = record { lock = true; fifo = 0; pc = crowd }

failed_open_breaks_exclusion_example :
    (t : Pipe) × Reach true crowded t × (critical (t.pc 0) ≡ true) × (critical (t.pc 2) ≡ true)
failed_open_breaks_exclusion_example =
    failed_open_breaks_exclusion crowded 0 1 2 (omega arith) (omega arith) (omega arith) refl refl
      refl

-- A `getMessage` that has to wait, two messages, of which the second is lost, and three more calls.
abbrev calls : List (Call Message)
calls = gets ∷ puts hi_message ∷ puts (text_message jack 3 hi) ∷ gets ∷ gets ∷ gets ∷ []

abbrev whole : (to : ℕ) → to < 2 ^ 32 → IsWhole (text_message jack to hi)
whole to h = record { fits = omega arith; text = hi; size = refl; body = refl }
