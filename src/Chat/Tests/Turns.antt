-- ===== src/Chat/Tests/Turns.antt =====
-- The theorem about the turns of several threads, at a concrete run.
use aip_pkussm.Prelude.{
  ℕ, zero, suc, ◌+◌, ◌≡◌, ◌↔◌, ◌<◌, refl, sym, ◌∙◌, ap, some, true, false, List, [], ◌∷◌, ◌++◌,
  append-nil, length, map, codes, ℤ, pos, arith,
}
use aip_pkussm.Net.{ok}
use aip_pkussm.Net.Loopback.{Wires, loopback, loopback-Feeds, loopback_over, fed}
use aip_pkussm.Chat.Users.Table.{fd_of}
use aip_pkussm.Chat.Server.{registered, clithread}
use aip_pkussm.Chat.Client.{Me, text_message}
use aip_pkussm.Chat.Dispatch.{Send, loop_dispatch}
use aip_pkussm.Chat.Heard.{
  digits, sender_len, wait_messages, exited, overrun, printed_len, wait_messages-overruns_iff,
}
use aip_pkussm.Chat.Heard.Told.{texts_to, bytes_to, message_of, room_heard}
use aip_pkussm.Chat.Texts.{Text, AreFor, all_bytes, bytes_of}
use aip_pkussm.Chat.Texts.Served.{thread_step, dispatch_step}
use aip_pkussm.Chat.Room.{Server, here, next, handles, dispatches, process_of, worked}
use aip_pkussm.Chat.Room.Order.{Conserves, Gone, taken_of, gone_text, said_by, sends_of}
use aip_pkussm.Chat.Room.Runs.{Reach-Conserves}
use aip_pkussm.Chat.Tests.{layout, disk, headers, left, jack, hi, some_users}

abbrev a_text : Text
a_text = record { id = 2; content = codes "Hi!" }

-- The clients 0 and 1 say a text each.
abbrev texts : ℕ → List Text
texts zero = a_text ∷ []
texts (suc zero) = a_text ∷ []
texts (suc (suc i)) = []

abbrev everyone : ℕ → Me
everyone i = jack

abbrev fds : ℕ → ℤ
fds i = pos (4 + i)

abbrev Room : Type 0
Room = Server loopback disk layout headers left fds

abbrev start : Room
start = record {
  links = λ i. fed (all_bytes layout jack (texts i));
  files = [];
  users = some_users;
  fifo = [];
  sends = [];
}

texts-AreFor : (i : ℕ) → AreFor some_users (texts i)
unfolding fd_of
texts-AreFor zero = (omega arith, omega arith, omega arith, omega arith, (λ e. cc), tt)
texts-AreFor (suc zero) = (omega arith, omega arith, omega arith, omega arith, (λ e. cc), tt)
texts-AreFor (suc (suc i)) = tt

-- The thread of client 1 takes its turn.
turn :
    (u : Wires) × (clithread loopback disk layout headers left registered
        (fds 1)
        1
        (process_of loopback disk layout headers left fds start 1)
      ≡ ok true (record (process_of loopback disk layout headers left fds start 1) {
        host = record { link = u; files = [] };
        fifo = bytes_of layout jack a_text;
      }))
    × (u.input ≡ [])
unfolding clithread
turn =
    thread_step loopback loopback-Feeds disk layout headers left (fds 1) jack (omega arith) a_text
      [] (process_of loopback disk layout headers left fds start 1) 0 (omega arith) (omega arith)
      (omega arith) refl refl

abbrev after_turn : Room
after_turn =
    worked loopback disk layout headers left fds start 1
      (record (process_of loopback disk layout headers left fds start 1) {
        host = record { link = turn.0; files = [] };
        fifo = bytes_of layout jack a_text;
      })

Reach-Conserves_example :
    Conserves loopback loopback-Feeds disk layout headers left fds everyone texts some_users
      after_turn
Reach-Conserves_example =
    Reach-Conserves loopback loopback-Feeds disk layout headers left fds everyone texts some_users
      (λ i. omega arith) (omega arith) loopback_over start after_turn refl refl refl (λ i. refl)
      texts-AreFor (next here (handles 1 _ turn.1))

-- Then the dispatcher takes the text from the pipe.
abbrev a_send : Send
a_send = record { connfd = pos 7; buff = bytes_of layout jack a_text }

dispatcher_turn :
    loop_dispatch headers left.stack layout (λ n. false) 1 (bytes_of layout jack a_text) some_users
    ≡ some (a_send ∷ [], [], some_users)
unfolding loop_dispatch fd_of
dispatcher_turn =
    ap (λ fifo. loop_dispatch headers left.stack layout (λ n. false) 1 fifo some_users)
      (sym (append-nil _))
    ∙ dispatch_step layout headers left.stack jack (omega arith) (omega arith) some_users
        (λ n. false) a_text [] 0 (pos 7) (omega arith) (omega arith) (omega arith) refl

abbrev after_dispatch : Room
after_dispatch = record after_turn { users = some_users; fifo = []; sends = a_send ∷ [] }

room_heard_example :
    (log : List Gone) × (after_dispatch.sends ≡ sends_of layout everyone some_users (taken_of log))
    × ((i : ℕ) → (rest : List Text) × (said_by i (map gone_text log) ++ rest ≡ texts i))
    × (let heard = texts_to (pos 7) some_users (taken_of log) in
        wait_messages loopback layout (suc (length heard)) (fed (bytes_to (pos 7) (a_send ∷ [])))
        ≡ (map (message_of everyone) heard, exited))
unfolding sender_len digits
room_heard_example =
    room_heard loopback loopback loopback-Feeds loopback-Feeds disk layout headers left fds everyone
      texts some_users (λ i. omega arith) (omega arith) loopback_over loopback_over start
      after_dispatch (pos 7) (fed (bytes_to (pos 7) (a_send ∷ []))) refl refl refl (λ i. refl)
      texts-AreFor
      (next (next here (handles 1 _ turn.1))
        (dispatches false (a_send ∷ []) [] some_users dispatcher_turn))
      (λ x. omega arith) refl

-- A name of 26 letters.
abbrev long_name : Me
long_name = record { my_name = codes "abcdefghijklmnopqrstuvwxyz"; my_id = 3 }

wait_messages-overruns_iff_example :
    (wait_messages loopback layout 1
        (fed ((layout.bytes (text_message long_name 2 hi) ++ hi) ++ []))
      ≡ ([], overrun))
    ↔ (26 < 26 + printed_len 3)
wait_messages-overruns_iff_example =
    wait_messages-overruns_iff loopback loopback-Feeds layout (text_message long_name 2 hi) hi [] 0
      (fed ((layout.bytes (text_message long_name 2 hi) ++ hi) ++ [])) (omega arith) refl refl
