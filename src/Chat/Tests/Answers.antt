-- ===== src/Chat/Tests/Answers.antt =====
-- The theorems about GET and PUT in the chatroom, at concrete inputs.
use aip_pkussm.Prelude.{
  true, length, ℤ, ℕ, ◌≡◌, refl, sym, some, List, [], ◌∷◌, ◌++◌, map, replicate, CString, codes,
  pos, arith, append-nil,
}
use aip_pkussm.Net.{ok}
use aip_pkussm.Net.Loopback.{Wires, loopback, loopback-Delivers, loopback-Feeds, loopback-Link, fed}
use aip_pkussm.Transfer.Send.{wire}
use aip_pkussm.Transfer.{Buffer}
use aip_pkussm.Host.{Disk, Host}
use aip_pkussm.Chat.{Message, block}
use aip_pkussm.Host.Serve.{put_file-run}
use aip_pkussm.Chat.Stored.{stored, file_put}
use aip_pkussm.Chat.Client.{get_request, comm_get, put_request, comm_put}
use aip_pkussm.Chat.Server.{Process, registered, answer_of, handle_msg, clithread}
use aip_pkussm.Chat.Heard.{digits, sender_len, wait_messages}
use aip_pkussm.Chat.Heard.Taken.{get_answered, answer_taken}
use aip_pkussm.Chat.Tests.{layout, headers, left, hi_message}

abbrev a_file : List ℕ
a_file = replicate 512 7

-- Every name can be read, and what is written is kept.
abbrev disk : Disk
disk = record {
  Files = List (CString × Buffer);
  open_read = λ f name. some a_file;
  create = λ f name. some f;
  write = λ f name buff. (name, buff) ∷ f;
}

abbrev server : Process loopback disk
server = record {
  host = record { link = fed []; files = [] };
  users = [];
  fifo = [];
  reader = true;
}

abbrev answer : Message
answer = answer_of left.resp_msg (codes "song") (pos 512)

answered :
    (t : Wires) × (handle_msg loopback disk layout headers left registered
        (pos 4)
        (get_request hi_message (codes "song"))
        server
      ≡ ok (pos 0) (record server { host = record { link = t; files = [] } }))
    × (t.out ≡ [] ++ (layout.bytes answer ++ wire a_file))
answered =
    get_answered loopback disk layout headers left (pos 4) loopback-Delivers hi_message
      (codes "song") a_file server refl (omega arith) (omega arith) (omega arith)

abbrev client : Host loopback disk
client = record { link = fed (layout.bytes answer ++ wire a_file); files = [] }

answer_taken_example :
    ((t : Wires) × (comm_get loopback disk layout hi_message (codes "song") client
        ≡ ok tt (record { link = t; files = (codes "song", map some a_file) ∷ [] }))
      × (t.input ≡ []))
    × ((t : Wires) × (wait_messages loopback layout 1 client.link ≡ (
          let (later, end) = wait_messages loopback layout 0 t in
          (record answer { data_ptr = block a_file } ∷ later, end)))
        × (t.input ≡ []))
unfolding sender_len digits
answer_taken_example =
    answer_taken loopback loopback disk disk layout headers left (pos 4) loopback-Delivers
      loopback-Link hi_message (codes "song") a_file (layout.bytes answer ++ wire a_file) [] server
      (record server { host = record { link = answered.0; files = [] } }) client (pos 0) [] 0 refl
      (omega arith) (omega arith) (omega arith) refl (omega arith) (omega arith) answered.1
      answered.2 (sym (append-nil _)) refl (omega arith)

-- The client puts the file.
putting :
    (t : Wires) × (comm_put loopback disk layout hi_message (codes "song") client
      ≡ ok (pos 0) (record client { link = t }))
    × (t.out
        ≡ []
          ++ (layout.bytes (put_request hi_message (codes "song") (pos (length a_file)))
              ++ wire a_file))
unfolding comm_put
putting =
    put_file-run loopback loopback-Delivers disk
      (λ n size. layout.bytes (put_request hi_message n size)) (codes "song") client a_file refl
      (omega arith) (omega arith) (omega arith)

abbrev put_sent : List ℕ
put_sent = layout.bytes (put_request hi_message (codes "song") (pos 512)) ++ wire a_file

abbrev receiving : Process loopback disk
receiving = record server { host = record { link = fed put_sent; files = [] } }

file_put_example :
    ◌≡◌ {A = ℤ} (pos 0) (pos 0)
    × ((t : Wires) × (clithread loopback disk layout headers left registered (pos 4) 2 receiving
          ≡ clithread loopback disk layout headers left registered (pos 4) 1 (record receiving {
            host = record {
              link = t;
              files = (codes "song", map some (stored (λ i. 0) a_file)) ∷ [];
            };
          }))
        × (t.input ≡ []))
file_put_example =
    file_put loopback loopback disk disk layout headers left (pos 4) loopback-Delivers
      loopback-Feeds hi_message (codes "song") a_file put_sent [] client
      (record client { link = putting.0 }) (pos 0) receiving [] 1 refl (omega arith) (omega arith)
      (omega arith) (omega arith) (omega arith) putting.1 putting.2 (sym (append-nil _)) refl
