-- ===== src/Chat/Tests/Rooms.antt =====
-- The theorems about whole conversations at concrete inputs.
use aip_pkussm.Prelude.{
  ℕ, ◌≡◌, refl, false, some, List, [], ◌∷◌, ◌++◌, codes, pos, arith, if◌then◌else◌, ◌==◌,
}
use aip_pkussm.Net.{ok}
use aip_pkussm.Net.Loopback.{Wires, loopback, loopback-Delivers, loopback-Feeds, loopback_over, fed}
use aip_pkussm.Host.{Host}
use aip_pkussm.Chat.Users.Table.{fd_of}
use aip_pkussm.Chat.Texts.InTurn.{in_turn}
use aip_pkussm.Chat.Server.{Process}
use aip_pkussm.Chat.Console.{value_of}
use aip_pkussm.Chat.Console.Input.{IsText, IsNumber}
use aip_pkussm.Chat.Console.{console}
use aip_pkussm.Chat.Console.Greeting.{IsName}
use aip_pkussm.Chat.Client.{Me, conn_message}
use aip_pkussm.Chat.Texts.Visit.{user_of, visit_of, console-visits, visit_served}
use aip_pkussm.Chat.Texts.{all_bytes, sends_for}
use aip_pkussm.Chat.Texts.Said.{Line, texts_of}
use aip_pkussm.Chat.Tests.{layout, disk, headers, left, some_users, server_of}

two-IsNumber : IsNumber (codes "2")
unfolding value_of
two-IsNumber = record { all_digits = (refl, tt); some_digit = omega arith; small = omega arith }

hi-IsText : IsText (codes " Hi!")
hi-IsText = record {
  one_line = (refl, (refl, (refl, (refl, tt))));
  fits_array = omega arith;
  no_digit = refl;
}

abbrev line : Line
line = record {
  digits = codes "2";
  content = codes " Hi!";
  is_number = two-IsNumber;
  is_text = hi-IsText;
}

-- Two lines.
abbrev lines : List Line
lines = line ∷ line ∷ []

abbrev client : Host loopback disk
client = record { link = fed []; files = [] }

one-IsNumber : IsNumber (codes "1")
unfolding value_of
one-IsNumber = record { all_digits = (refl, tt); some_digit = omega arith; small = omega arith }

jack-IsName : IsName (codes "jack")
jack-IsName = record {
  one_word = (refl, (refl, (refl, (refl, tt))));
  some_letter = omega arith;
  fits_array = omega arith;
}

abbrev visitor : Me
visitor = user_of (codes "jack") (codes "1")

abbrev bytes : List ℕ
bytes = layout.bytes (conn_message visitor) ++ all_bytes layout visitor (texts_of lines)

visit :
    (s : Wires) × (console loopback disk layout left.resp_msg 3
        (visit_of (codes "jack") (codes "1") lines)
        client
      ≡ ok tt (record client { link = s }))
    × (s.out ≡ [] ++ bytes)
visit =
    console-visits loopback loopback-Delivers disk layout left.resp_msg (codes "jack") (codes "1")
      lines client jack-IsName one-IsNumber

visit_served_example :
    (q : Process loopback disk) × (in_turn loopback disk layout headers left
        (pos 4)
        (λ n. false)
        4
        (server_of bytes)
      ≡ some (sends_for layout visitor q.users (texts_of lines), q))
    × ((j : ℕ)
        → fd_of q.users j
          ≡ (if value_of (codes "1") 0 == j then some (pos 4) else fd_of some_users j))
    × (q.fifo ≡ [])
unfolding fd_of value_of
visit_served_example =
    visit_served loopback loopback loopback-Delivers loopback-Feeds disk disk layout left.resp_msg
      headers left (omega arith) (pos 4) (codes "jack") (codes "1") jack-IsName one-IsNumber lines
      bytes client (record client { link = visit.0 }) (server_of bytes) (λ n. false) visit.1 visit.2
      refl loopback_over refl refl (omega arith)
      (
        omega arith,
        omega arith,
        omega arith,
        omega arith,
        (λ e. cc),
        (omega arith, omega arith, omega arith, omega arith, (λ e. cc), tt),
      )
