-- ===== src/Ftp/Tests/Fetched.antt =====
-- A session of A3 in which a client fetches the same file twice.
use aip_pkussm.Prelude.{
  ◌≡◌, refl, some, List, [], ◌∷◌, ◌++◌, map, pos, arith, str_eq, sym, append-nil, false,
}
use aip_pkussm.Net.{ok}
use aip_pkussm.Net.Loopback.{Wires, loopback, loopback-Link, loopback_over, fed}
use aip_pkussm.Host.{Host}
use aip_pkussm.Ftp.Server.{registered, clithread}
use aip_pkussm.Ftp.Client.{console}
use aip_pkussm.Ftp.Fetches.{
  Fetch, AreThere, words_of, rounds_of, nothing, saved, requests, answers, served_all,
  files_fetched,
}
use aip_pkussm.Ftp.Tests.{Files, layout, disk, a_name, no_files, server_of, client_of, one_block}

abbrev twice : List Fetch
twice =
    record { name = a_name; content = one_block }
    ∷ record { name = a_name; content = one_block }
    ∷ []

abbrev server : Host loopback disk
server = record (server_of one_block) { link = fed (requests layout twice) }

abbrev client : Host loopback disk
client = client_of (answers layout twice)

abbrev saved_twice : Files
saved_twice = record no_files {
  saved = (a_name, map some one_block) ∷ (a_name, map some one_block) ∷ [];
}

there : AreThere disk server.files twice
unfolding str_eq
there = (
  refl,
  omega arith,
  omega arith,
  omega arith,
  refl,
  (refl, omega arith, omega arith, omega arith, refl, tt),
)

served_twice :
    (t : Wires) × (clithread loopback disk layout registered (pos 0) (rounds_of twice) server
      ≡ ok false (record server { link = t }))
    × (t.out ≡ [] ++ answers layout twice)
unfolding str_eq
served_twice =
    served_all loopback loopback-Link disk layout (pos 0) twice server there refl loopback_over

files_fetched_example :
    (false ≡ false)
    × ((record server { link = served_twice.0 }).files ≡ server.files)
    × ((t : Wires) × (console loopback disk layout (words_of twice) client
          ≡ ok tt (record { link = t; files = saved_twice }))
        × (t.input ≡ []))
unfolding str_eq
files_fetched_example =
    files_fetched loopback loopback loopback-Link loopback-Link disk disk layout (pos 0) twice
      (answers layout twice) [] server (record server { link = served_twice.0 }) client false
      saved_twice there refl loopback_over served_twice.1 served_twice.2 (sym (append-nil _))
      (saved refl (saved refl nothing))
