-- ===== src/Ftp/Tests/Examples.antt =====
-- The theorems about A3 at concrete inputs.
use aip_pkussm.Prelude.{
  ℕ, ◌%◌, ◌≡◌, ◌≢◌, ◌↔◌, ◌⊎◌, ◌<◌, ◌^◌, some, some_inj, ap, refl, List, [], ◌∷◌, ◌++◌, length, drop,
  codes, ℤ, pos, arith, str_eq, sym, append-nil,
}
use aip_pkussm.Net.{ok, fault}
use aip_pkussm.Net.Loopback.{
  Wires, loopback, loopback-Delivers, loopback-Feeds, loopback-Link, loopback_over,
}
use aip_pkussm.Transfer.Send.{wire}
use aip_pkussm.Transfer.Received.{received, wire_rest}
use aip_pkussm.Host.{minus_one}
use aip_pkussm.Ftp.{get}
use aip_pkussm.Ftp.Handlers.{answer_of, open_error}
use aip_pkussm.Ftp.Server.{registered, handle_msg}
use aip_pkussm.Ftp.Client.{get_request, put_request, comm_get}
use aip_pkussm.Ftp.Session.{get_served, get_missing, get_session, get_missing_crashes, put_stored}
use aip_pkussm.Ftp.Crashes.{IsShortFile, handle_msg-fault_iff}
use aip_pkussm.Ftp.Tests.{layout, disk, a_name, no_files, server_of, client_of, longer}

-- A file of 600 bytes is served with a block of 512 bytes and the first 88 of that block again.
served_longer :
    (t : Wires) × (handle_msg loopback disk layout registered
        (pos 0)
        (get_request a_name)
        (server_of longer)
      ≡ ok (pos 0) (record (server_of longer) { link = t }))
    × (t.out ≡ [] ++ (layout.bytes (answer_of a_name (pos (length longer))) ++ wire longer))
unfolding str_eq
served_longer =
    get_served loopback disk layout (pos 0) loopback-Delivers a_name longer (server_of longer) refl
      (omega arith) (omega arith) (omega arith)

-- The server's answer to the GET of `content`, when the client is handed just that.
abbrev heard : List ℕ → List ℕ
heard content = layout.bytes (answer_of a_name (pos (length content))) ++ wire content

get_session_example :
    (t : Wires) × (comm_get loopback disk layout a_name (client_of (heard longer))
      ≡ ok tt
          (record { link = t; files = record no_files { saved = (a_name, received longer) ∷ [] } }))
    × (t.input ≡ [])
unfolding str_eq
get_session_example =
    get_session loopback loopback disk disk layout (pos 0) loopback-Delivers loopback-Link a_name
      longer (heard longer) [] (server_of longer)
      (record (server_of longer) { link = served_longer.0 }) (client_of (heard longer)) (pos 0)
      no_files refl (omega arith) (omega arith) (omega arith) served_longer.1 served_longer.2
      (sym (append-nil (heard longer))) refl

missing :
    (t : Wires) × (handle_msg loopback disk layout registered
        (pos 0)
        (get_request (codes "none"))
        (server_of longer)
      ≡ ok minus_one (record (server_of longer) { link = t }))
    × (t.out ≡ [] ++ layout.bytes open_error)
unfolding str_eq
missing =
    get_missing loopback disk layout (pos 0) loopback-Delivers (codes "none") (server_of longer)
      refl

get_missing_crashes_example :
    ◌≡◌ {A = ℤ} minus_one minus_one
    × (comm_get loopback disk layout (codes "none") (client_of (layout.bytes open_error)) ≡ fault)
unfolding str_eq
get_missing_crashes_example =
    get_missing_crashes loopback loopback disk disk layout (pos 0) loopback-Delivers loopback-Link
      (codes "none") (layout.bytes open_error) (server_of longer)
      (record (server_of longer) { link = missing.0 }) (client_of (layout.bytes open_error))
      minus_one refl (omega arith) missing.1 missing.2 refl loopback_over refl

put_stored_example :
    (t : Wires) × (handle_msg loopback disk layout registered
        (pos 8)
        (put_request a_name (pos (length longer)))
        (client_of (wire longer))
      ≡ ok
          (pos 0)
          (record { link = t; files = record no_files { saved = (a_name, received longer) ∷ [] } }))
    × (t.input ≡ drop (8 % 512) (wire_rest longer) ++ [])
put_stored_example =
    put_stored loopback disk layout loopback-Feeds 8 a_name longer [] (client_of (wire longer))
      no_files refl (omega arith) (omega arith) (sym (append-nil (wire longer)))

abbrev short_song : List ℕ
short_song = 1 ∷ 2 ∷ 3 ∷ []

short_song_small :
    (file : List ℕ)
    → disk.open_read (server_of short_song).files a_name ≡ some file
    → length file < 2 ^ 31
unfolding str_eq
short_song_small file e = let same : short_song ≡ file = some_inj e in omega (arith, ap length same)

-- The client asks for a file of three bytes.
handle_msg-fault_iff_example :
    (handle_msg loopback disk layout registered (pos 0) (get_request a_name) (server_of short_song)
      ≡ fault)
    ↔ ((get ≢ get)
        ⊎ ((file : List ℕ) × (disk.open_read (server_of short_song).files a_name ≡ some file)
            × IsShortFile file))
handle_msg-fault_iff_example =
    handle_msg-fault_iff loopback loopback-Delivers disk layout (pos 0) (get_request a_name)
      (server_of short_song) (λ e. cc) (omega arith) short_song_small
