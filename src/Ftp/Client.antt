-- ===== src/Ftp/Client.antt =====
-- A3/FileClient.cc: the commands of the client and its console.
use aip_pkussm.Prelude.{
  ℕ, Bool, List, [], ◌∷◌, CString, codes, str_eq, length, ◌==◌, ◌&&◌, ◌||◌, leb, ltb, if◌then◌else◌,
  ℤ, pos,
}
use aip_pkussm.Net.{Socket, Io, fault, Exec, pure, ◌>>=◌, ◌>>◌}
use aip_pkussm.Host.{Disk, Host, get_file, put_file}
use aip_pkussm.Host.Start.{Started, start_client}
use aip_pkussm.Ftp.{Message, Layout, put, get}

abbrev pub get_request : CString → Message
get_request name = record { command = get; fname = name; data_size = pos 0 }

abbrev pub put_request : CString → ℤ → Message
put_request name size = record { command = put; fname = name; data_size = size }

abbrev pub named_size : Message → CString × ℤ
named_size m = (m.fname, m.data_size)

-- What one turn of the console's loop makes of the words that `cin` reads.
pub data Action : Type 0 where
  run_quit : Action
  run_put : CString → Action
  run_get : CString → Action
  overflow : Action  -- a word that does not fit its array

-- `console_comm` and `fname` are arrays of 32 characters.
abbrev pub fits : CString → Bool
fits word = ltb (length word) 32

abbrev pub is_quit : CString → Bool
is_quit word = (length word == 4 && str_eq word (codes "quit")) || str_eq word (codes "q")

abbrev pub is_put : CString → Bool
is_put word = length word == 3 && str_eq word (codes "put")

abbrev pub is_get : CString → Bool
is_get word = length word == 3 && str_eq word (codes "get")

-- The loop of `console`, over the words of the input, up to the end of the input.
unfoldable pub actions : List CString → List Action
actions [] = []
actions (word ∷ []) =
    if fits word then (if is_quit word then run_quit ∷ [] else []) else overflow ∷ []
actions (word ∷ name ∷ words) =
    let after_name = actions words in
    let after_word = actions (name ∷ words) in
    if leb 32 (length word)
    then overflow ∷ []
    else if is_quit word
    then run_quit ∷ []
    else if is_put word
    then (if fits name then run_put name ∷ after_name else overflow ∷ [])
    else if is_get word
    then (if fits name then run_get name ∷ after_name else overflow ∷ [])
    else after_word

module _ (k : Socket) (d : Disk) (w : Layout) where
  unfoldable pub comm_get : CString → Exec (Host k d) (Unit {0})
  comm_get fname =
      get_file k d (λ name. w.bytes (get_request name)) w.message_len (λ b. named_size (w.parse b))
        fname

  unfoldable pub comm_put : CString → Exec (Host k d) ℤ
  comm_put fname = put_file k d (λ name size. w.bytes (put_request name size)) fname

  -- The console ignores what `comm_put` returns; `comm_QUIT` has no body.
  unfoldable pub run_actions : List Action → Exec (Host k d) (Unit {0})
  unfolding comm_get comm_put
  run_actions [] = pure tt
  run_actions (run_quit ∷ rest) = pure tt
  run_actions (run_put name ∷ rest) = do ret ← comm_put name; run_actions rest
  run_actions (run_get name ∷ rest) = do comm_get name; run_actions rest
  run_actions (overflow ∷ rest) = λ h. fault

  unfoldable pub console : List CString → Exec (Host k d) (Unit {0})
  unfolding actions run_actions
  console words = run_actions (actions words)

  -- `main`, with the words of the input; `close` and `exit (0)` come behind the console.
  unfoldable pub main :
      (CString → ℤ)
      → Bool
      → (CString → ℕ → Bool)
      → List CString
      → List CString
      → Host k d
      → Started (Io (Host k d) (Unit {0}))
  unfolding console start_client
  main atoi socket connect args words h = start_client atoi socket connect args (console words h)
