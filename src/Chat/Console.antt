-- ===== src/Chat/Console.antt =====
-- `console` of A5/Chatroom/src/Client.cc. The input is the characters that have not been read; the
-- functions up to `read_line` are what `cin` and `gets` do with it.
pub mod Input
pub mod Ends
pub mod Greeting
use aip_pkussm.Prelude.{
  ℕ, zero, suc, ◌+◌, ◌-◌, ◌*◌, ◌^◌, ◌%◌, Bool, true, false, ◌&&◌, ◌||◌, Option, none, some, List,
  [], ◌∷◌, CString, codes, str_eq, length, ◌==◌, leb, ltb, if◌then◌else◌, ℤ, pos, negsuc,
}
use aip_pkussm.Net.{Socket, Io, fault, Exec, pure, ◌>>=◌, ◌>>◌}
use aip_pkussm.Host.{Disk, Host, catch, on_link}
use aip_pkussm.Host.Start.{Started, start_client}
use aip_pkussm.Ftp.Client.{fits, is_quit, is_put, is_get}
use aip_pkussm.Chat.{Message, Layout}
use aip_pkussm.Chat.Client.{Me, comm_get, comm_put, comm_conn, comm_sendmsg}

abbrev pub newline : ℕ
newline = 10

abbrev pub is_space : ℕ → Bool
is_space c = c == 32 || (leb 9 c && leb c 13)

abbrev pub is_digit : ℕ → Bool
is_digit c = leb 48 c && leb c 57

unfoldable pub skip_space : List ℕ → List ℕ
skip_space [] = []
skip_space (c ∷ input) = elim (is_space c) [ true ↦ skip_space input | false ↦ c ∷ input ]

-- The characters up to the first that fails a test, and the rest.
unfoldable pub span : (ℕ → Bool) → List ℕ → List ℕ × List ℕ
span p [] = ([], [])
span p (c ∷ input) =
    let (word, rest) = span p input in
    elim (p c) [ true ↦ (c ∷ word, rest) | false ↦ ([], c ∷ input) ]

abbrev pub in_word : ℕ → Bool
in_word c = elim (is_space c) [ true ↦ false | false ↦ true ]

-- `cin >> word`; `none` at the end of the input.
unfoldable pub read_word : List ℕ → Option (CString × List ℕ)
read_word input =
    let (word, rest) = span in_word (skip_space input) in
    elim word [ [] ↦ none | c ∷ cs ↦ some (c ∷ cs, rest) ]

unfoldable pub value_of : List ℕ → ℕ → ℕ
value_of [] v = v
value_of (d ∷ digits) v = value_of digits (v * 10 + (d - 48))

abbrev pub max_int : ℕ
max_int = 2147483647

-- The sign, if there is one: whether it is a minus.
unfoldable pub sign : List ℕ → Bool × List ℕ
sign [] = (false, [])
sign (c ∷ input) =
    if c == 45 then (true, input) else if c == 43 then (false, input) else (false, c ∷ input)

-- A number with its sign, and whether it is an `int`; if not, the nearest one is stored.
unfoldable pub int_of : Bool → ℕ → ℤ × Bool
int_of false v = if leb v max_int then (pos v, true) else (pos max_int, false)
int_of true zero = (pos 0, true)
int_of true (suc v) = if leb v max_int then (negsuc v, true) else (negsuc max_int, false)

-- `cin >> number`: the value, whether `cin` is still good, and the rest.
unfoldable pub read_int : List ℕ → ℤ × Bool × List ℕ
read_int input =
    let (minus, unsigned) = sign (skip_space input) in
    let (digits, rest) = span is_digit unsigned in
    elim digits [
      | [] ↦ (pos 0, false, rest)
      | d ∷ ds ↦ let (v, good) = int_of minus (value_of (d ∷ ds) 0) in (v, good, rest)
    ]

abbrev pub in_line : ℕ → Bool
in_line c = elim (c == newline) [ true ↦ false | false ↦ true ]

abbrev pub drop_newline : List ℕ → List ℕ
drop_newline [] = []
drop_newline (c ∷ rest) = rest

-- `gets`: the line without its newline, and what stands behind the newline; `none` at the end of
-- the input.
unfoldable pub read_line : List ℕ → Option (CString × List ℕ)
read_line [] = none
read_line (c ∷ input) =
    let (line, rest) = span in_line (c ∷ input) in some (line, drop_newline rest)

-- What the branches of the loop ask for.
pub data Command : Type 0 where
  quit put get send other : Command

unfoldable pub command_of : CString → Command
command_of word =
    if is_quit word
    then quit
    else if is_put word
    then put
    else if is_get word
    then get
    else if str_eq word (codes "send") || str_eq word (codes "sd")
    then send
    else other

-- What the console does in turn. `overflow` is a word or a line that does not fit its array;
-- `spinning` is a loop in which `cin` has failed for good.
pub data Action : Type 0 where
  run_quit : Action
  run_put : CString → Action
  run_get : CString → Action
  run_send : ℤ → CString → Action
  overflow : Action
  spinning : Action

abbrev pub max_data_size : ℕ
max_data_size = 512

-- The branch of `send`, in front of the actions that follow on the rest of the input.
unfoldable pub send_action : List ℕ → (List ℕ → List Action) → List Action
send_action input next =
    let (toid, good, rest) = read_int input in
    elim (read_line rest) [
      | none ↦ spinning ∷ []
      | some (content, rest) ↦ elim (ltb (length content) max_data_size) [
        | false ↦ overflow ∷ []
        | true ↦ run_send toid content ∷ elim good [ true ↦ next rest | false ↦ spinning ∷ [] ]
      ]
    ]

-- The branches of `put` and `get`.
unfoldable pub file_action : (CString → Action) → List ℕ → (List ℕ → List Action) → List Action
file_action run input next = elim (read_word input) [
  | none ↦ spinning ∷ []
  | some (fname, rest) ↦ elim (fits fname) [ false ↦ overflow ∷ [] | true ↦ run fname ∷ next rest ]
]

-- The loop of `console` for at most `rounds` commands.
unfoldable pub actions : ℕ → List ℕ → List Action
unfolding command_of send_action file_action
actions zero input = []
actions (suc rounds) input = elim (read_word input) [
  | none ↦ spinning ∷ []
  | some (word, rest) ↦ elim (fits word) [
    | false ↦ overflow ∷ []
    | true ↦ elim (command_of word) [
      | quit ↦ run_quit ∷ []
      | put ↦ file_action run_put rest (actions rounds)
      | get ↦ file_action run_get rest (actions rounds)
      | send ↦ send_action rest (actions rounds)
      | other ↦ actions rounds rest
    ]
  ]
]

-- An `int` in an `unsigned int`.
abbrev pub to_unsigned : ℤ → ℕ
to_unsigned (pos n) = n % 2 ^ 32
to_unsigned (negsuc n) = 2 ^ 32 - 1 - n % 2 ^ 32

module _ (k : Socket) (d : Disk) (w : Layout) (msg : Message) (me : Me) where
  -- What `comm_put` and `comm_sendmsg` return is not looked at. Nothing is modelled behind
  -- `spinning`.
  unfoldable pub run_actions : List Action → Exec (Host k d) (Unit {0})
  run_actions [] = pure tt
  run_actions (run_quit ∷ rest) = pure tt
  run_actions (run_put name ∷ rest) = do ret ← comm_put k d w msg name; run_actions rest
  run_actions (run_get name ∷ rest) = do comm_get k d w msg name; run_actions rest
  run_actions (run_send toid content ∷ rest) = do
    ret ← catch (do on_link (comm_sendmsg k w me (to_unsigned toid) content); pure (pos 0))
    run_actions rest
  run_actions (overflow ∷ rest) = λ h. fault
  run_actions (spinning ∷ rest) = pure tt

-- `my_id`, which is -1 before it is read: a read at the end of the input leaves it alone.
unfoldable pub read_id : List ℕ → ℤ × Bool × List ℕ
read_id input = elim (skip_space input) [
  | [] ↦ (negsuc 0, false, [])
  | c ∷ rest ↦ read_int (c ∷ rest)
]

-- The questions at the start: the name and the id, whether `cin` is still good, and the rest;
-- `none` for a name that does not fit its array.
unfoldable pub read_me : List ℕ → Option (Me × Bool × List ℕ)
unfolding read_id
read_me input = elim (read_word input) [
  | none ↦ some (record { my_name = []; my_id = to_unsigned (negsuc 0) }, false, [])
  | some (name, rest) ↦
      let (id, good, later) = read_id rest in
      if fits name
      then some (record { my_name = name; my_id = to_unsigned id }, good, later)
      else none
]

-- `console`, for at most `rounds` commands; what `comm_conn` returns is not looked at either.
unfoldable pub console :
    (k : Socket) (d : Disk) → Layout → Message → ℕ → List ℕ → Exec (Host k d) (Unit {0})
unfolding run_actions actions read_me
console k d w msg rounds input = elim (read_me input) [
  | none ↦ λ h. fault
  | some (me, good, rest) ↦ do
    ret ← catch (do on_link (comm_conn k w me); pure (pos 0))
    run_actions k d w msg me (if good then actions rounds rest else spinning ∷ [])
]

-- `main`, with the characters of the input; `close` and `exit (0)` come behind the console.
unfoldable pub main :
    (k : Socket) (d : Disk)
    → Layout
    → Message
    → (CString → ℤ)
    → Bool
    → (CString → ℕ → Bool)
    → List CString
    → ℕ
    → List ℕ
    → Host k d
    → Started (Io (Host k d) (Unit {0}))
unfolding console start_client
main k d w msg atoi socket connect args rounds input h =
    start_client atoi socket connect args (console k d w msg rounds input h)
