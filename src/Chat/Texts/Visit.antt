-- ===== src/Chat/Texts/Visit.antt =====
-- The whole visit of a client: the name and the id, the lines, and `quit`.
use mathlib.Core.List.{append_cancel_left}
use aip_pkussm.Prelude.{
  Bool, true, ℕ, suc, ◌<◌, ◌≡◌, refl, sym, ◌∙◌, ap, some, Bool-cases, inl, inr, List, [], ◌∷◌, ◌++◌,
  append_assoc, length, ◌==◌, if◌then◌else◌, CString, ℤ, arith,
}
use aip_pkussm.Net.{Socket, ok, Feeds, Delivers}
use aip_pkussm.Transfer.Send.{send-ok}
use aip_pkussm.Host.{Disk, Host}
use aip_pkussm.Chat.{Message, Layout, IsSendable}
use aip_pkussm.Chat.Users.{User, Cmsg}
use aip_pkussm.Chat.Users.Table.{IsStray, fd_of, conn_handler-updates}
use aip_pkussm.Chat.Dispatch.{loop_dispatch}
use aip_pkussm.Chat.Pipe.{get_message, read_message}
use aip_pkussm.Chat.Texts.InTurn.{in_turn, texts_in_turn}
use aip_pkussm.Chat.Client.{Me, conn_message, comm_conn}
use aip_pkussm.Chat.Server.{Leftover, Process, registered, clithread, handle_msg, conn_handle}
use aip_pkussm.Chat.Server.Parse.{parse_msg-empty}
use aip_pkussm.Chat.Session.{IsUser, state_eq}
use aip_pkussm.Chat.Console.{value_of, actions, console, newline}
use aip_pkussm.Chat.Console.Input.{IsNumber}
use aip_pkussm.Chat.Console.Greeting.{IsName, greeting, read_me-greeting, actions-newline}
use aip_pkussm.Chat.Texts.{Text, AreFor, all_bytes, sends_for}
use aip_pkussm.Chat.Texts.Served.{rounds_for, dispatch_nothing}
use aip_pkussm.Chat.Texts.Said.{Line, texts_of, input_of, console-says}

-- What a user of a name and an id types: the two answers, the lines, and `quit`.
abbrev pub visit_of : CString → List ℕ → List Line → List ℕ
visit_of name digits lines = greeting name digits (input_of lines)

abbrev pub user_of : CString → List ℕ → Me
user_of name digits = record { my_name = name; my_id = value_of digits 0 }

actions-lines_behind :
    (lines : List Line) (texts : List Text)
    → actions (rounds_for texts 1) (newline ∷ input_of lines)
      ≡ actions (rounds_for texts 1) (input_of lines)
actions-lines_behind lines [] = actions-newline 0 (input_of lines)
actions-lines_behind lines (t ∷ texts) = actions-newline (rounds_for texts 1) (input_of lines)

module _ (k : Socket) (out : Delivers k) (d : Disk) (w : Layout) (msg : Message) where
  open out use {sent, grows}

  -- What a client sends in a visit: that it is there, then its texts.
  pub console-visits :
      (name digits : List ℕ) (lines : List Line) (h : Host k d)
      → IsName name
      → IsNumber digits
      → (s : k.State) × (console k d w msg
            (rounds_for (texts_of lines) 1)
            (visit_of name digits lines)
            h
          ≡ ok tt (record h { link = s }))
        × (sent s
            ≡ sent h.link
              ++ (w.bytes (conn_message (user_of name digits))
                  ++ all_bytes w (user_of name digits) (texts_of lines)))
  unfolding console comm_conn
  console-visits name digits lines h v n =
      let me = user_of name digits in
      let hello = w.bytes (conn_message me) in
      let s1 = (k.send h.link hello).1 in
      let h1 : Host k d = record h { link = s1 } in
      let (s, e, g) = console-says k out d w msg me lines h1 in
      (
        s,
        ground (
          arith,
          read_me-greeting name digits (input_of lines) v n,
          send-ok k out hello h.link,
          actions-lines_behind lines (texts_of lines),
          e,
        ),
        g
            ∙ ap (λ x. x ++ all_bytes w me (texts_of lines)) (grows h.link hello)
            ∙ append_assoc (sent h.link) hello (all_bytes w me (texts_of lines)),
      )

-- What is known of a table whose entry for `id` is changed.
AreFor-entered :
    (users later : List User) (id : ℕ) (fd : ℤ) (texts : List Text)
    → ((j : ℕ) → fd_of later j ≡ (if id == j then some fd else fd_of users j))
    → AreFor users texts
    → AreFor later texts
AreFor-entered users later id fd [] at v = tt
AreFor-entered users later id fd (t ∷ texts) at v = (
  v.0,
  v.1,
  v.2,
  v.3,
  elim (Bool-cases (id == t.id)) [
    | inl e ↦ λ none_there. cc (at t.id, e, none_there)
    | inr e ↦ λ none_there. v.4 (ground (arith, at t.id, e, none_there))
  ],
  AreFor-entered users later id fd texts at v.5,
)

module _ (k : Socket) (f : Feeds k) (d : Disk) (w : Layout) (c : Cmsg) (left : Leftover)
    (stray : IsStray c left.stack) (connfd : ℤ) (me : Me) (user : IsUser me) where
  -- The round of the thread that enters the client.
  thread_enters :
      (more : List ℕ) (p : Process k d) (n : ℕ)
      → me.my_id < length p.users
      → f.pending p.host.link ≡ w.bytes (conn_message me) ++ more
      → (u : k.State) × (users : List User) × (clithread k d w c left registered connfd (suc n) p
          ≡ clithread k d w c left registered connfd n
              (record p { host = record { link = u; files = p.host.files }; users = users }))
        × (f.pending u ≡ more)
        × ((j : ℕ) → fd_of users j ≡ (if me.my_id == j then some connfd else fd_of p.users j))
  unfolding clithread handle_msg registered conn_handle
  thread_enters more p n inside heard =
      let m = conn_message me in
      let fits : IsSendable m = record {
        name_fits = user.0;
        size_fits = omega arith;
        from_fits = user.1;
        to_fits = user.1;
      } in
      let (u, parsed, rest) =
        parse_msg-empty k f w m fits more p.host.link (left.junk n) refl heard in
      let (users, entered, size, at) =
        conn_handler-updates c left.stack m connfd p.users stray inside in
      (u, users, ground (arith, parsed, entered), rest, at)

module _ (kc k : Socket) (out : Delivers kc) (f : Feeds k) (dc d : Disk) (w : Layout)
    (msg : Message) (c : Cmsg) (left : Leftover) (stray : IsStray c left.stack) (connfd : ℤ)
    (name digits : List ℕ) (is_name : IsName name) (is_number : IsNumber digits) where
  -- A user types a name of one word, an id that the table has, lines `send <id><text>` (each id an
  -- `int` other than 0 of which the table has a connection, each text of 1 to 511 bytes, not starting
  -- with a digit) and `quit`. The server's thread that is handed exactly the bytes that the console
  -- sends, at whose end the connection closes, and the dispatcher take turns from an empty pipe, the
  -- dispatcher with the pipe open whenever the thread puts: the thread ends without an error, with
  -- the user's id mapped to the thread's connection in the table and every other id as before, if the
  -- control block on the server's stack does not look like one with a descriptor; and the dispatcher
  -- makes one call of `send` for each line, in order, to the connection that the table then has for
  -- its id, with the message and the text, and leaves the pipe empty.
  pub visit_served :
      (lines : List Line) (bytes : List ℕ) (h h' : Host kc dc) (p : Process k d) (held : ℕ → Bool)
      → console kc dc w msg (rounds_for (texts_of lines) 1) (visit_of name digits lines) h
        ≡ ok tt h'
      → out.sent h'.link ≡ out.sent h.link ++ bytes
      → f.pending p.host.link ≡ bytes
      → ((s : k.State) (n : ℕ) → f.pending s ≡ [] → (k.recv s n).0 ≡ some [])
      → p.reader ≡ true
      → p.fifo ≡ []
      → value_of digits 0 < length p.users
      → AreFor p.users (texts_of lines)
      → (q : Process k d) × (in_turn k d w c left connfd held
            (suc (rounds_for (texts_of lines) 1))
            p
          ≡ some (sends_for w (user_of name digits) q.users (texts_of lines), q))
        × ((j : ℕ)
            → fd_of q.users j ≡ (if value_of digits 0 == j then some connfd else fd_of p.users j))
        × (q.fifo ≡ [])
  unfolding in_turn clithread loop_dispatch get_message read_message
  visit_served lines bytes h h' p held run sent heard over reading empty inside known =
      let me = user_of name digits in
      let user : IsUser me = (is_name.fits_array, omega (arith, is_number.small)) in
      let texts = texts_of lines in
      let hello = w.bytes (conn_message me) in
      let (s, e, g) = console-visits kc out dc w msg name digits lines h is_name is_number in
      let same : s ≡ h'.link = ap (λ x. x.link) (state_eq (sym e ∙ run)) in
      let same_bytes : bytes ≡ hello ++ all_bytes w me texts =
        append_cancel_left (out.sent h.link) bytes _ (sym sent ∙ ap out.sent (sym same) ∙ g) in
      let (u, users, entered, rest, at) =
        thread_enters k f d w c left stray connfd me user (all_bytes w me texts) p 0 inside
          (heard ∙ same_bytes) in
      let p1 : Process k d = record p {
        host = record { link = u; files = p.host.files };
        users = users;
      } in
      let known1 = AreFor-entered p.users users me.my_id connfd texts at known in
      let (q, turns, fifo, kept) =
        texts_in_turn k f d w c left connfd held me user stray texts p1 known1 reading empty rest
          over in
      let idle : loop_dispatch c left.stack w held 1 p.fifo users ≡ some ([], p.fifo, users) =
        ap (λ l. loop_dispatch c left.stack w held 1 l users) empty
        ∙ dispatch_nothing c left.stack w held users
        ∙ ap (λ l. some ([], l, users)) (sym empty) in
      (q, rw (in_turn, entered, idle, turns, kept) refl, λ j. ap (λ x. fd_of x j) kept ∙ at j, fifo)
