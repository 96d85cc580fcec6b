-- ===== src/Chat/Heard/Told.antt =====
-- What a client of the chatroom hears of what the others say: from their texts through the server's
-- threads, the pipe and the dispatcher to its thread of `comm_waitmsg`.
use mathlib.Core.Path.{subst}
use aip_pkussm.Prelude.{
  ℕ, suc, Option-cases, Bool-cases, inl, inr, ◌≤◌, ◌≡◌, ◌==◌, refl, sym, ◌∙◌, ap, Bool, false, none,
  some, List, [], ◌∷◌, ◌++◌, append-nil, append_assoc, length, map, ℤ, pos, negsuc, if◌then◌else◌,
  arith,
}
use aip_pkussm.Net.{Socket, Feeds}
use aip_pkussm.Host.{Disk, max_file_name_len}
use aip_pkussm.Chat.{Message, Layout}
use aip_pkussm.Chat.Users.{User, Cmsg}
use aip_pkussm.Chat.Users.Table.{IsStray, fd_of}
use aip_pkussm.Chat.Dispatch.{Send}
use aip_pkussm.Chat.Client.{Me, text_message}
use aip_pkussm.Chat.Server.{Leftover}
use aip_pkussm.Chat.Session.{IsUser, text-IsSendable}
use aip_pkussm.Chat.Texts.{Text, AreFor, bytes_of, all_bytes, sends_for}
use aip_pkussm.Chat.Room.{Server, Reach}
use aip_pkussm.Chat.Room.Order.{
  Tagged, text_of, Gone, gone_text, taken_of, AreFor-taken, said_by, queued, sends_of,
}
use aip_pkussm.Chat.Room.Runs.{Reach-Conserves}
use aip_pkussm.Chat.Heard.{
  sender_len, exited, wait_messages, wait_messages-shows, wait_messages-exits,
}

abbrev same_fd : ℤ → ℤ → Bool
same_fd (pos a) (pos b) = a == b
same_fd (negsuc a) (negsuc b) = a == b
same_fd _ _ = false

-- The bytes that go out to one connection.
unfoldable pub bytes_to : ℤ → List Send → List ℕ
bytes_to fd [] = []
bytes_to fd (x ∷ sends) =
    if same_fd x.connfd fd then x.buff ++ bytes_to fd sends else bytes_to fd sends

bytes_to-append :
    (fd : ℤ) (xs ys : List Send) → bytes_to fd (xs ++ ys) ≡ bytes_to fd xs ++ bytes_to fd ys
unfolding bytes_to
bytes_to-append fd [] ys = refl
bytes_to-append fd (x ∷ xs) ys =
    ground (arith, bytes_to-append fd xs ys, append_assoc x.buff (bytes_to fd xs) (bytes_to fd ys))

-- The texts for the user of one connection.
unfoldable pub texts_to : ℤ → List User → List Tagged → List Tagged
texts_to fd users [] = []
texts_to fd users ((i, t) ∷ texts) =
    let rest = texts_to fd users texts in
    elim (fd_of users t.id) [
      | none ↦ rest
      | some there ↦ if same_fd there fd then (i, t) ∷ rest else rest
    ]

abbrev pub message_of : (ℕ → Me) → Tagged → Message
message_of me (i, t) = text_message (me i) t.id t.content

module _ (w : Layout) (me : ℕ → Me) (fd : ℤ) (users : List User) where
  bytes_to-one :
      (i : ℕ) (t : Text) (rest : List Tagged)
      → bytes_to fd (sends_for w (me i) users (t ∷ [])) ++ queued w me (texts_to fd users rest)
        ≡ queued w me (texts_to fd users ((i, t) ∷ rest))
  unfolding bytes_to sends_for texts_to queued
  bytes_to-one i t rest = elim (Option-cases (fd_of users t.id)) [
    | inl e ↦ ground (arith, e)
    | inr (there, e) ↦ ground (
      arith,
      e,
      append-nil (bytes_of w (me i) t),
      append_assoc (w.bytes (message_of me (i, t))) t.content
          (queued w me (texts_to fd users rest)),
    )
  ]

  bytes_to-texts :
      (texts : List Tagged)
      → bytes_to fd (sends_of w me users texts) ≡ queued w me (texts_to fd users texts)
  unfolding bytes_to sends_of texts_to queued
  bytes_to-texts [] = refl
  bytes_to-texts ((i, t) ∷ texts) =
      bytes_to-append fd (sends_for w (me i) users (t ∷ [])) (sends_of w me users texts)
      ∙ ap (λ l. bytes_to fd (sends_for w (me i) users (t ∷ [])) ++ l) (bytes_to-texts texts)
      ∙ bytes_to-one i t texts

  -- All of them are texts that go through.
  AreFor-texts_to :
      (texts : List Tagged)
      → AreFor users (map text_of texts)
      → AreFor users (map text_of (texts_to fd users texts))
  unfolding texts_to
  AreFor-texts_to [] v = tt
  AreFor-texts_to ((i, t) ∷ texts) v = elim (Option-cases (fd_of users t.id)) [
    | inl e ↦
        let same : texts_to fd users ((i, t) ∷ texts) ≡ texts_to fd users texts =
          ground (arith, e) in
        subst (λ l. AreFor users (map text_of l)) (sym same) (AreFor-texts_to texts v.5)
    | inr (there, e) ↦ elim (Bool-cases (same_fd there fd)) [
      | inl b ↦
          let same : texts_to fd users ((i, t) ∷ texts) ≡ (i, t) ∷ texts_to fd users texts =
            ground (arith, e, b) in
          subst (λ l. AreFor users (map text_of l)) (sym same)
            (v.0, v.1, v.2, v.3, v.4, AreFor-texts_to texts v.5)
      | inr b ↦
          let same : texts_to fd users ((i, t) ∷ texts) ≡ texts_to fd users texts =
            ground (arith, e, b) in
          subst (λ l. AreFor users (map text_of l)) (sym same) (AreFor-texts_to texts v.5)
    ]
  ]

module _ (k : Socket) (f : Feeds k) (w : Layout) (me : ℕ → Me) (member : (i : ℕ) → IsUser (me i))
    (over : (s : k.State) (n : ℕ) → f.pending s ≡ [] → (k.recv s n).0 ≡ some []) where
  -- A client that is handed texts of clients with names that `sender` holds, and then the end of
  -- the connection, reads these texts.
  told :
      (users : List User) (texts : List Tagged) (s : k.State)
      → AreFor users (map text_of texts)
      → ((x : Tagged) → sender_len (message_of me x) ≤ max_file_name_len)
      → f.pending s ≡ queued w me texts
      → wait_messages k w (suc (length texts)) s ≡ (map (message_of me) texts, exited)
  unfolding queued
  told users [] s known short heard = wait_messages-exits k f w 0 s (over s w.message_len heard)
  told users ((i, t) ∷ texts) s known short heard =
      let (u, e, p) =
        wait_messages-shows k f w (text_message (me i) t.id t.content) t.content (queued w me texts)
          (suc (length texts)) s (text-IsSendable (me i) t.id t.content (member i) known.2 known.1)
          refl (short (i, t)) heard in
      e ∙ rw (told users texts u known.5 short p) refl

module _ (k kl : Socket) (f : Feeds k) (fl : Feeds kl) (d : Disk) (w : Layout) (c : Cmsg)
    (left : Leftover) (connfds : ℕ → ℤ) (me : ℕ → Me) (texts : ℕ → List Text) (users : List User)
    (member : (i : ℕ) → IsUser (me i)) (stray : IsStray c left.stack)
    (over : (s : k.State) (n : ℕ) → f.pending s ≡ [] → (k.recv s n).0 ≡ some [])
    (over_l : (s : kl.State) (n : ℕ) → fl.pending s ≡ [] → (kl.recv s n).0 ≡ some []) where
  -- After any turns of the threads and the dispatcher, from a start with an empty pipe where each
  -- client's thread is handed the bytes of its texts (each of 1 to 511 bytes and for an id other than
  -- 0 of which the table has a connection), at whose end its connection closes, and where the control
  -- block on the stack does not look like one with a descriptor: those texts that left the pipe are,
  -- for each client, the first of its texts, in its order; the dispatcher took some of them, and what
  -- it has sent are these, each once and in this order. A client that is handed exactly the bytes that
  -- went to one connection, and then the end of the connection, reads the texts among them for that
  -- connection, each with its bytes and its sender, in order, and exits, if the clients' names and
  -- ids fit the array `sender`.
  pub room_heard :
      (s t : Server k d w c left connfds) (fd : ℤ) (listener : kl.State)
      → s.sends ≡ []
      → s.fifo ≡ []
      → s.users ≡ users
      → ((i : ℕ) → f.pending (s.links i) ≡ all_bytes w (me i) (texts i))
      → ((i : ℕ) → AreFor users (texts i))
      → Reach k d w c left connfds s t
      → ((x : Tagged) → sender_len (message_of me x) ≤ max_file_name_len)
      → fl.pending listener ≡ bytes_to fd t.sends
      → (log : List Gone) × (t.sends ≡ sends_of w me users (taken_of log))
        × ((i : ℕ) → (rest : List Text) × (said_by i (map gone_text log) ++ rest ≡ texts i))
        × (let heard = texts_to fd users (taken_of log) in
            wait_messages kl w (suc (length heard)) listener ≡ (map (message_of me) heard, exited))
  room_heard s t fd listener none_sent empty same handed known r short heard =
      let v =
        Reach-Conserves k f d w c left connfds me texts users member stray over s t none_sent empty
          same handed known r in
      (
        v.log,
        v.sent,
        (λ i. (said_by i v.queue ++ v.unread i, v.in_order i)),
        told kl fl w me member over_l users (texts_to fd users (taken_of v.log)) listener
            (AreFor-texts_to w me fd users (taken_of v.log) (AreFor-taken users v.log v.log_known))
            short (heard ∙ ap (bytes_to fd) v.sent ∙ bytes_to-texts w me fd users (taken_of v.log)),
      )
