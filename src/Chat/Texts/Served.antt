-- ===== src/Chat/Texts/Served.antt =====
-- The server's thread and the dispatcher over many texts.
use aip_pkussm.Prelude.{
  Bool, true, ℕ, suc, ◌^◌, ◌<◌, ◌≡◌, ◌≢◌, none, refl, ◌∙◌, ap, some, List, [], ◌∷◌, ◌++◌,
  append_assoc, length, ℤ, arith,
}
use aip_pkussm.Net.{Socket, Feeds}
use aip_pkussm.Host.{Disk}
use aip_pkussm.Chat.{Layout, block}
use aip_pkussm.Chat.Users.{User, Cmsg, ControlMsg}
use aip_pkussm.Chat.Users.Table.{IsStray, fd_of, get_users-stray}
use aip_pkussm.Chat.Pipe.{read_message, get_message, close_fifo}
use aip_pkussm.Chat.Pipe.Bytes.{read_message-text}
use aip_pkussm.Chat.Dispatch.{loop_dispatch}
use aip_pkussm.Chat.Dispatch.Delivery.{dispatch-one}
use aip_pkussm.Chat.Client.{Me, text_message}
use aip_pkussm.Chat.Server.{Leftover, Process, registered, clithread}
use aip_pkussm.Chat.Server.Parse.{parse_msg-short}
use aip_pkussm.Chat.Server.Handling.{text_queued}
use aip_pkussm.Chat.Session.{IsUser, text-IsSendable}
use aip_pkussm.Chat.Texts.{Text, bytes_of}

-- As many rounds as there are texts, and `n` more.
abbrev pub rounds_for : List Text → ℕ → ℕ
rounds_for [] n = n
rounds_for (t ∷ texts) n = suc (rounds_for texts n)

module _ (k : Socket) (f : Feeds k) (d : Disk) (w : Layout) (c : Cmsg) (left : Leftover)
    (connfd : ℤ) (me : Me) (user : IsUser me) where
  open f use {pending}

  -- One round of the thread.
  pub thread_step :
      (t : Text) (more : List ℕ) (p : Process k d) (n : ℕ)
      → 0 < length t.content
      → length t.content < 512
      → t.id < 2 ^ 32
      → p.reader ≡ true
      → pending p.host.link ≡ bytes_of w me t ++ more
      → (u : k.State) × (clithread k d w c left registered connfd (suc n) p
          ≡ clithread k d w c left registered connfd n (record p {
            host = record { link = u; files = p.host.files };
            fifo = p.fifo ++ bytes_of w me t;
          }))
        × (pending u ≡ more)
  unfolding clithread
  thread_step t more p n some_text short small reading heard =
      let m = text_message me t.id t.content in
      let fits = text-IsSendable me t.id t.content user small short in
      let (u, parsed, rest) =
        parse_msg-short k f w m fits more p.host.link (left.junk n) t.content refl some_text short
          (heard ∙ append_assoc (w.bytes m) t.content more) in
      let p1 : Process k d = record p { host = record { link = u; files = p.host.files } } in
      (
        u,
        ground
            (arith, parsed, text_queued k d w c left connfd m t.content p1 refl refl refl reading),
        rest,
      )

module _ (w : Layout) (c : Cmsg) (stack : ControlMsg) (me : Me) (user : IsUser me)
    (stray : IsStray c stack) (users : List User) (held : ℕ → Bool) where
  -- One turn of the dispatcher.
  pub dispatch_step :
      (t : Text) (more : List ℕ) (n : ℕ) (fd : ℤ)
      → length t.content < 512
      → t.id < 2 ^ 32
      → t.id ≢ 0
      → fd_of users t.id ≡ some fd
      → loop_dispatch c stack w held (suc n) (bytes_of w me t ++ more) users
        ≡ elim (loop_dispatch c stack w held n (close_fifo w (held n) more) users) [
          | none ↦ none
          | some (sends, later, last) ↦
              some (record { connfd = fd; buff = bytes_of w me t } ∷ sends, later, last)
        ]
  unfolding loop_dispatch get_message
  dispatch_step t more n fd short small addressed e =
      let m = text_message me t.id t.content in
      let fits = text-IsSendable me t.id t.content user small short in
      let got =
        ap (read_message w) (append_assoc (w.bytes m) t.content more)
        ∙ read_message-text w m t.content more fits refl refl in
      ground (
        arith,
        got,
        get_users-stray c stack users stray,
        dispatch-one w (record m { data_ptr = block t.content }) t.content users refl refl fd
            addressed e,
      )

-- The dispatcher finds nothing in an empty pipe.
pub dispatch_nothing :
    (c : Cmsg) (stack : ControlMsg) (w : Layout) (held : ℕ → Bool) (users : List User)
    → loop_dispatch c stack w held 1 [] users ≡ some ([], [], users)
unfolding loop_dispatch get_message read_message
dispatch_nothing c stack w held users = ground (arith, w.nonempty)
