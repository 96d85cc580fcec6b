-- ===== src/Chat/Texts/InTurn.antt =====
-- A thread of Server.cc and `loop_dispatch` of Handlers.cc that take turns: the dispatcher fetches what
-- the thread has put before the thread puts again.
use aip_pkussm.Prelude.{
  ℕ, zero, suc, ◌≡◌, refl, sym, ◌∙◌, ap, Bool, true, false, Option, Option-cases, none, some, inl,
  inr, List, [], ◌∷◌, ◌++◌, append-nil, ℤ,
}
use aip_pkussm.Net.{Socket, ok, failed, fault, Feeds}
use aip_pkussm.Host.{Disk}
use aip_pkussm.Chat.{Layout}
use aip_pkussm.Chat.Users.{Cmsg}
use aip_pkussm.Chat.Users.Table.{IsStray, fd_of}
use aip_pkussm.Chat.Pipe.{close_fifo}
use aip_pkussm.Chat.Dispatch.{Send, loop_dispatch}
use aip_pkussm.Chat.Client.{Me}
use aip_pkussm.Chat.Server.{Leftover, Process, registered, clithread}
use aip_pkussm.Chat.Session.{IsUser}
use aip_pkussm.Chat.Texts.{Text, AreFor, bytes_of, all_bytes, sends_for}
use aip_pkussm.Chat.Texts.Served.{rounds_for, thread_step, dispatch_step}
use aip_pkussm.Chat.Texts.Ended.{thread_end}

module _ (k : Socket) (d : Disk) (w : Layout) (c : Cmsg) (left : Leftover) (connfd : ℤ)
    (held : ℕ → Bool) where
  -- For at most `rounds` messages: what the dispatcher sends, and the state at the end, which is the
  -- one in which the thread closes its connection if it comes to that; `none` for a failure.
  unfoldable pub in_turn : ℕ → Process k d → Option (List Send × Process k d)
  unfolding clithread loop_dispatch
  in_turn zero p = some ([], p)
  in_turn (suc rounds) p = elim (clithread k d w c left registered connfd 1 p) [
    | failed q ↦ none
    | fault ↦ none
    | ok false q ↦ some ([], q)
    | ok true q ↦ elim (loop_dispatch c left.stack w held 1 q.fifo q.users) [
      | none ↦ none
      | some (sends, fifo, users) ↦
          elim (in_turn rounds (record q { users = users; fifo = fifo })) [
            | none ↦ none
            | some (more, last) ↦ some (sends ++ more, last)
          ]
    ]
  ]

close_nothing : (w : Layout) (b : Bool) → close_fifo w b [] ≡ []
close_nothing w true = refl
close_nothing w false = refl

module _ (k : Socket) (f : Feeds k) (d : Disk) (w : Layout) (c : Cmsg) (left : Leftover)
    (connfd : ℤ) (held : ℕ → Bool) (me : Me) (user : IsUser me) (stray : IsStray c left.stack) where
  open f use {pending}

  -- A turn of the thread and one of the dispatcher.
  text_in_turn :
      (t : Text) (texts : List Text) (p : Process k d) (n : ℕ) (fd : ℤ)
      → fd_of p.users t.id ≡ some fd
      → AreFor p.users (t ∷ texts)
      → p.reader ≡ true
      → p.fifo ≡ []
      → pending p.host.link ≡ all_bytes w me (t ∷ texts)
      → (u : k.State) × (in_turn k d w c left connfd held (suc n) p
          ≡ (elim (in_turn k d w c left connfd held n
              (record p { host = record { link = u; files = p.host.files }; fifo = [] })) [
                | none ↦ none
                | some (more, last) ↦
                    some (record { connfd = fd; buff = bytes_of w me t } ∷ more, last)
              ]))
        × (pending u ≡ all_bytes w me texts)
  unfolding in_turn clithread loop_dispatch sends_for
  text_in_turn t texts p n fd there v reading empty heard =
      let (u, e, rest) =
        thread_step k f d w c left connfd me user t (all_bytes w me texts) p 0 v.0 v.1 v.2 reading
          heard in
      let bytes : p.fifo ++ bytes_of w me t ≡ bytes_of w me t ++ [] =
        ap (λ l. l ++ bytes_of w me t) empty ∙ sym (append-nil (bytes_of w me t)) in
      let sent =
        ap (λ l. loop_dispatch c left.stack w held 1 l p.users) bytes
        ∙ dispatch_step w c left.stack me user stray p.users held t [] 0 fd v.1 v.2 v.3 there in
      (u, rw (in_turn, e, sent, close_nothing w (held 0)) refl, rest)

  -- The turns for all texts, and the one that ends the thread.
  pub texts_in_turn :
      (texts : List Text) (p : Process k d)
      → AreFor p.users texts
      → p.reader ≡ true
      → p.fifo ≡ []
      → pending p.host.link ≡ all_bytes w me texts
      → ((s : k.State) (n : ℕ) → pending s ≡ [] → (k.recv s n).0 ≡ some [])
      → (q : Process k d) × (in_turn k d w c left connfd held (rounds_for texts 1) p
          ≡ some (sends_for w me p.users texts, q))
        × (q.fifo ≡ [])
        × (q.users ≡ p.users)
  unfolding in_turn sends_for
  texts_in_turn [] p v reading empty heard over =
      let (q, e, fifo, users) = thread_end k f d w c left connfd p heard over in
      (q, rw (in_turn, e) refl, fifo ∙ empty, users)
  texts_in_turn (t ∷ texts) p v reading empty heard over =
      elim (Option-cases (fd_of p.users t.id)) [
        | inl g ↦ absurd (v.4 g)
        | inr (fd, g) ↦
            let (u, e, rest) =
              text_in_turn t texts p (rounds_for texts 1) fd g v reading empty heard in
            let p1 : Process k d = record p {
              host = record { link = u; files = p.host.files };
              fifo = [];
            } in
            let (q, all, fifo, users) = texts_in_turn texts p1 v.5 reading refl rest over in
            (q, e ∙ rw (all, sends_for, g) refl, fifo, users)
      ]
