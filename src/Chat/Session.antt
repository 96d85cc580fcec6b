-- ===== src/Chat/Session.antt =====
-- The chatroom from end to end: a client connects, a client sends a text to another, and the text
-- is shown there.
use aip_pkussm.Prelude.{
  true, ℕ, ◌^◌, ◌<◌, ◌≡◌, ◌≢◌, refl, sym, ◌∙◌, ap, some, List, [], ◌∷◌, ◌++◌, ◌==◌, if◌then◌else◌,
  append-nil, append_assoc, length, CString, ℤ, pos, to_size, arith,
}
use mathlib.Core.List.{append_cancel_left}
use aip_pkussm.Net.{Socket, Io, ok, send, Feeds, Delivers, ◌>>=◌}
use aip_pkussm.Transfer.Send.{send-ok}
use aip_pkussm.Transfer.Recv.{recv-ok}
use aip_pkussm.Host.{Disk}
use aip_pkussm.Chat.{Message, Layout, block, IsSendable}
use aip_pkussm.Chat.Header.{recv_header-ok}
use aip_pkussm.Chat.Users.{Cmsg}
use aip_pkussm.Chat.Users.Table.{IsStray, fd_of, conn_handler-updates}
use aip_pkussm.Chat.Pipe.{read_message}
use aip_pkussm.Chat.Pipe.Bytes.{read_message-text}
use aip_pkussm.Chat.Dispatch.{dispatch}
use aip_pkussm.Chat.Dispatch.Delivery.{dispatch-one}
use aip_pkussm.Chat.Client.{Me, conn_message, text_message, comm_conn, comm_sendmsg, comm_waitmsg}
use aip_pkussm.Chat.Server.{Leftover, Process, registered, handle_msg, conn_handle, parse_next}
use aip_pkussm.Chat.Server.Parse.{parse_msg-short, parse_msg-empty}
use aip_pkussm.Chat.Server.Handling.{text_queued}

-- What a client may be called, and its id.
abbrev pub IsUser : Me → Type 0
IsUser me = (length me.my_name < 32) × (me.my_id < 2 ^ 32)

pub text-IsSendable :
    (me : Me) (id : ℕ) (content : CString)
    → IsUser me
    → id < 2 ^ 32
    → length content < 512
    → IsSendable (text_message me id content)
text-IsSendable me id content u i l = record {
  name_fits = u.0;
  size_fits = omega arith;
  from_fits = u.1;
  to_fits = i;
}

pub state_eq : {S A : Type 0} {a b : A} {s t : S} → ◌≡◌ {A = Io S A} (ok a s) (ok b t) → s ≡ t
state_eq e = cc

module _ (kc : Socket) (out : Delivers kc) (w : Layout) (me : Me) where
  sends :
      (bytes said : List ℕ) (s t : kc.State)
      → send kc bytes s ≡ ok tt t
      → out.sent t ≡ out.sent s ++ said
      → said ≡ bytes
  sends bytes said s t run e =
      let same = state_eq (sym run ∙ send-ok kc out bytes s) in
      append_cancel_left (out.sent s) said bytes (sym e ∙ ap out.sent same ∙ out.grows s bytes)

module _ (kc k : Socket) (out : Delivers kc) (f : Feeds k) (d : Disk) (w : Layout) (c : Cmsg)
    (left : Leftover) (connfd : ℤ) (me : Me) (user : IsUser me) where
  -- One turn of the server's thread for the client: `parse_msg`, then `handle_msg`.
  abbrev pub turn : Process k d → Io (Process k d) ℤ
  turn = parse_next k d w c left 0 >>= handle_msg k d w c left registered connfd

  -- A text of 1 to 511 bytes from a client to the user `id` (not 0), of whom the table has the
  -- connection `fd`: the server's thread that is handed what the client sent succeeds, reads just
  -- that and keeps the table; if the pipe was empty, the dispatcher then gets the message that was
  -- sent and makes one call of `send`, to `fd`, with the message and the text.
  text_delivered :
      (id : ℕ) (content : CString) (bytes more : List ℕ) (s t : kc.State) (p : Process k d) (fd : ℤ)
      → 0 < length content
      → length content < 512
      → id < 2 ^ 32
      → id ≢ 0
      → comm_sendmsg kc w me id content s ≡ ok tt t
      → out.sent t ≡ out.sent s ++ bytes
      → f.pending p.host.link ≡ bytes ++ more
      → p.fifo ≡ []
      → p.reader ≡ true
      → fd_of p.users id ≡ some fd
      → (q : Process k d) × (turn p ≡ ok (pos 0) q)
        × (f.pending q.host.link ≡ more)
        × (q.users ≡ p.users)
        × (read_message w q.fifo ≡ some (text_message me id content, []))
        × (dispatch w (text_message me id content) q.users
            ≡ some (
                record { connfd = fd; buff = w.bytes (text_message me id content) ++ content }
                ∷ []))
  unfolding comm_sendmsg
  text_delivered id content bytes more s t p fd some_text short small addressed run said heard empty
        reading there =
      let m = text_message me id content in
      let fits = text-IsSendable me id content user small short in
      let e = sends kc out w me (w.bytes m ++ content) bytes s t run said in
      let (u, parsed, rest) =
        parse_msg-short k f w m fits more p.host.link (left.junk 0) content refl some_text short
          (heard ∙ ap (λ x. x ++ more) e ∙ append_assoc (w.bytes m) content more) in
      let p1 : Process k d = record p { host = record { link = u; files = p.host.files } } in
      (
        record p1 { fifo = p.fifo ++ (w.bytes m ++ content) },
        ground (arith, parsed, text_queued k d w c left connfd m content p1 refl refl refl reading),
        rest,
        refl,
        ap (read_message w) (
              ap (λ x. x ++ (w.bytes m ++ content)) empty
              ∙ sym (append-nil (w.bytes m ++ content))
              ∙ append_assoc (w.bytes m) content [])
            ∙ read_message-text w m content [] fits refl refl,
        dispatch-one w m content p.users refl refl fd addressed there,
      )

  -- A client that connects with an id of the table is entered there under its id, with the
  -- connection of its thread, and every other id keeps its connection, if the control block on the
  -- server's stack does not look like one with a descriptor; the table keeps its size.
  pub user_entered :
      (bytes more : List ℕ) (s t : kc.State) (p : Process k d)
      → IsStray c left.stack
      → me.my_id < length p.users
      → comm_conn kc w me s ≡ ok tt t
      → out.sent t ≡ out.sent s ++ bytes
      → f.pending p.host.link ≡ bytes ++ more
      → (q : Process k d) × (turn p ≡ ok (pos 0) q)
        × (f.pending q.host.link ≡ more)
        × (length q.users ≡ length p.users)
        × ((j : ℕ) → fd_of q.users j ≡ (if me.my_id == j then some connfd else fd_of p.users j))
  unfolding comm_conn handle_msg registered conn_handle
  user_entered bytes more s t p stray inside run said heard =
      let m = conn_message me in
      let fits : IsSendable m = record {
        name_fits = user.0;
        size_fits = omega arith;
        from_fits = user.1;
        to_fits = user.1;
      } in
      let e = sends kc out w me (w.bytes m) bytes s t run said in
      let (u, parsed, rest) =
        parse_msg-empty k f w m fits more p.host.link (left.junk 0) refl
          (heard ∙ ap (λ x. x ++ more) e) in
      let (users, entered, size, at) =
        conn_handler-updates c left.stack m connfd p.users stray inside in
      (
        record p { host = record { link = u; files = p.host.files }; users = users },
        ground (arith, parsed, entered),
        rest,
        size,
        at,
      )

module _ (k : Socket) (f : Feeds k) (w : Layout) where
  -- A client that is handed a message and its data reads just these, and has the message that was
  -- sent, with the data in a block of its own.
  pub comm_waitmsg-reads :
      (m : Message) (text more : List ℕ) (s : k.State)
      → IsSendable m
      → m.data_size ≡ pos (length text)
      → f.pending s ≡ (w.bytes m ++ text) ++ more
      → (t : k.State) × (comm_waitmsg k w s ≡ ok (record m { data_ptr = block text }) t)
        × (f.pending t ≡ more)
  unfolding comm_waitmsg
  comm_waitmsg-reads m text more s fits size p =
      let (got, later) =
        recv_header-ok k f w m (text ++ more) s (p ∙ append_assoc (w.bytes m) text more) in
      let t1 = (k.recv s w.message_len).1 in
      let (body, last) = recv-ok k f (length text) t1 text more later refl in
      (
        (k.recv t1 (length text)).1,
        rw (got, ◌>>=◌) (rw (w.parse-bytes m fits) (rw (ap to_size size) (rw (body, ◌>>=◌) refl))),
        last,
      )
