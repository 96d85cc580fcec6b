-- ===== src/Chat/Heard/Taken.antt =====
-- GET in the chatroom: the answer, for which the console and the thread of `comm_waitmsg` wait at the
-- same connection.
use mathlib.Core.List.{append_cancel_left}
use aip_pkussm.Prelude.{
  ℕ, suc, ◌^◌, ◌%◌, ◌≤◌, ◌<◌, ◌≡◌, refl, sym, ◌∙◌, ap, some, List, [], ◌∷◌, ◌++◌, append_assoc,
  length, map, CString, ℤ, pos, arith,
}
use aip_pkussm.Net.{Socket, ok, ok_state, Delivers, Link}
use aip_pkussm.Transfer.Send.{wire}
use aip_pkussm.Transfer.Received.{received_whole, wire_whole}
use aip_pkussm.Host.{Disk, Host, max_file_name_len}
use aip_pkussm.Host.Serve.{serve_file-run}
use aip_pkussm.Host.Fetch.{get_file-saved}
use aip_pkussm.Chat.{Message, Layout, IsSendable, block}
use aip_pkussm.Chat.Users.{Cmsg}
use aip_pkussm.Chat.Client.{get_request, comm_get}
use aip_pkussm.Chat.Server.{
  Leftover, Process, registered, answer_of, open_error, serve_get, handle_msg,
}
use aip_pkussm.Chat.Heard.{sender_len, wait_messages, wait_messages-shows}

abbrev named : Message → CString × ℤ
named m = (m.fname, m.data_size)

module _ (k : Socket) (d : Disk) (w : Layout) (c : Cmsg) (left : Leftover) (connfd : ℤ)
    (out : Delivers k) where
  -- The server answers a GET of a readable file of 512 bytes or more.
  pub get_answered :
      (msg : Message) (name : CString) (file : List ℕ) (p : Process k d)
      → d.open_read p.host.files name ≡ some file
      → length name < 32
      → 512 ≤ length file
      → length file < 2 ^ 31
      → (t : k.State) × (handle_msg k d w c left registered connfd (get_request msg name) p
          ≡ ok (pos 0) (record p { host = record { link = t; files = p.host.files } }))
        × (out.sent t
            ≡ out.sent p.host.link
              ++ (w.bytes (answer_of left.resp_msg name (pos (length file))) ++ wire file))
  unfolding handle_msg registered serve_get
  get_answered msg name file p opened l big small =
      let (t, e, g, same) =
        serve_file-run k out d (λ n size. w.bytes (answer_of left.resp_msg n size)) name p.host
          (λ s. []) (λ s b. refl) (w.bytes (open_error left.resp_msg)) file opened l big small in
      (t, ground (arith, e), g)

module _ (ks kc : Socket) (ds dc : Disk) (w : Layout) (c : Cmsg) (left : Leftover) (connfd : ℤ)
    (out : Delivers ks) (l : Link kc) where
  -- A file of a positive multiple of 512 bytes, less than 2 GiB, with a name of less than 32
  -- characters, is asked for by GET; the client is handed exactly what the server's handler sends,
  -- and then `more`; the members of the answer that the handler leaves unset fit their types, and its
  -- name and id fit the array `sender`. If the console reads the answer, `comm_get` saves the file
  -- unchanged; if the thread of `comm_waitmsg` takes its turn first, it shows the file as a text, and
  -- all of the answer is gone, as only `more` is left to read in both cases.
  pub answer_taken :
      (msg : Message) (name : CString) (file bytes more : List ℕ) (p p' : Process ks ds)
      (hc : Host kc dc) (ret : ℤ) (files : dc.Files) (rounds : ℕ)
      → ds.open_read p.host.files name ≡ some file
      → length name < 32
      → 512 ≤ length file
      → length file < 2 ^ 31
      → length file % 512 ≡ 0
      → left.resp_msg.from < 2 ^ 32
      → left.resp_msg.to < 2 ^ 32
      → handle_msg ks ds w c left registered connfd (get_request msg name) p ≡ ok ret p'
      → out.sent p'.host.link ≡ out.sent p.host.link ++ bytes
      → l.pending hc.link ≡ bytes ++ more
      → dc.create hc.files name ≡ some files
      → sender_len (answer_of left.resp_msg name (pos (length file))) ≤ max_file_name_len
      → ((t : kc.State) × (comm_get kc dc w msg name hc
            ≡ ok tt (record { link = t; files = dc.write files name (map some file) }))
          × (l.pending t ≡ more))
        × ((t : kc.State) × (wait_messages kc w (suc rounds) hc.link ≡ (
              let (later, end) = wait_messages kc w rounds t in
              (
                record (answer_of left.resp_msg name (pos (length file))) { data_ptr = block file }
                    ∷ later,
                end,
              )))
            × (l.pending t ≡ more))
  unfolding comm_get
  answer_taken msg name file bytes more p p' hc ret files rounds opened short big small whole from
        to run said heard made sender =
      let answer = answer_of left.resp_msg name (pos (length file)) in
      let fits : IsSendable answer = record {
        name_fits = short;
        size_fits = small;
        from_fits = from;
        to_fits = to;
      } in
      let (t, e, g) =
        get_answered ks ds w c left connfd out msg name file p opened short big small in
      let same : t ≡ p'.host.link = ap (λ q. q.host.link) (ok_state (sym e ∙ run)) in
      let bytes_eq : bytes ≡ w.bytes answer ++ file =
        append_cancel_left (out.sent p.host.link) bytes _ (sym said ∙ ap out.sent (sym same) ∙ g)
        ∙ ap (λ x. w.bytes answer ++ x) (wire_whole file whole) in
      let handed : l.pending hc.link ≡ (w.bytes answer ++ file) ++ more =
        heard ∙ ap (λ x. x ++ more) bytes_eq in
      let parsed : named (w.parse (w.bytes answer)) ≡ (name, pos (length file)) =
        ap named (w.parse-bytes answer fits) in
      (
        rw (← received_whole file whole, ← w.length-bytes answer)
            (get_file-saved kc l dc _ (λ b. named (w.parse b)) name hc (w.bytes answer) file more
              (name, pos (length file)) files
              (handed
                ∙ append_assoc (w.bytes answer) file more
                ∙ ap (λ x. w.bytes answer ++ (x ++ more)) (sym (wire_whole file whole)))
              parsed refl short big made),
        wait_messages-shows kc l.feeds w answer file more rounds hc.link fits refl sender handed,
      )
