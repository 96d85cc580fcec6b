-- ===== src/Ftp/Session.antt =====
-- A3, both sides together: what a client has after its GET, and what the server has after a PUT.
use mathlib.Core.List.{append_cancel_left}
use aip_pkussm.Prelude.{
  ℕ, ◌%◌, ◌^◌, ◌≤◌, ◌<◌, ◌≡◌, refl, sym, ◌∙◌, ap, none, some, List, [], ◌++◌, length, drop, map,
  CString, ℤ, pos, arith, append_assoc,
}
use aip_pkussm.Net.{Socket, ok, fault, ok_value, ok_state, Link, Delivers, Feeds}
use aip_pkussm.Transfer.Send.{wire, IsUntouched}
use aip_pkussm.Transfer.Received.{received, received_whole, wire_rest, receives}
use aip_pkussm.Host.{Disk, Host, minus_one}
use aip_pkussm.Host.Serve.{serve_file-run, serve_file-missing}
use aip_pkussm.Host.Fetch.{get_file-saved, get_file-crashes}
use aip_pkussm.Ftp.{Layout}
use aip_pkussm.Ftp.Handlers.{answer_of, open_error, get_handler, put_handler}
use aip_pkussm.Ftp.Server.{registered, handle_msg}
use aip_pkussm.Ftp.Client.{get_request, named_size, comm_get, put_request}

module _ (k : Socket) (d : Disk) (w : Layout) (stale : ℤ) where
  -- The server answers a GET of a readable file of 512 bytes or more, and less than 2 GiB, with the
  -- file's message and its bytes (`wire`), keeps its files, returns 0, and leaves alone what sending
  -- leaves alone.
  pub get_served_run :
      (dl : Delivers k) (o : k.State → List ℕ)
      → IsUntouched k o
      → (name : CString) (file : List ℕ) (h : Host k d) → d.open_read h.files name ≡ some file
      → length name < 32
      → 512 ≤ length file
      → length file < 2 ^ 31
      → (t : k.State) × (handle_msg k d w registered stale (get_request name) h
          ≡ ok (pos 0) (record h { link = t }))
        × (dl.sent t
            ≡ dl.sent h.link ++ (w.bytes (answer_of name (pos (length file))) ++ wire file))
        × (o t ≡ o h.link)
  unfolding handle_msg registered get_handler
  get_served_run dl o keeps name file h opened l big small =
      serve_file-run k dl d (λ n size. w.bytes (answer_of n size)) name h o keeps
        (w.bytes open_error) file opened l big small

  pub get_served :
      (dl : Delivers k) (name : CString) (file : List ℕ) (h : Host k d)
      → d.open_read h.files name ≡ some file
      → length name < 32
      → 512 ≤ length file
      → length file < 2 ^ 31
      → (t : k.State) × (handle_msg k d w registered stale (get_request name) h
          ≡ ok (pos 0) (record h { link = t }))
        × (dl.sent t
            ≡ dl.sent h.link ++ (w.bytes (answer_of name (pos (length file))) ++ wire file))
  get_served dl name file h opened l big small =
      let (t, e, g, same) =
        get_served_run dl (λ s. []) (λ s b. refl) name file h opened l big small in
      (t, e, g)

  pub get_missing :
      (dl : Delivers k) (name : CString) (h : Host k d)
      → d.open_read h.files name ≡ none
      → (t : k.State) × (handle_msg k d w registered stale (get_request name) h
          ≡ ok minus_one (record h { link = t }))
        × (dl.sent t ≡ dl.sent h.link ++ w.bytes open_error)
  unfolding handle_msg registered get_handler
  get_missing dl name h o =
      serve_file-missing k dl d (λ n size. w.bytes (answer_of n size)) name h (w.bytes open_error) o

module _ (ks kc : Socket) (ds dc : Disk) (w : Layout) (stale : ℤ) (out : Delivers ks)
    (l : Link kc) where
  -- When the client is handed exactly the bytes that the server sent in answer to the GET of a
  -- file of at least 512 bytes, and less than 2 GiB, `comm_get` succeeds and takes all of them, and
  -- saves under the file's name a file of the same size that holds the full blocks, followed by
  -- cells that were never written.
  pub get_session :
      (name : CString) (file bytes more : List ℕ) (hs hs' : Host ks ds) (hc : Host kc dc) (ret : ℤ)
      (files : dc.Files)
      → ds.open_read hs.files name ≡ some file
      → length name < 32
      → 512 ≤ length file
      → length file < 2 ^ 31
      → handle_msg ks ds w registered stale (get_request name) hs ≡ ok ret hs'
      → out.sent hs'.link ≡ out.sent hs.link ++ bytes
      → l.pending hc.link ≡ bytes ++ more
      → dc.create hc.files name ≡ some files
      → (t : kc.State) × (comm_get kc dc w name hc
          ≡ ok tt (record { link = t; files = dc.write files name (received file) }))
        × (l.pending t ≡ more)
  unfolding comm_get
  get_session name file bytes more hs hs' hc ret files o short big small run said heard made =
      let answer = answer_of name (pos (length file)) in
      let (t, e, g) = get_served ks ds w stale out name file hs o short big small in
      let same : t ≡ hs'.link = ap (λ h. h.link) (ok_state (sym e ∙ run)) in
      let bytes_eq : bytes ≡ w.bytes answer ++ wire file =
        append_cancel_left (out.sent hs.link) bytes _ (sym said ∙ ap out.sent (sym same) ∙ g) in
      let parsed : named_size (w.parse (w.bytes answer)) ≡ (name, pos (length file)) =
        ap named_size (w.parse-bytes answer (short, small)) in
      rw (← w.length-bytes answer) (
        get_file-saved kc l dc _ (λ b. named_size (w.parse b)) name hc (w.bytes answer) file more
          (name, pos (length file)) files
          (heard ∙ ap (λ x. x ++ more) bytes_eq ∙ append_assoc (w.bytes answer) _ more) parsed refl
          short big made)

  -- A file whose size is a multiple of 512 (at least 512, less than 2 GiB) comes through GET
  -- unchanged: the client that is handed the server's bytes saves exactly that file.
  get_session_whole :
      (name : CString) (file bytes more : List ℕ) (hs hs' : Host ks ds) (hc : Host kc dc) (ret : ℤ)
      (files : dc.Files)
      → ds.open_read hs.files name ≡ some file
      → length name < 32
      → 512 ≤ length file
      → length file < 2 ^ 31
      → length file % 512 ≡ 0
      → handle_msg ks ds w registered stale (get_request name) hs ≡ ok ret hs'
      → out.sent hs'.link ≡ out.sent hs.link ++ bytes
      → l.pending hc.link ≡ bytes ++ more
      → dc.create hc.files name ≡ some files
      → (t : kc.State) × (comm_get kc dc w name hc
          ≡ ok tt (record { link = t; files = dc.write files name (map some file) }))
        × (l.pending t ≡ more)
  get_session_whole name file bytes more hs hs' hc ret files o short big small whole run said heard
        made =
      let (t, e, p) =
        get_session name file bytes more hs hs' hc ret files o short big small run said heard
          made in
      (t, rw (← received_whole file whole) e, p)

  -- When the server cannot open the file that the client asks for, and the client is handed
  -- exactly the server's answer, at the end of the connection, `comm_get` writes through a NULL
  -- pointer, provided that no file with an empty name can be created.
  pub get_missing_crashes :
      (name : CString) (bytes : List ℕ) (hs hs' : Host ks ds) (hc : Host kc dc) (ret : ℤ)
      → ds.open_read hs.files name ≡ none
      → length name < 32
      → handle_msg ks ds w registered stale (get_request name) hs ≡ ok ret hs'
      → out.sent hs'.link ≡ out.sent hs.link ++ bytes
      → l.pending hc.link ≡ bytes
      → ((s : kc.State) (m : ℕ) → l.pending s ≡ [] → (kc.recv s m).0 ≡ some [])
      → dc.create hc.files [] ≡ none
      → (ret ≡ minus_one) × (comm_get kc dc w name hc ≡ fault)
  unfolding comm_get
  get_missing_crashes name bytes hs hs' hc ret o short run said heard over made =
      let (t, e, g) = get_missing ks ds w stale out name hs o in
      let same : t ≡ hs'.link = ap (λ h. h.link) (ok_state (sym e ∙ run)) in
      let bytes_eq : bytes ≡ w.bytes open_error =
        append_cancel_left (out.sent hs.link) bytes _ (sym said ∙ ap out.sent (sym same) ∙ g) in
      let parsed : named_size (w.parse (w.bytes open_error)) ≡ ([], pos 16) =
        ap named_size (w.parse-bytes open_error (omega arith, omega arith)) in
      (
        ok_value (sym run ∙ e),
        rw (← w.length-bytes open_error) (
            get_file-crashes kc l dc _ (λ b. named_size (w.parse b)) name hc (w.bytes open_error) 16
              [] (heard ∙ bytes_eq) parsed short (omega arith) over made),
      )

module _ (k : Socket) (d : Disk) (w : Layout) (f : Feeds k) where
  -- `put_handler` reads as many bytes of the remainder as the unset size in `resp_msg` says (here
  -- it is the number `unset`, and at most the remainder's): it saves the full blocks of a file of
  -- 512 bytes or more, and leaves the other bytes of the file in the connection, where the next
  -- message is read.
  pub put_stored :
      (unset : ℕ) (name : CString) (file more : List ℕ) (h : Host k d) (files : d.Files)
      → d.create h.files name ≡ some files
      → 512 ≤ length file
      → unset % 512 ≤ length file % 512
      → f.pending h.link ≡ wire file ++ more
      → (t : k.State) × (handle_msg k d w registered
            (pos unset)
            (put_request name (pos (length file)))
            h
          ≡ ok (pos 0) (record { link = t; files = d.write files name (received file) }))
        × (f.pending t ≡ drop (unset % 512) (wire_rest file) ++ more)
  unfolding handle_msg registered put_handler
  put_stored unset name file more h files made big fits p =
      let (buff, t, u, a, b, c) = receives k f file more h.link (unset % 512) big fits p in
      (u, ground (arith, a, b), c)
