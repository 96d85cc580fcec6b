-- ===== src/Ftp/Fetches.antt =====
-- A3, a whole session: a client that fetches one file after another from its console, and the server's
-- thread for it.
use mathlib.Core.List.{append_cancel_left}
use aip_pkussm.Prelude.{
  ℕ, suc, ◌^◌, ◌%◌, ◌≤◌, ◌<◌, ◌≡◌, refl, sym, ◌∙◌, ap, Bool, false, none, some, List, [], ◌∷◌, ◌++◌,
  append-nil, append_assoc, length, map, CString, codes, str_eq, ℤ, pos, arith,
}
use aip_pkussm.Net.{Socket, ok, recv, Link, ok_value, ok_state}
use aip_pkussm.Transfer.Send.{wire}
use aip_pkussm.Transfer.Recv.{recv-ok}
use aip_pkussm.Transfer.Received.{received_whole}
use aip_pkussm.Host.{Disk, Host}
use aip_pkussm.Host.Fetch.{get_file-saved}
use aip_pkussm.Ftp.{Layout}
use aip_pkussm.Ftp.Handlers.{answer_of}
use aip_pkussm.Ftp.Server.{registered, recv_command, clithread}
use aip_pkussm.Ftp.Client.{
  run_get, actions, run_actions, console, get_request, named_size, comm_get,
}
use aip_pkussm.Ftp.Session.{get_served_run}

-- A file that is asked for, and its bytes on the server.
pub record Fetch : Type 0 where
  pub name : CString
  pub content : List ℕ

-- What a user types for them, and `quit`.
abbrev pub words_of : List Fetch → List CString
words_of [] = codes "quit" ∷ []
words_of (f ∷ fetches) = codes "get" ∷ f.name ∷ words_of fetches

-- A round of the thread for each, and one for the end of the connection.
abbrev pub rounds_of : List Fetch → ℕ
rounds_of [] = 1
rounds_of (f ∷ fetches) = suc (rounds_of fetches)

-- The server's disk has the files, each of a positive multiple of 512 bytes and less than 2 GiB, and
-- with a name that fits.
abbrev pub AreThere : (d : Disk) → d.Files → List Fetch → Type 0
AreThere d files [] = Unit
AreThere d files (f ∷ fetches) =
    (d.open_read files f.name ≡ some f.content)
    × (length f.name < 32)
    × (512 ≤ length f.content)
    × (length f.content < 2 ^ 31)
    × (length f.content % 512 ≡ 0)
    × AreThere d files fetches

-- The client's disk, when each file in turn is created and written with what the server has.
pub data Saves (d : Disk) : d.Files → List Fetch → d.Files → Type 0 where
  nothing : {files : d.Files} → Saves d files [] files
  saved :
      {files made last : d.Files} {f : Fetch} {fetches : List Fetch}
      → d.create files f.name ≡ some made
      → Saves d (d.write made f.name (map some f.content)) fetches last
      → Saves d files (f ∷ fetches) last

module _ (w : Layout) where
  abbrev pub requests : List Fetch → List ℕ
  requests [] = []
  requests (f ∷ fetches) = w.bytes (get_request f.name) ++ requests fetches

  abbrev answer : Fetch → List ℕ
  answer f = w.bytes (answer_of f.name (pos (length f.content))) ++ wire f.content

  abbrev pub answers : List Fetch → List ℕ
  answers [] = []
  answers (f ∷ fetches) = answer f ++ answers fetches

module _ (k : Socket) (l : Link k) (d : Disk) (w : Layout) (stale : ℤ) where
  open l use {delivers, feeds, sent, pending, send_keeps, recv_keeps}

  recv_command-ok :
      (bytes : List ℕ) (h : Host k d) (t : k.State)
      → recv k w.message_len h.link ≡ ok bytes t
      → 0 < length bytes
      → recv_command k d w h ≡ ok (some bytes) (record h { link = t })
  unfolding recv_command recv
  recv_command-ok [] h t e p = absurd (omega arith)
  recv_command-ok (b ∷ bytes) h t e p = ground arith

  recv_command-end :
      (h : Host k d)
      → (k.recv h.link w.message_len).0 ≡ some []
      → recv_command k d w h ≡ ok none (record h { link = (k.recv h.link w.message_len).1 })
  unfolding recv_command
  recv_command-end h e = ground arith

  -- One round of the thread.
  round :
      (f : Fetch) (more : List ℕ) (n : ℕ) (h : Host k d)
      → d.open_read h.files f.name ≡ some f.content
      → length f.name < 32
      → 512 ≤ length f.content
      → length f.content < 2 ^ 31
      → pending h.link ≡ w.bytes (get_request f.name) ++ more
      → (t : k.State) × (clithread k d w registered stale (suc n) h
          ≡ clithread k d w registered stale n (record h { link = t }))
        × (pending t ≡ more)
        × (sent t ≡ sent h.link ++ answer w f)
  unfolding clithread
  round f more n h opened short big small heard =
      let m = get_request f.name in
      let (got, later) =
        recv-ok k feeds w.message_len h.link (w.bytes m) more heard (w.length-bytes m) in
      let s1 = (k.recv h.link w.message_len).1 in
      let read =
        recv_command-ok (w.bytes m) h s1 got (omega (arith, w.length-bytes m, w.nonempty)) in
      let parsed = w.parse-bytes m (short, omega arith) in
      let (t, e, g, same) =
        get_served_run k d w stale delivers pending send_keeps f.name f.content
          (record h { link = s1 }) opened short big small in
      (
        t,
        ground (arith, read, parsed, e),
        same ∙ later,
        g ∙ ap (λ x. x ++ answer w f) (recv_keeps h.link w.message_len),
      )

  -- The thread over all of them, up to the end of the connection.
  pub served_all :
      (fetches : List Fetch) (h : Host k d)
      → AreThere d h.files fetches
      → pending h.link ≡ requests w fetches
      → ((s : k.State) (m : ℕ) → pending s ≡ [] → (k.recv s m).0 ≡ some [])
      → (t : k.State) × (clithread k d w registered stale (rounds_of fetches) h
          ≡ ok false (record h { link = t }))
        × (sent t ≡ sent h.link ++ answers w fetches)
  unfolding clithread
  served_all [] h there heard over = (
    (k.recv h.link w.message_len).1,
    ground (arith, recv_command-end h (over h.link w.message_len heard)),
    recv_keeps h.link w.message_len ∙ sym (append-nil (sent h.link)),
  )
  served_all (f ∷ fetches) h (opened, short, big, small, whole, there) heard over =
      let (s, e, p, g) =
        round f (requests w fetches) (rounds_of fetches) h opened short big small heard in
      let (t, e', g') = served_all fetches (record h { link = s }) there p over in
      (
        t,
        e ∙ e',
        g'
            ∙ ap (λ x. x ++ answers w fetches) g
            ∙ append_assoc (sent h.link) (answer w f) (answers w fetches),
      )

actions-get :
    (name : CString) (words : List CString)
    → length name < 32
    → actions (codes "get" ∷ name ∷ words) ≡ run_get name ∷ actions words
unfolding actions str_eq
actions-get name words short = ground arith

module _ (k : Socket) (l : Link k) (d : Disk) (w : Layout) where
  open l use {pending}

  saved_one :
      (f : Fetch) (more : List ℕ) (h : Host k d) (made : d.Files)
      → length f.name < 32
      → 512 ≤ length f.content
      → length f.content < 2 ^ 31
      → length f.content % 512 ≡ 0
      → pending h.link ≡ answer w f ++ more
      → d.create h.files f.name ≡ some made
      → (t : k.State) × (comm_get k d w f.name h
          ≡ ok tt (record { link = t; files = d.write made f.name (map some f.content) }))
        × (pending t ≡ more)
  unfolding comm_get
  saved_one f more h made short big small whole heard created =
      let m = answer_of f.name (pos (length f.content)) in
      let parsed : named_size (w.parse (w.bytes m)) ≡ (f.name, pos (length f.content)) =
        ap named_size (w.parse-bytes m (short, small)) in
      rw (← received_whole f.content whole, ← w.length-bytes m)
        (get_file-saved k l d _ (λ b. named_size (w.parse b)) f.name h (w.bytes m) f.content more
          (f.name, pos (length f.content)) made
          (heard ∙ append_assoc (w.bytes m) (wire f.content) more) parsed refl short big created)

  saved_all :
      (there : Disk) (files : there.Files) (fetches : List Fetch) (last : d.Files) (more : List ℕ)
      (h : Host k d)
      → AreThere there files fetches
      → pending h.link ≡ answers w fetches ++ more
      → Saves d h.files fetches last
      → (t : k.State) × (console k d w (words_of fetches) h
          ≡ ok tt (record { link = t; files = last }))
        × (pending t ≡ more)
  unfolding console actions run_actions str_eq
  saved_all there files [] last more h are heard nothing = (h.link, refl, heard)
  saved_all there files (f ∷ fetches) last more h (opened, short, big, small, whole, are) heard
        (saved created rest) =
      let (s, e, p) =
        saved_one f (answers w fetches ++ more) h _ short big small whole
          (heard ∙ append_assoc (answer w f) (answers w fetches) more) created in
      let (t, e', p') = saved_all there files fetches last more _ are p rest in
      (t, ground (arith, actions-get f.name (words_of fetches) short, e, e'), p')

module _ (ks kc : Socket) (ls : Link ks) (lc : Link kc) (ds dc : Disk) (w : Layout)
    (stale : ℤ) where
  -- A user types `get` for one file after another, and `quit`; the files are on the server, each of
  -- a positive multiple of 512 bytes below 2 GiB, with a name of less than 32 characters. When the
  -- server's thread is handed exactly the requests for them, and then the end of the connection, and
  -- the client exactly what the thread sends in its rounds: the thread closes its connection and
  -- keeps its files, and the console ends with every file saved unchanged under its name, in the
  -- order they were asked for, with nothing but what follows the answers left to read.
  pub files_fetched :
      (fetches : List Fetch) (bytes more : List ℕ) (hs hs' : Host ks ds) (hc : Host kc dc)
      (waits : Bool) (last : dc.Files)
      → AreThere ds hs.files fetches
      → ls.pending hs.link ≡ requests w fetches
      → ((s : ks.State) (m : ℕ) → ls.pending s ≡ [] → (ks.recv s m).0 ≡ some [])
      → clithread ks ds w registered stale (rounds_of fetches) hs ≡ ok waits hs'
      → ls.sent hs'.link ≡ ls.sent hs.link ++ bytes
      → lc.pending hc.link ≡ bytes ++ more
      → Saves dc hc.files fetches last
      → (waits ≡ false)
        × (hs'.files ≡ hs.files)
        × ((t : kc.State) × (console kc dc w (words_of fetches) hc
              ≡ ok tt (record { link = t; files = last }))
            × (lc.pending t ≡ more))
  files_fetched fetches bytes more hs hs' hc waits last there asked over run said heard saves =
      let (t, e, g) = served_all ks ls ds w stale fetches hs there asked over in
      let same : hs' ≡ record hs { link = t } = ok_state (sym run ∙ e) in
      let bytes_eq : bytes ≡ answers w fetches =
        append_cancel_left (ls.sent hs.link) bytes _
          (sym said ∙ ap (λ h. ls.sent h.link) same ∙ g) in
      (
        ok_value (sym run ∙ e),
        ap (λ h. h.files) same,
        saved_all kc lc dc w ds hs.files fetches last more hc there
            (heard ∙ ap (λ x. x ++ more) bytes_eq) saves,
      )
