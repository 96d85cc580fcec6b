-- ===== src/Chat/Stored.antt =====
-- PUT in the chatroom: the client's `comm_put`, and `parse_msg` and `put_handler` of the server.
use mathlib.Core.List.{append_cancel_left}
use aip_pkussm.Prelude.{
  ℕ, zero, suc, [], Option, ◌+◌, ◌*◌, ◌/◌, ◌%◌, ◌^◌, ◌≤◌, ◌<◌, ◌≡◌, refl, sym, ◌∙◌, ap, none, some,
  List, ◌∷◌, ◌++◌, append_assoc, length, length-append, replicate, length-take, length-drop, ◌-◌,
  drop-length, take, drop, map, CString, ℤ, pos, arith,
}
use aip_pkussm.Net.{Socket, ok, ok_value, ok_state, Delivers, Feeds, ◌>>=◌}
use aip_pkussm.Transfer.Send.{wire}
use aip_pkussm.Transfer.Received.{received, receives, wire_rest}
use aip_pkussm.Host.{Disk, Host}
use aip_pkussm.Host.Serve.{put_file-run}
use aip_pkussm.Chat.{Message, Layout, IsSendable, block, carried}
use aip_pkussm.Chat.Header.{recv_header-ok}
use aip_pkussm.Chat.Server.Handling.{put_writes}
use aip_pkussm.Chat.Users.{Cmsg}
use aip_pkussm.Chat.Client.{put_request, comm_put}
use aip_pkussm.Chat.Server.{
  Leftover, Process, registered, values, at_least_one, parse_data, parse_msg, clithread,
}

-- The bytes that the memory holds from the cell `i` on.
unfoldable pub unset : (ℕ → ℕ) → ℕ → ℕ → List ℕ
unset junk i zero = []
unset junk i (suc n) = junk i ∷ unset junk (i + 1) n

length-unset : (junk : ℕ → ℕ) (i n : ℕ) → length (unset junk i n) ≡ n
unfolding unset
length-unset junk i zero = refl
length-unset junk i (suc n) = ap suc (length-unset junk (i + 1) n)

-- What the server has of a file of 512 bytes or more: the full blocks, then the bytes that the
-- memory of the buffer holds behind them.
abbrev pub stored : (ℕ → ℕ) → List ℕ → List ℕ
stored junk file =
    take (length file / 512 * 512) file ++ unset junk (length file / 512 * 512) (length file % 512)

length-stored : (junk : ℕ → ℕ) (file : List ℕ) → length (stored junk file) ≡ length file
length-stored junk file = omega (
  arith,
  length-append (take (length file / 512 * 512) file)
      (unset junk (length file / 512 * 512) (length file % 512)),
  length-take (length file / 512 * 512) file,
  length-unset junk (length file / 512 * 512) (length file % 512),
)

values-unset : (junk : ℕ → ℕ) (i n : ℕ) → values junk i (replicate n none) ≡ unset junk i n
unfolding values unset
values-unset junk i zero = refl
values-unset junk i (suc n) = ap (λ l. junk i ∷ l) (values-unset junk (i + 1) n)

-- Cells that are set, and the others behind them.
values-append :
    (junk : ℕ → ℕ) (i : ℕ) (bytes : List ℕ) (cells : List (Option ℕ))
    → values junk i (map some bytes ++ cells) ≡ bytes ++ values junk (i + length bytes) cells
unfolding values
values-append junk i [] cells = let e : i + 0 ≡ i = omega arith in rw e refl
values-append junk i (x ∷ bytes) cells =
    let e : i + 1 + length bytes ≡ i + suc (length bytes) = omega arith in
    ap (λ l. x ∷ l) (values-append junk (i + 1) bytes cells ∙ rw e refl)

values-received : (junk : ℕ → ℕ) (file : List ℕ) → values junk 0 (received file) ≡ stored junk file
values-received junk file =
    let full : List ℕ = take (length file / 512 * 512) file in
    let l : 0 + length full ≡ length file / 512 * 512 =
      omega (arith, length-take (length file / 512 * 512) file) in
    values-append junk 0 full (replicate (length file % 512) none)
    ∙ ap (λ n. full ++ values junk n (replicate (length file % 512) none)) l
    ∙ ap (λ x. full ++ x) (values-unset junk (length file / 512 * 512) (length file % 512))

at_least_one_pos : (i : ℕ) → 0 < i → at_least_one i ≡ i
at_least_one_pos zero h = elim h [ ]
at_least_one_pos (suc i) h = refl

module _ (k : Socket) (f : Feeds k) (w : Layout) where
  open f use {pending}

  parse_data-long :
      (junk : ℕ → ℕ) (m : Message) (file more : List ℕ) (s : k.State)
      → m.data_size ≡ pos (length file)
      → 512 ≤ length file
      → pending s ≡ wire file ++ more
      → (t : k.State) × (parse_data k w junk m s
          ≡ ok (record m { data_ptr = block (stored junk file) }) t)
        × (pending t ≡ more)
  unfolding parse_data
  parse_data-long junk m file more s size big p =
      let (buff, t, u, a, b, c) =
        receives k f file more s (length file % 512) big (omega arith) p in
      (
        u,
        rw size
            (ground (arith, a, b, at_least_one_pos (length file / 512), values-received junk file)),
        c
            ∙ ap (λ x. x ++ more)
                (drop-length (length file % 512) (wire_rest file) (
                  omega (
                    arith,
                    length-take (length file % 512) (drop ((length file / 512 - 1) * 512) file),
                    length-drop ((length file / 512 - 1) * 512) file,
                  ))),
      )

  pub parse_msg-long :
      (junk : ℕ → ℕ) (m : Message) (file more : List ℕ) (s : k.State)
      → IsSendable m
      → m.data_size ≡ pos (length file)
      → 512 ≤ length file
      → pending s ≡ (w.bytes m ++ wire file) ++ more
      → (t : k.State) × (parse_msg k w junk s
          ≡ ok (record m { data_ptr = block (stored junk file) }) t)
        × (pending t ≡ more)
  unfolding parse_msg
  parse_msg-long junk m file more s fits size big p =
      let (got, later) =
        recv_header-ok k f w m (wire file ++ more) s
          (p ∙ append_assoc (w.bytes m) (wire file) more) in
      let (t, e, rest) =
        parse_data-long junk (record m { data_ptr = carried m.data_ptr }) file more
          (k.recv s w.message_len).1 size big later in
      (t, rw (got, ◌>>=◌) (rw (w.parse-bytes m fits) e), rest)

module _ (kc k : Socket) (dc d : Disk) (w : Layout) (c : Cmsg) (left : Leftover) (connfd : ℤ)
    (out : Delivers kc) (f : Feeds k) where
  -- A client puts a file of 512 bytes or more, and less than 2 GiB, with a name of less than 32
  -- characters, where the members of the message that it leaves unset fit their types. When the
  -- server's thread is handed exactly what the client sent, and then `more`, and can create the file,
  -- `comm_put` returns 0, and the thread writes a file of that name and size, with the full blocks
  -- of 512 bytes unchanged and behind them what the buffer's memory held, and goes on with the next message, at `more`.
  pub file_put :
      (msg : Message) (name : CString) (file bytes more : List ℕ) (hc hc' : Host kc dc) (ret : ℤ)
      (p : Process k d) (made : d.Files) (rounds : ℕ)
      → dc.open_read hc.files name ≡ some file
      → length name < 32
      → 512 ≤ length file
      → length file < 2 ^ 31
      → msg.from < 2 ^ 32
      → msg.to < 2 ^ 32
      → comm_put kc dc w msg name hc ≡ ok ret hc'
      → out.sent hc'.link ≡ out.sent hc.link ++ bytes
      → f.pending p.host.link ≡ bytes ++ more
      → d.create p.host.files name ≡ some made
      → (ret ≡ pos 0)
        × ((t : k.State) × (clithread k d w c left registered connfd (suc rounds) p
              ≡ clithread k d w c left registered connfd rounds (record p {
                host = record {
                  link = t;
                  files = d.write made name (map some (stored (left.junk rounds) file));
                };
              }))
            × (f.pending t ≡ more))
  unfolding comm_put clithread
  file_put msg name file bytes more hc hc' ret p made rounds opened short big small from to run said
        heard created =
      let m = put_request msg name (pos (length file)) in
      let fits : IsSendable m = record {
        name_fits = short;
        size_fits = small;
        from_fits = from;
        to_fits = to;
      } in
      let (t, e, g) =
        put_file-run kc out dc (λ n size. w.bytes (put_request msg n size)) name hc file opened
          short big small in
      let same : t ≡ hc'.link = ap (λ h. h.link) (ok_state (sym e ∙ run)) in
      let bytes_eq : bytes ≡ w.bytes m ++ wire file =
        append_cancel_left (out.sent hc.link) bytes _ (sym said ∙ ap out.sent (sym same) ∙ g) in
      let (u, parsed, rest) =
        parse_msg-long k f w (left.junk rounds) m file more p.host.link fits refl big
          (heard ∙ ap (λ x. x ++ more) bytes_eq) in
      let whole : Message = record m { data_ptr = block (stored (left.junk rounds) file) } in
      let p1 : Process k d = record p { host = record { link = u; files = p.host.files } } in
      let written =
        put_writes k d w c left connfd whole (stored (left.junk rounds) file) p1 made refl
          (ap pos (sym (length-stored (left.junk rounds) file))) refl created in
      (ok_value (sym run ∙ e), (u, ground (arith, parsed, written), rest))
