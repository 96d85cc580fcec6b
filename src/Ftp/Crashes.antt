-- ===== src/Ftp/Crashes.antt =====
-- A3/FileServer.cc and A3/Handlers.cc: which requests make the server read out of its
-- buffer or call a null pointer.
use aip_pkussm.Prelude.{
  ℕ, ◌^◌, ◌<◌, ◌≡◌, ◌≢◌, ◌↔◌, ◌⊎◌, inl, inr, refl, sym, ◌∙◌, Option-cases, some, List, [], length,
  CString, ℤ, pos, arith,
}
use aip_pkussm.Net.{Socket, ok, fault, Delivers}
use aip_pkussm.Transfer.Send.{sizes, send-ok, send_data-fault, send_data-empty, ok_ne}
use aip_pkussm.Host.{Disk, Host, serve_file}
use aip_pkussm.Host.Serve.{to_int_small, copy_name_short, serve_file-run, serve_file-missing}
use aip_pkussm.Ftp.{Command, Message, Layout, get, put, ls, cd, error, quit, connect}
use aip_pkussm.Ftp.Handlers.{answer_of, open_error, get_handler}
use aip_pkussm.Ftp.Server.{registered, handle_msg}

-- A file that the sender reads out of its buffer: it has 1 to 511 bytes.
abbrev pub IsShortFile : List ℕ → Type 0
IsShortFile file = (0 < length file) × (length file < 512)

module _ (k : Socket) (dl : Delivers k) (d : Disk) (header : CString → ℤ → List ℕ) (sorry : List ℕ)
    (name : CString) (h : Host k d) where
  serve_file-faults :
      (file : List ℕ)
      → d.open_read h.files name ≡ some file
      → length name < 32
      → IsShortFile file
      → serve_file k d header sorry name h ≡ fault
  unfolding serve_file
  serve_file-faults file opened l (p, small) =
      let head = header name (pos (length file)) in
      ground (
        arith,
        opened,
        copy_name_short name,
        to_int_small (length file),
        send-ok k dl head h.link,
        send_data-fault k dl file (k.send h.link head).1 p small,
      )

  serve_file-empty :
      (file : List ℕ)
      → d.open_read h.files name ≡ some file
      → length name < 32
      → length file ≡ 0
      → (t : k.State) × (serve_file k d header sorry name h ≡ ok (pos 0) (record h { link = t }))
  unfolding serve_file
  serve_file-empty file opened l z =
      let head = header name (pos (length file)) in
      let (t, e) = send_data-empty k dl file (k.send h.link head).1 z in
      (
        t,
        ground (
          arith,
          opened,
          copy_name_short name,
          to_int_small (length file),
          send-ok k dl head h.link,
          e,
        ),
      )

  -- What is asked for and faults is a file that the sender reads out of its buffer.
  short_of_fault :
      ((file : List ℕ) → d.open_read h.files name ≡ some file → length file < 2 ^ 31)
      → length name < 32
      → serve_file k d header sorry name h ≡ fault
      → (file : List ℕ) × (d.open_read h.files name ≡ some file) × IsShortFile file
  short_of_fault small l e = elim (Option-cases (d.open_read h.files name)) [
    | inl o ↦
        let (t, run, sent) = serve_file-missing k dl d header name h sorry o in
        absurd (ok_ne (sym run ∙ e))
    | inr (file, o) ↦ elim (sizes (length file)) [
      | inl z ↦ let (t, run) = serve_file-empty file o l z in absurd (ok_ne (sym run ∙ e))
      | inr (inl short) ↦ (file, o, short)
      | inr (inr big) ↦
          let (t, run, sent, same) =
            serve_file-run k dl d header name h (λ s. []) (λ s b. refl) sorry file o l big
              (small file o) in
          absurd (ok_ne (sym run ∙ e))
    ]
  ]

commands : (c : Command) → (c ≡ get) ⊎ (c ≡ put) ⊎ ((c ≢ get) × (c ≢ put))
commands get = inl refl
commands put = inr (inl refl)
commands ls = inr (inr ((λ e. cc), (λ e. cc)))
commands cd = inr (inr ((λ e. cc), (λ e. cc)))
commands error = inr (inr ((λ e. cc), (λ e. cc)))
commands quit = inr (inr ((λ e. cc), (λ e. cc)))
commands connect = inr (inr ((λ e. cc), (λ e. cc)))

module _ (k : Socket) (dl : Delivers k) (d : Disk) (w : Layout) (stale : ℤ) (m : Message)
    (h : Host k d) where
  other_command : m.command ≢ get → m.command ≢ put → handle_msg k d w registered stale m h ≡ fault
  unfolding handle_msg registered
  other_command ng np = ground arith

  get_command :
      m.command ≡ get
      → handle_msg k d w registered stale m h
        ≡ serve_file k d (λ n size. w.bytes (answer_of n size)) (w.bytes open_error) m.fname h
  unfolding handle_msg registered get_handler
  get_command e = ground (arith, e)

  -- On a connection that takes every byte, and with files of less than 2 GiB, the server calls a null
  -- pointer or reads outside of a buffer (`fault`) at a message other than PUT, with a name of less
  -- than 32 characters, exactly if its command is not GET either, which has no handler, or if it
  -- asks for a file of 1 to 511 bytes.
  pub handle_msg-fault_iff :
      m.command ≢ put
      → length m.fname < 32
      → ((file : List ℕ) → d.open_read h.files m.fname ≡ some file → length file < 2 ^ 31)
      → (handle_msg k d w registered stale m h ≡ fault) ↔ (
          (m.command ≢ get)
          ⊎ ((file : List ℕ) × (d.open_read h.files m.fname ≡ some file) × IsShortFile file))
  handle_msg-fault_iff np l small =
      let header : CString → ℤ → List ℕ = λ n size. w.bytes (answer_of n size) in
      let sorry = w.bytes open_error in
      (
        (λ e. elim (commands m.command) [
          | inl g ↦
              inr (short_of_fault k dl d header sorry m.fname h small l (sym (get_command g) ∙ e))
          | inr (inl p) ↦ absurd (np p)
          | inr (inr (ng, _)) ↦ inl ng
        ]),
        (λ c. elim c [
          | inl ng ↦ other_command ng np
          | inr (file, o, short) ↦ elim (commands m.command) [
            | inl g ↦ get_command g ∙ serve_file-faults k dl d header sorry m.fname h file o l short
            | inr (inl p) ↦ absurd (np p)
            | inr (inr (ng, _)) ↦ other_command ng np
          ]
        ]),
      )
