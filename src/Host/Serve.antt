-- ===== src/Host/Serve.antt =====
-- What `get_handler` and `comm_put` put on the wire.
use aip_pkussm.Prelude.{
  ℕ, ◌^◌, ◌≤◌, ◌<◌, ◌≡◌, refl, ◌∙◌, ap, none, some, List, [], ◌++◌, length, CString, ℤ, pos, to_int,
  arith, append_assoc,
}
use aip_pkussm.Net.{Socket, ok, Delivers}
use aip_pkussm.Transfer.Send.{wire, IsUntouched, send-ok, send_data-run}
use aip_pkussm.Host.{Disk, Host, minus_one, copy_name, serve_file, put_file}

pub to_int_small : (n : ℕ) → n < 2 ^ 31 → to_int n ≡ pos n
to_int_small n h = ground arith

pub copy_name_short : (name : CString) → length name < 32 → copy_name name ≡ some name
copy_name_short name h = ground arith

module _ (k : Socket) (dl : Delivers k) (d : Disk) (header : CString → ℤ → List ℕ) (name : CString)
    (h : Host k d) where
  open dl use {sent, grows}

  pub serve_file-run :
      (o : k.State → List ℕ)
      → IsUntouched k o
      → (sorry file : List ℕ) → d.open_read h.files name ≡ some file
      → length name < 32
      → 512 ≤ length file
      → length file < 2 ^ 31
      → (t : k.State) × (serve_file k d header sorry name h ≡ ok (pos 0) (record h { link = t }))
        × (sent t ≡ sent h.link ++ (header name (pos (length file)) ++ wire file))
        × (o t ≡ o h.link)
  unfolding serve_file
  serve_file-run o keeps sorry file opened l big small =
      let head : List ℕ = header name (pos (length file)) in
      let (t, e, g, same) = send_data-run k dl file (k.send h.link head).1 o keeps big in
      (
        t,
        ground (
          arith,
          opened,
          copy_name_short name,
          to_int_small (length file),
          send-ok k dl head h.link,
          e,
        ),
        g ∙ ap (λ x. x ++ wire file) (grows h.link head) ∙ append_assoc (sent h.link) head _,
        same ∙ keeps h.link head,
      )

  -- A file that cannot be opened: the error message goes out, and the handler returns -1.
  pub serve_file-missing :
      (sorry : List ℕ)
      → d.open_read h.files name ≡ none
      → (t : k.State) × (serve_file k d header sorry name h ≡ ok minus_one (record h { link = t }))
        × (sent t ≡ sent h.link ++ sorry)
  unfolding serve_file
  serve_file-missing sorry o =
      ((k.send h.link sorry).1, ground (arith, send-ok k dl sorry h.link), grows h.link sorry)

  -- A file of 512 bytes or more that is put goes out as its message and its bytes.
  pub put_file-run :
      (file : List ℕ)
      → d.open_read h.files name ≡ some file
      → length name < 32
      → 512 ≤ length file
      → length file < 2 ^ 31
      → (t : k.State) × (put_file k d header name h ≡ ok (pos 0) (record h { link = t }))
        × (sent t ≡ sent h.link ++ (header name (pos (length file)) ++ wire file))
  unfolding put_file
  put_file-run file opened l big small =
      let head : List ℕ = header name (pos (length file)) in
      let (t, e, g, same) =
        send_data-run k dl file (k.send h.link head).1 (λ s. []) (λ s b. refl) big in
      (
        t,
        ground (
          arith,
          opened,
          copy_name_short name,
          to_int_small (length file),
          send-ok k dl head h.link,
          e,
        ),
        g ∙ ap (λ x. x ++ wire file) (grows h.link head) ∙ append_assoc (sent h.link) head _,
      )
