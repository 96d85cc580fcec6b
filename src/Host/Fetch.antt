-- ===== src/Host/Fetch.antt =====
-- What `comm_get` does with the server's answer.
use aip_pkussm.Prelude.{
  ℕ, ◌≤◌, ◌<◌, ◌≡◌, ap, none, some, List, [], ◌++◌, length, CString, ℤ, pos, arith, append-nil,
  refl, ◌∙◌, sym,
}
use aip_pkussm.Net.{Socket, ok, fault, Link}
use aip_pkussm.Transfer.Send.{wire, send-ok}
use aip_pkussm.Transfer.Recv.{recv-ok}
use aip_pkussm.Transfer.Received.{received, recv_data-received, recv_data-nothing}
use aip_pkussm.Host.{Disk, Host, get_file}
use aip_pkussm.Host.Serve.{copy_name_short}

module _ (k : Socket) (l : Link k) (d : Disk) (request : CString → List ℕ)
    (parse : List ℕ → CString × ℤ) (name : CString) (h : Host k d) where
  open l use {delivers, feeds, pending, send_keeps}

  pub get_file-saved :
      (answer file more : List ℕ) (reply : CString × ℤ) (files : d.Files)
      → pending h.link ≡ answer ++ (wire file ++ more)
      → parse answer ≡ reply
      → reply.1 ≡ pos (length file)
      → length name < 32
      → 512 ≤ length file
      → d.create h.files reply.0 ≡ some files
      → (t : k.State) × (get_file k d request (length answer) parse name h
          ≡ ok tt (record { link = t; files = d.write files reply.0 (received file) }))
        × (pending t ≡ more)
  unfolding get_file
  get_file-saved answer file more reply files p a b n big c =
      let s1 = (k.send h.link (request name)).1 in
      let (got, later) =
        recv-ok k feeds (length answer) s1 answer (wire file ++ more)
          (send_keeps h.link (request name) ∙ p) refl in
      let (t, e, q) =
        recv_data-received k feeds file more (k.recv s1 (length answer)).1 big later in
      (
        t,
        ground (
          arith,
          copy_name_short name,
          send-ok k delivers (request name) h.link,
          got,
          ap (λ r. r.0) a,
          ap (λ r. r.1) a,
          e,
        ),
        q,
      )

  -- An answer that is not followed by data, as the server's error message is not: when the
  -- connection is at its end and a file with the answer's name cannot be created, `comm_get`
  -- writes through a NULL pointer.
  pub get_file-crashes :
      (answer : List ℕ) (n : ℕ) (their_name : CString)
      → pending h.link ≡ answer
      → parse answer ≡ (their_name, pos n)
      → length name < 32
      → n < 512
      → ((s : k.State) (m : ℕ) → pending s ≡ [] → (k.recv s m).0 ≡ some [])
      → d.create h.files their_name ≡ none
      → get_file k d request (length answer) parse name h ≡ fault
  unfolding get_file
  get_file-crashes answer n their_name p a short small over c =
      let s1 = (k.send h.link (request name)).1 in
      let (got, later) =
        recv-ok k feeds (length answer) s1 answer []
          (send_keeps h.link (request name) ∙ p ∙ sym (append-nil answer)) refl in
      let nothing = recv_data-nothing k n (k.recv s1 (length answer)).1 small (over _ n later) in
      ground (
        arith,
        copy_name_short name,
        send-ok k delivers (request name) h.link,
        got,
        ap (λ r. r.0) a,
        ap (λ r. r.1) a,
        nothing,
      )
