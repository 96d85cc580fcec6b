-- ===== src/Ftp/Handlers.antt =====
-- A3/Handlers.cc: the server's handlers.
use aip_pkussm.Prelude.{none, some, [], CString, ℤ, pos, rounds, div_int, rem_int, to_size}
use aip_pkussm.Net.{Socket, ok, Exec, pure, ◌>>=◌, ◌>>◌}
use aip_pkussm.Transfer.{Buffer, block, malloc, recv_blocks, recv_rest}
use aip_pkussm.Host.{Disk, Host, catch, on_link, refuse, serve_file}
use aip_pkussm.Ftp.{Message, Layout, get, error}

abbrev pub open_error : Message
open_error = record { command = error; fname = []; data_size = pos 16 }

abbrev pub create_error : Message
create_error = record { command = error; fname = []; data_size = pos 18 }

abbrev pub answer_of : CString → ℤ → Message
answer_of name size = record { command = get; fname = name; data_size = size }

module _ (k : Socket) (d : Disk) (w : Layout) where
  unfoldable pub get_handler : Message → Exec (Host k d) ℤ
  get_handler msg =
      serve_file k d (λ name size. w.bytes (answer_of name size)) (w.bytes open_error) msg.fname

  pub fwrite : CString → Buffer → Exec (Host k d) (Unit {0})
  fwrite name buff h = ok tt (record h { files = d.write h.files name buff })

  -- `rem_bytes` is computed from `resp_msg.data_size`, which nothing has set: `stale` is what the
  -- memory of `resp_msg` holds there.
  unfoldable pub put_handler : ℤ → Message → Exec (Host k d) ℤ
  unfolding fwrite refuse
  put_handler stale msg h = elim (d.create h.files msg.fname) [
    | none ↦ refuse k d (w.bytes create_error) h
    | some files ↦
        catch
          (do
            (buff, i) ←
                on_link
                  (recv_blocks k (malloc msg.data_size) 0 (rounds (div_int msg.data_size block)))
            full ← on_link (recv_rest k buff i (to_size (rem_int stale block)))
            fwrite msg.fname full
            pure (pos 0))
          (record h { files = files })
  ]
