-- ===== src/Chat/Pipe/Bytes.antt =====
-- What goes into the FIFO comes out of it.
use aip_pkussm.Prelude.{
  ℕ, ◌+◌, ◌≡◌, refl, sym, leb, true, ◌∙◌, ap, some, List, ◌++◌, length, arith, append_assoc, pos,
  length-append, take-append_left, drop-append_left, take-length, to_size,
}
use aip_pkussm.Chat.{Message, Layout, block, IsSendable}
use aip_pkussm.Chat.Pipe.{put_bytes, read_message}

module _ (w : Layout) (m : Message) (text rest : List ℕ) (fits : IsSendable m)
    (size : m.data_size ≡ pos (length text)) (body : m.data_ptr ≡ block text) where
  pub put_bytes-text : put_bytes w m ≡ some (w.bytes m ++ text)
  unfolding put_bytes
  put_bytes-text = ground (arith, take-length (length text) text refl)

  pub read_message-text :
      read_message w (w.bytes m ++ (text ++ rest)) ≡ some (record m { data_ptr = block text }, rest)
  unfolding read_message
  read_message-text =
      let l = w.length-bytes m in
      let enough : leb (w.message_len + length text) (length (w.bytes m ++ (text ++ rest))) ≡ true =
        ground (arith, length-append (w.bytes m) (text ++ rest), length-append text rest, l) in
      rw
        (
          take-append_left w.message_len (w.bytes m) (text ++ rest) (sym l),
          drop-append_left w.message_len (w.bytes m) (text ++ rest) (sym l),
          w.parse-bytes m fits,
          ap to_size size,
          enough,
          take-append_left (length text) text rest refl,
          drop-append_left (length text) text rest refl,
        )
        refl

  -- `getMessage` behind `putMessage` of a message whose data has the size that it says returns
  -- that message, with its data in a block of its own, and leaves what stands behind it.
  get-put :
      (bytes : List ℕ)
      → put_bytes w m ≡ some bytes
      → read_message w (bytes ++ rest) ≡ some (record m { data_ptr = block text }, rest)
  get-put bytes put =
      let e : bytes ≡ w.bytes m ++ text = cc (put, put_bytes-text) in
      ap (read_message w) (ap (λ b. b ++ rest) e ∙ append_assoc (w.bytes m) text rest)
      ∙ read_message-text
