-- ===== src/Chat/Server/Parse.antt =====
-- What `parse_msg` makes of the bytes that a client sends.
use aip_pkussm.Prelude.{
  ℕ, ◌+◌, ◌/◌, ◌%◌, ◌<◌, ◌≡◌, refl, ◌∙◌, ap, some, none, Option, List, [], ◌∷◌, ◌++◌, map,
  replicate, length, pos, arith, append-nil, is_le_zero, true, false, length-replicate, drop-length,
}
use aip_pkussm.Net.{Socket, ok, Feeds, recv, ◌>>=◌}
use aip_pkussm.Transfer.{store_last, recv_blocks, recv_rest}
use aip_pkussm.Transfer.Recv.{recv-ok, store-append}
use aip_pkussm.Chat.{Message, Layout, null, block, IsSendable, carried}
use aip_pkussm.Chat.Header.{recv_header-ok}
use aip_pkussm.Chat.Server.{parse_msg, parse_data, values}

pub values-some : (junk : ℕ → ℕ) (i : ℕ) (xs : List ℕ) → values junk i (map some xs) ≡ xs
unfolding values
values-some junk i [] = refl
values-some junk i (x ∷ xs) = ap (λ t. x ∷ t) (values-some junk (i + 1) xs)

-- A text of less than one block fills the buffer that it is read into.
store_all :
    (text : List ℕ) → store_last (replicate (length text) none) 1 text ≡ some (map some text)
store_all text =
    let l = length-replicate {A = Option ℕ} (length text) none in
    store-append [] (replicate (length text) none) 0 text refl (omega arith)
    ∙ ap some (
        ap (λ x. map some text ++ x)
          (drop-length (length text) (replicate {A = Option ℕ} (length text) none) (omega arith))
        ∙ append-nil (map some text))

parse_data-short :
    (k : Socket) (w : Layout) (junk : ℕ → ℕ) (m : Message) (text : List ℕ) (s t : k.State)
    → m.data_size ≡ pos (length text)
    → 0 < length text
    → length text < 512
    → recv k (length text) s ≡ ok text t
    → parse_data k w junk m s ≡ ok (record m { data_ptr = block text }) t
unfolding parse_data recv_blocks recv_rest
parse_data-short k w junk m text s t size some_text short e =
    let a : length text / 512 ≡ 0 = omega arith in
    let b : length text % 512 ≡ length text = omega arith in
    let c : is_le_zero (pos (length text)) ≡ false = ground arith in
    rw size (rw (c, a, b) (ground (arith, e, store_all text, values-some junk 0 text)))

module _ (k : Socket) (f : Feeds k) (w : Layout) where
  open f use {pending}

  module _ (m : Message) (fits : IsSendable m) (more : List ℕ) (s : k.State) (junk : ℕ → ℕ) where
    abbrev header : Message
    header = w.parse (w.bytes m)

    header_eq : header ≡ record m { data_ptr = carried m.data_ptr }
    header_eq = w.parse-bytes m fits

    -- A message with less than 512 bytes of data, at least one, is parsed to the message that was
    -- sent, with its data in a block of its own; nothing behind it is read.
    pub parse_msg-short :
        (text : List ℕ)
        → m.data_size ≡ pos (length text)
        → 0 < length text
        → length text < 512
        → pending s ≡ w.bytes m ++ (text ++ more)
        → (t : k.State) × (parse_msg k w junk s ≡ ok (record m { data_ptr = block text }) t)
          × (pending t ≡ more)
    unfolding parse_msg
    parse_msg-short text size some_text short p =
        let (got, later) = recv_header-ok k f w m (text ++ more) s p in
        let t1 = (k.recv s w.message_len).1 in
        let (body, last) = recv-ok k f (length text) t1 text more later refl in
        let t2 = (k.recv t1 (length text)).1 in
        (
          t2,
          rw (got, ◌>>=◌)
              (rw header_eq (
                parse_data-short k w junk (record m { data_ptr = carried m.data_ptr }) text t1 t2
                  size some_text short body)),
          last,
        )

    -- A message without data is parsed to the message that was sent, with a null pointer.
    pub parse_msg-empty :
        is_le_zero m.data_size ≡ true
        → pending s ≡ w.bytes m ++ more
        → (t : k.State) × (parse_msg k w junk s
            ≡ ok (record m { data_size = pos 0; data_ptr = null }) t)
          × (pending t ≡ more)
    unfolding parse_msg parse_data
    parse_msg-empty size p =
        let (got, later) = recv_header-ok k f w m more s p in
        ((k.recv s w.message_len).1, rw (got, ◌>>=◌) (rw header_eq (rw size refl)), later)
