-- ===== src/Chat/Client.antt =====
-- A5/Chatroom/src/Client.cc: connecting, sending and showing messages, and the console.
use aip_pkussm.Prelude.{
  ℕ, zero, suc, ◌<◌, ◌≡◌, refl, arith, Bool, Option, none, some, List, [], ◌∷◌, ◌++◌, length,
  CString, ◌==◌, ℤ, pos, to_size,
}
use aip_pkussm.Net.{Socket, Exec, pure, send, recv, ◌>>=◌}
use aip_pkussm.Host.{Disk, Host, get_file, put_file}
use aip_pkussm.Chat.Header.{recv_header}
use aip_pkussm.Chat.{Message, null, block, Layout, put, get, conn, sendmsg}

-- The globals `my_name`, which fits its array of 32 characters, and `my_id`.
pub record Me : Type 0 where
  pub my_name : CString
  pub my_id : ℕ

abbrev pub conn_message : Me → Message
conn_message me = record {
  command = conn;
  fname = me.my_name;
  data_size = pos 0;
  data_ptr = null;
  from = me.my_id;
  to = me.my_id;
}

abbrev pub text_message : Me → ℕ → CString → Message
text_message me id content = record {
  command = sendmsg;
  fname = me.my_name;
  data_size = pos (length content);
  data_ptr = block content;
  from = me.my_id;
  to = id;
}

-- `comm_get` and `comm_put` set the first three members of the struct `msg` that they send.
abbrev pub get_request : Message → CString → Message
get_request msg name = record msg { command = get; fname = name; data_size = pos 0 }

abbrev pub put_request : Message → CString → ℤ → Message
put_request msg name size = record msg { command = put; fname = name; data_size = size }

module _ (k : Socket) (w : Layout) where
  unfoldable pub comm_conn : Me → Exec k.State (Unit {0})
  comm_conn me = send k (w.bytes (conn_message me))

  -- The struct and the text go out in one `send`.
  unfoldable pub comm_sendmsg : Me → ℕ → CString → Exec k.State (Unit {0})
  comm_sendmsg me id content = send k (w.bytes (text_message me id content) ++ content)

  -- One turn of `comm_waitmsg`: the message with its data, or an exit where the connection is at
  -- its end.
  unfoldable pub comm_waitmsg : Exec k.State Message
  comm_waitmsg = do
    bytes ← recv_header k w
    let msg = w.parse bytes
    buff ← recv k (to_size msg.data_size)
    pure (record msg { data_ptr = block buff })

-- What `MESSAGE_DIS` shows: the sender's name and id, whether it says "all", and the text. `%s`
-- reads up to a NUL: `none` where the received block has none, and the read runs off its end.
pub record Shown : Type 0 where
  pub name : CString
  pub id : ℕ
  pub to_all : Bool
  pub text : Option CString

abbrev pub AllNonzero : List ℕ → Type 0
AllNonzero [] = Unit
AllNonzero (b ∷ text) = (0 < b) × AllNonzero text

unfoldable pub up_to_nul : List ℕ → Option CString
up_to_nul [] = none
up_to_nul (zero ∷ rest) = some []
up_to_nul (suc b ∷ rest) = elim (up_to_nul rest) [ none ↦ none | some s ↦ some (suc b ∷ s) ]

-- Reading a block without a NUL up to its NUL, as `%s` does, runs off its end.
up_to_nul-unterminated : (text : List ℕ) → AllNonzero text → up_to_nul text ≡ none
unfolding up_to_nul
up_to_nul-unterminated [] h = refl
up_to_nul-unterminated (zero ∷ text) h = absurd (omega arith)
up_to_nul-unterminated (suc b ∷ text) h = rw (up_to_nul-unterminated text h.1) refl

unfoldable pub show : Message → List ℕ → Shown
show msg buff = record {
  name = msg.fname;
  id = msg.from;
  to_all = msg.to == 0;
  text = up_to_nul buff;
}

-- `msg` is what the memory of the local struct holds.
module _ (k : Socket) (d : Disk) (w : Layout) (msg : Message) where
  unfoldable pub comm_get : CString → Exec (Host k d) (Unit {0})
  comm_get fname =
      get_file k d (λ name. w.bytes (get_request msg name)) w.message_len
        (λ b. let m = w.parse b in (m.fname, m.data_size)) fname

  unfoldable pub comm_put : CString → Exec (Host k d) ℤ
  comm_put fname = put_file k d (λ name size. w.bytes (put_request msg name size)) fname
