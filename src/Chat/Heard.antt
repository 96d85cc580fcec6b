-- ===== src/Chat/Heard.antt =====
-- The thread of `comm_waitmsg` of A5/Chatroom/src/Client.cc, message after message.
pub mod Told
pub mod Taken
use aip_pkussm.Prelude.{
  some, ℕ, zero, suc, ◌+◌, ◌-◌, ◌^◌, ◌/◌, ◌≤◌, ◌<◌, ◌≡◌, ◌≢◌, ◌↔◌, lt_or_le, inl, inr, refl, sym,
  ◌∙◌, ap, Bool, true, false, List, [], ◌∷◌, ◌++◌, length, ltb, leb, if◌then◌else◌, pos, arith,
}
use aip_pkussm.Net.{Socket, ok, failed, fault, Feeds}
use aip_pkussm.Host.{max_file_name_len}
use aip_pkussm.Chat.{Message, Layout, IsSendable, block}
use aip_pkussm.Chat.Client.{comm_waitmsg}
use aip_pkussm.Chat.Header.{recv_header}
use aip_pkussm.Chat.Session.{comm_waitmsg-reads}

-- The digits of a number, for a number of up to `fuel` digits more than one.
unfoldable pub digits : ℕ → ℕ → ℕ
digits zero n = 1
digits (suc fuel) n = let more = digits fuel (n / 10) in if ltb n 10 then 1 else 1 + more

-- The characters that `%d` prints for an unsigned int.
abbrev pub printed_len : ℕ → ℕ
printed_len n = if ltb n (2 ^ 31) then digits 10 n else 1 + digits 10 (2 ^ 32 - n)

-- What `sprintf (sender, "%s[id=%d]", ...)` writes, with the NUL.
unfoldable pub sender_len : Message → ℕ
sender_len msg = length msg.fname + 4 + printed_len msg.from + 2

-- Why the thread is where it is: it waits for another message; it has called `exit`; or it has
-- written behind the end of `sender`.
pub data Stopped : Type 0 where
  listening exited overrun : Stopped

module _ (k : Socket) (w : Layout) where
  -- The loop for at most `rounds` messages: those that it shows, in order.
  unfoldable pub wait_messages : ℕ → k.State → List Message × Stopped
  unfolding comm_waitmsg sender_len
  wait_messages zero s = ([], listening)
  wait_messages (suc rounds) s = elim (comm_waitmsg k w s) [
    | fault ↦ ([], overrun)
    | failed t ↦ ([], exited)
    | ok msg t ↦
        let (more, end) = wait_messages rounds t in
        if leb (sender_len msg) max_file_name_len then (msg ∷ more, end) else ([], overrun)
  ]

shown_ne :
    {msg : Message} {shown : List Message} {end : Stopped}
    → ◌≢◌ {A = List Message × Stopped} (msg ∷ shown, end) ([], overrun)
shown_ne e = cc

module _ (k : Socket) (f : Feeds k) (w : Layout) where
  open f use {pending}

  -- A message that is shown.
  pub wait_messages-shows :
      (m : Message) (text more : List ℕ) (rounds : ℕ) (s : k.State)
      → IsSendable m
      → m.data_size ≡ pos (length text)
      → sender_len m ≤ max_file_name_len
      → pending s ≡ (w.bytes m ++ text) ++ more
      → (t : k.State) × (wait_messages k w (suc rounds) s ≡ (
          let (later, end) = wait_messages k w rounds t in
          (record m { data_ptr = block text } ∷ later, end)))
        × (pending t ≡ more)
  unfolding wait_messages
  wait_messages-shows m text more rounds s fits size short heard =
      let (t, e, p) = comm_waitmsg-reads k f w m text more s fits size heard in
      (t, ground (arith, e), p)

  -- The end of the connection.
  pub wait_messages-exits :
      (rounds : ℕ) (s : k.State)
      → (k.recv s w.message_len).0 ≡ some []
      → wait_messages k w (suc rounds) s ≡ ([], exited)
  unfolding wait_messages comm_waitmsg recv_header
  wait_messages-exits rounds s e = ground arith

  wait_messages-overruns :
      (m : Message) (text more : List ℕ) (rounds : ℕ) (s : k.State)
      → IsSendable m
      → m.data_size ≡ pos (length text)
      → max_file_name_len < sender_len m
      → pending s ≡ (w.bytes m ++ text) ++ more
      → wait_messages k w (suc rounds) s ≡ ([], overrun)
  unfolding wait_messages sender_len
  wait_messages-overruns m text more rounds s fits size long heard =
      let (t, e, p) = comm_waitmsg-reads k f w m text more s fits size heard in ground (arith, e)

  -- A client that reads a message writes behind the end of an array exactly if the sender's name and
  -- the digits of its id have more than 26 characters together.
  pub wait_messages-overruns_iff :
      (m : Message) (text more : List ℕ) (rounds : ℕ) (s : k.State)
      → IsSendable m
      → m.data_size ≡ pos (length text)
      → pending s ≡ (w.bytes m ++ text) ++ more
      → (wait_messages k w (suc rounds) s ≡ ([], overrun))
        ↔ (26 < length m.fname + printed_len m.from)
  unfolding sender_len
  wait_messages-overruns_iff m text more rounds s fits size heard = (
    (λ e. elim (lt_or_le max_file_name_len (sender_len m)) [
      | inl long ↦ omega (arith, long)
      | inr short ↦
          let (t, shown, p) = wait_messages-shows m text more rounds s fits size short heard in
          absurd (shown_ne (sym shown ∙ e))
    ]),
    (λ long. wait_messages-overruns m text more rounds s fits size (omega (arith, long)) heard),
  )
