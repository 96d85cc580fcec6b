-- ===== src/Chat/Pipe/Queue.antt =====
-- MessagePipe as a MessagePoll: a FIFO of bytes that is a mailbox of messages.
use mathlib.Core.Path.{subst}
use aip_pkussm.Prelude.{
  ℕ, ◌≡◌, sym, ◌∙◌, ap, true, false, none, some, refl, List, [], ◌∷◌, ◌++◌, append-nil,
  append_assoc, length, pos, arith,
}
use aip_pkussm.Chat.{Message, Layout, block, IsSendable}
use aip_pkussm.Chat.Poll.{MessagePoll, IsMailbox}
use aip_pkussm.Chat.Pipe.{put_message, read_message, get_message}
use aip_pkussm.Chat.Pipe.Bytes.{put_bytes-text, read_message-text}

-- A message whose members fit the struct, with as much data as it says.
pub record IsWhole (m : Message) : Type 0 where
  pub fits : IsSendable m
  pub text : List ℕ
  pub size : m.data_size ≡ pos (length text)
  pub body : m.data_ptr ≡ block text

-- The bytes of messages one behind the other.
pub data Holds (w : Layout) : List ℕ → List Message → Type 0 where
  nothing : Holds w [] []
  first :
      {fifo : List ℕ} {q : List Message} (m : Message) (v : IsWhole m)
      → Holds w fifo q
      → Holds w (w.bytes m ++ (v.text ++ fifo)) (m ∷ q)

module _ (w : Layout) where
  abbrev pub pipe : MessagePoll Message
  pipe = record {
    State = List ℕ;
    put_message = put_message w true;
    get_message = get_message w false;
  }

  pub put_whole :
      (fifo : List ℕ) (m : Message) (v : IsWhole m)
      → put_message w true m fifo ≡ some (fifo ++ (w.bytes m ++ v.text))
  unfolding put_message
  put_whole fifo m v =
      let e = put_bytes-text w m v.text [] v.fits v.size v.body in ground (arith, e)

  -- A message behind the others.
  pub put_last :
      (fifo : List ℕ) (q : List Message) (m : Message) (v : IsWhole m)
      → Holds w fifo q
      → Holds w (fifo ++ (w.bytes m ++ v.text)) (q ++ (m ∷ []))
  put_last fifo q m v nothing =
      subst (λ b. Holds w b (m ∷ [])) (ap (λ b. w.bytes m ++ b) (append-nil v.text))
        (first m v nothing)
  put_last fifo q m v (first {fifo = rest} {q = later} n u held) =
      subst (λ b. Holds w b (n ∷ (later ++ (m ∷ []))))
        (sym (
          append_assoc (w.bytes n) (u.text ++ rest) _
          ∙ ap (λ b. w.bytes n ++ b) (append_assoc u.text rest _)))
        (first n u (put_last rest later m v held))

  -- The first message comes out, and the others are gone when the FIFO is closed.
  pub gets_first :
      (fifo : List ℕ) (q : List Message) (m : Message)
      → Holds w fifo (m ∷ q)
      → get_message w false fifo ≡ some (m, [])
  unfolding get_message
  gets_first fifo q _ (first {fifo = rest} m v held) =
      let e =
        read_message-text w m v.text rest v.fits v.size v.body
        ∙ ap (λ b. some (record m { data_ptr = b }, rest)) (sym v.body) in
      rw (get_message, e) refl

  pub waits : (fifo : List ℕ) → Holds w fifo [] → get_message w false fifo ≡ none
  unfolding get_message read_message
  waits fifo nothing = ground (arith, w.nonempty)

  abbrev pub pipe-IsMailbox : IsMailbox pipe
  pipe-IsMailbox = record {
    Fits = IsWhole;
    Holds = Holds w;
    put_holds = λ fifo q m held v.
        (fifo ++ (w.bytes m ++ v.text), put_whole fifo m v, put_last fifo q m v held);
    get_holds = λ fifo q m held. ([], gets_first fifo q m held, nothing);
    get_empty = waits;
  }
