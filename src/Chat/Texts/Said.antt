-- ===== src/Chat/Texts/Said.antt =====
-- What the console of a client sends for lines of input.
use aip_pkussm.Prelude.{
  ℕ, ◌^◌, ◌%◌, ◌≡◌, refl, sym, ◌∙◌, ap, List, [], ◌∷◌, ◌++◌, append-nil, append_assoc, CString,
  codes, pos, arith, str_eq,
}
use aip_pkussm.Net.{Socket, ok, Delivers}
use aip_pkussm.Transfer.Send.{send-ok}
use aip_pkussm.Host.{Disk, Host}
use aip_pkussm.Chat.{Message, Layout}
use aip_pkussm.Chat.Client.{Me, comm_sendmsg}
use aip_pkussm.Chat.Console.{
  Action, run_quit, run_send, actions, run_actions, value_of, read_word, skip_space, span,
  command_of,
}
use aip_pkussm.Chat.Console.Input.{IsText, IsNumber, line_of, actions-send}
use aip_pkussm.Chat.Texts.{Text, bytes_of, all_bytes}
use aip_pkussm.Chat.Texts.Served.{rounds_for}

-- A line `send <digits><content>` of the input.
pub record Line : Type 0 where
  pub digits : List ℕ
  pub content : CString
  pub is_number : IsNumber digits
  pub is_text : IsText content

abbrev pub text_of : Line → Text
text_of l = record { id = value_of l.digits 0; content = l.content }

abbrev pub texts_of : List Line → List Text
texts_of [] = []
texts_of (l ∷ lines) = text_of l ∷ texts_of lines

-- The lines, and `quit` behind them.
abbrev pub input_of : List Line → List ℕ
input_of [] = codes "quit"
input_of (l ∷ lines) = line_of l.digits l.content (input_of lines)

abbrev actions_of : List Line → List Action
actions_of [] = run_quit ∷ []
actions_of (l ∷ lines) = run_send (pos (value_of l.digits 0)) l.content ∷ actions_of lines

actions-lines :
    (lines : List Line)
    → actions (rounds_for (texts_of lines) 1) (input_of lines) ≡ actions_of lines
unfolding actions read_word skip_space span command_of str_eq
actions-lines [] = refl
actions-lines (l ∷ lines) =
    actions-send l.digits l.content (input_of lines) (rounds_for (texts_of lines) 1) l.is_number
      l.is_text
    ∙ ap (λ rest. run_send (pos (value_of l.digits 0)) l.content ∷ rest) (actions-lines lines)

module _ (k : Socket) (out : Delivers k) (d : Disk) (w : Layout) (msg : Message) (me : Me) where
  open out use {sent, grows}

  said :
      (lines : List Line) (h : Host k d)
      → (s : k.State) × (run_actions k d w msg me (actions_of lines) h
          ≡ ok tt (record h { link = s }))
        × (sent s ≡ sent h.link ++ all_bytes w me (texts_of lines))
  unfolding run_actions comm_sendmsg
  said [] h = (h.link, refl, sym (append-nil (sent h.link)))
  said (l ∷ lines) h =
      let bytes = bytes_of w me (text_of l) in
      let s1 = (k.send h.link bytes).1 in
      let (s, e, g) = said lines (record h { link = s1 }) in
      let small : value_of l.digits 0 % 2 ^ 32 ≡ value_of l.digits 0 =
        omega (arith, l.is_number.small) in
      (
        s,
        ground (arith, small, send-ok k out bytes h.link, e),
        g
            ∙ ap (λ x. x ++ all_bytes w me (texts_of lines)) (grows h.link bytes)
            ∙ append_assoc (sent h.link) bytes (all_bytes w me (texts_of lines)),
      )

  -- A console that reads lines `send <digits><content>`, each with the digits of an `int` and a text
  -- of at most 511 bytes that starts with no digit, and then `quit`, sends the message and the text
  -- of each line, in order and nothing else, and ends.
  pub console-says :
      (lines : List Line) (h : Host k d)
      → (s : k.State) × (run_actions k d w msg me
            (actions (rounds_for (texts_of lines) 1) (input_of lines))
            h
          ≡ ok tt (record h { link = s }))
        × (sent s ≡ sent h.link ++ all_bytes w me (texts_of lines))
  console-says lines h = rw (actions-lines lines) (said lines h)
