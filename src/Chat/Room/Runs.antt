-- ===== src/Chat/Room/Runs.antt =====
-- Every run of the server keeps the order of what each client says.
use mathlib.Core.List.{map-append}
use mathlib.Core.Path.{subst}
use aip_pkussm.Prelude.{
  ℕ, ◌≡◌, refl, sym, ◌∙◌, ap, Bool, true, false, some, Option-cases, List-cases, some_inj, inl, inr,
  List, [], ◌∷◌, ◌++◌, append-nil, append_assoc, map, ℤ,
}
use aip_pkussm.Net.{Socket, ok, Feeds}
use aip_pkussm.Host.{Disk}
use aip_pkussm.Chat.{Layout}
use aip_pkussm.Chat.Users.{User, Cmsg}
use aip_pkussm.Chat.Users.Table.{IsStray, fd_of}
use aip_pkussm.Chat.Dispatch.{Send, loop_dispatch}
use aip_pkussm.Chat.Client.{Me}
use aip_pkussm.Chat.Pipe.{close_fifo}
use aip_pkussm.Chat.Server.{Leftover, Process, registered, clithread}
use aip_pkussm.Chat.Session.{IsUser, state_eq}
use aip_pkussm.Chat.Texts.{Text, AreFor, bytes_of, all_bytes, sends_for}
use aip_pkussm.Chat.Texts.Served.{thread_step, dispatch_step, dispatch_nothing}
use aip_pkussm.Chat.Texts.Ended.{thread_end}
use aip_pkussm.Chat.Room.{Server, process_of, worked, Step, handles, dispatches, Reach, here, next}
use aip_pkussm.Chat.Room.Order.{
  Tagged, text_of, Gone, IsLed-append, taken, lost, gone_text, gone_lost, taken_of, taken_of-append,
  taken_of-lost, AreFor-front, AreFor-back, said_by, said_by-append, queued, sends_of,
  sends_of-append, Conserves, reads, AreFor-append,
}

-- Texts that go from the front of the pipe to those that left it.
said_by-moved :
    (j : ℕ) (moved done rest : List Tagged) (ts : List Text)
    → said_by j (done ++ moved) ++ (said_by j rest ++ ts)
      ≡ said_by j done ++ (said_by j (moved ++ rest) ++ ts)
said_by-moved j moved done rest ts =
    ap (λ l. l ++ (said_by j rest ++ ts)) (said_by-append j done moved)
    ∙ append_assoc (said_by j done) (said_by j moved) (said_by j rest ++ ts)
    ∙ ap (λ l. said_by j done ++ l)
        (sym (append_assoc (said_by j moved) (said_by j rest) ts)
          ∙ ap (λ l. l ++ ts) (sym (said_by-append j moved rest)))

-- What a log says when a text is taken and others are lost.
log_taken :
    (log : List Gone) (x : Tagged) (gone : List Tagged)
    → map gone_text (log ++ (taken x ∷ map lost gone)) ≡ map gone_text log ++ (x ∷ gone)
log_taken log x gone =
    map-append gone_text log (taken x ∷ map lost gone)
    ∙ ap (λ l. map gone_text log ++ (x ∷ l)) (gone_lost gone)

taken_one :
    (log : List Gone) (x : Tagged) (gone : List Tagged)
    → taken_of (log ++ (taken x ∷ map lost gone)) ≡ taken_of log ++ (x ∷ [])
unfolding taken_of
taken_one log x gone =
    taken_of-append log (taken x ∷ map lost gone)
    ∙ ap (λ l. taken_of log ++ (x ∷ l)) (taken_of-lost gone)

module _ (k : Socket) (f : Feeds k) (d : Disk) (w : Layout) (c : Cmsg) (left : Leftover)
    (connfds : ℕ → ℤ) (me : ℕ → Me) (texts : ℕ → List Text) (users : List User)
    (member : (i : ℕ) → IsUser (me i)) (stray : IsStray c left.stack)
    (over : (s : k.State) (n : ℕ) → f.pending s ≡ [] → (k.recv s n).0 ≡ some []) where
  abbrev Good : Server k d w c left connfds → Type 0
  Good s = Conserves k f d w c left connfds me texts users s

  -- What the dispatcher leaves of a server.
  abbrev left_by :
      Server k d w c left connfds → List Send × List ℕ × List User → Server k d w c left connfds
  left_by s (sends, fifo, table) = record s { users = table; fifo = fifo; sends = s.sends ++ sends }

  -- The dispatcher takes the first text of the pipe, and others behind it may be lost.
  sends_first :
      (s : Server k d w c left connfds) (v : Good s) (i : ℕ) (t : Text) (gone kept : List Tagged)
      → v.queue ≡ (i, t) ∷ (gone ++ kept)
      → Good (left_by s (sends_for w (me i) users (t ∷ []), queued w me kept, users))
  unfolding sends_of
  sends_first s v i t gone kept first =
      let known : AreFor users (t ∷ map text_of (gone ++ kept)) =
        subst (λ q. AreFor users (map text_of q)) first v.queue_known in
      let split : AreFor users (map text_of gone ++ map text_of kept) =
        subst (AreFor users) (map-append text_of gone kept) known.5 in
      let front = AreFor-front users (map text_of gone) (map text_of kept) split in
      let one : AreFor users (t ∷ map text_of gone) =
        (known.0, known.1, known.2, known.3, known.4, front) in
      record {
        log = v.log ++ (taken (i, t) ∷ map lost gone);
        queue = kept;
        unread = v.unread;
        sent =
            ap (λ l. l ++ sends_for w (me i) users (t ∷ [])) v.sent
            ∙ sym (
                ap (sends_of w me users) (taken_one v.log (i, t) gone)
                ∙ sends_of-append w me users (taken_of v.log) ((i, t) ∷ [])
                ∙ ap (λ l. sends_of w me users (taken_of v.log) ++ l)
                    (append-nil (sends_for w (me i) users (t ∷ []))));
        in_pipe = refl;
        pending = v.pending;
        same_users = refl;
        in_order = λ j.
            ap (λ l. said_by j l ++ (said_by j kept ++ v.unread j)) (log_taken v.log (i, t) gone)
            ∙ said_by-moved j ((i, t) ∷ gone) (map gone_text v.log) kept (v.unread j)
            ∙ ap (λ q. said_by j (map gone_text v.log) ++ (said_by j q ++ v.unread j)) (sym first)
            ∙ v.in_order j;
        led = IsLed-append v.log (i, t) (map lost gone) v.led;
        log_known =
            subst (λ l. AreFor users (map text_of l)) (sym (log_taken v.log (i, t) gone))
              (subst (AreFor users) (sym (map-append text_of (map gone_text v.log) ((i, t) ∷ gone)))
                (AreFor-append users (map text_of (map gone_text v.log)) (t ∷ map text_of gone)
                  v.log_known one));
        queue_known = AreFor-back users (map text_of gone) (map text_of kept) split;
        unread_known = v.unread_known;
      }

  -- One turn of the dispatcher with a text in the pipe.
  dispatched :
      (s : Server k d w c left connfds) (v : Good s) (i : ℕ) (t : Text) (rest : List Tagged)
      (held : Bool)
      → v.queue ≡ (i, t) ∷ rest
      → loop_dispatch c left.stack w (λ n. held) 1 s.fifo s.users
        ≡ some (sends_for w (me i) users (t ∷ []), close_fifo w held (queued w me rest), users)
  unfolding queued loop_dispatch sends_for
  dispatched s v i t rest held first =
      let known : AreFor users (t ∷ map text_of rest) =
        subst (λ q. AreFor users (map text_of q)) first v.queue_known in
      let bytes : s.fifo ≡ bytes_of w (me i) t ++ queued w me rest =
        v.in_pipe ∙ ap (queued w me) first in
      elim (Option-cases (fd_of users t.id)) [
        | inl e ↦ absurd (known.4 e)
        | inr (fd, e) ↦
            rw (bytes, v.same_users)
              (dispatch_step w c left.stack (me i) (member i) stray users (λ n. held) t
                  (queued w me rest) 0 fd known.1 known.2 known.3 e
                ∙ rw (sends_for, e) refl)
      ]

  -- A turn with a text in the pipe, that leaves the others there or discards them.
  first_taken :
      (s : Server k d w c left connfds) (v : Good s) (i : ℕ) (t : Text) (rest : List Tagged)
      (held : Bool)
      → v.queue ≡ (i, t) ∷ rest
      → Good (
          left_by s
            (sends_for w (me i) users (t ∷ []), close_fifo w held (queued w me rest), users))
  unfolding queued
  first_taken s v i t rest true first = sends_first s v i t [] rest first
  first_taken s v i t rest false first =
      sends_first s v i t rest [] (first ∙ ap (λ l. (i, t) ∷ l) (sym (append-nil rest)))

  turn_kept :
      (s : Server k d w c left connfds) (v : Good s) (i : ℕ) (q : Process k d)
      → clithread k d w c left registered (connfds i) 1 (process_of k d w c left connfds s i)
        ≡ ok true q
      → Good (worked k d w c left connfds s i q)
  unfolding clithread
  turn_kept s v i q e =
      let p = process_of k d w c left connfds s i in
      elim (List-cases (v.unread i)) [
        | inl nothing ↦
            let (r, ended, same_fifo, same_users) =
              thread_end k f d w c left (connfds i) p
                (v.pending i ∙ ap (all_bytes w (me i)) nothing) over in
            absurd cc
        | inr (t, ts, first) ↦
            let known : AreFor users (t ∷ ts) = subst (AreFor users) first (v.unread_known i) in
            let (u, turn, rest) =
              thread_step k f d w c left (connfds i) (me i) (member i) t (all_bytes w (me i) ts) p 0
                known.0 known.1 known.2 refl (v.pending i ∙ ap (all_bytes w (me i)) first) in
            subst (λ x. Good (worked k d w c left connfds s i x)) (state_eq (sym turn ∙ e))
              (reads k f d w c left connfds me texts users member stray over s v i t ts u first
                rest)
      ]

  dispatch_kept :
      (s : Server k d w c left connfds) (v : Good s) (held : Bool)
      (result : List Send × List ℕ × List User)
      → loop_dispatch c left.stack w (λ n. held) 1 s.fifo s.users ≡ some result
      → Good (left_by s result)
  unfolding queued
  dispatch_kept s v held result e = elim (List-cases v.queue) [
    | inl nothing ↦
        let bytes : s.fifo ≡ [] = v.in_pipe ∙ ap (queued w me) nothing in
        let same : result ≡ ([], [], s.users) = some_inj (
          sym e
          ∙ ap (λ x. loop_dispatch c left.stack w (λ n. held) 1 x s.users) bytes
          ∙ dispatch_nothing c left.stack w (λ n. held) s.users) in
        subst (λ x. Good (left_by s x)) (sym same)
          (record {
            log = v.log;
            queue = v.queue;
            unread = v.unread;
            sent = append-nil s.sends ∙ v.sent;
            in_pipe = sym (ap (queued w me) nothing);
            pending = v.pending;
            same_users = v.same_users;
            in_order = v.in_order;
            led = v.led;
            log_known = v.log_known;
            queue_known = v.queue_known;
            unread_known = v.unread_known;
          })
    | inr ((i, t), rest, first) ↦
        subst (λ x. Good (left_by s x)) (some_inj (sym (dispatched s v i t rest held first) ∙ e))
          (first_taken s v i t rest held first)
  ]

  Step-Conserves :
      {s t : Server k d w c left connfds} → Step k d w c left connfds s t → Good s → Good t
  Step-Conserves {s = s} (handles i q e) v = turn_kept s v i q e
  Step-Conserves {s = s} (dispatches held sends fifo table e) v =
      dispatch_kept s v held (sends, fifo, table) e

  -- In every order of the turns, from a start with an empty pipe where each client's thread is handed
  -- the bytes of its texts (each of 1 to 511 bytes and for an id other than 0 of which the table has
  -- a connection), at whose end its connection closes, and where the control block on the stack does
  -- not look like one with a descriptor: the texts of each client are, in its order and each once,
  -- those that left the pipe, those in the pipe, and those that its thread has not read. Of those
  -- that left the pipe the dispatcher took the first and some others, and the rest were discarded;
  -- what it has sent is one send for each text that it took, to the connection that the table has
  -- for its id, and nothing else. The table is as it was.
  pub Reach-Conserves :
      (s t : Server k d w c left connfds)
      → s.sends ≡ []
      → s.fifo ≡ []
      → s.users ≡ users
      → ((i : ℕ) → f.pending (s.links i) ≡ all_bytes w (me i) (texts i))
      → ((i : ℕ) → AreFor users (texts i))
      → Reach k d w c left connfds s t
      → Good t
  unfolding sends_of queued said_by taken_of
  Reach-Conserves s t none_sent empty same heard known r = kept r
    where
      start : Good s
      start = record {
        log = [];
        queue = [];
        unread = texts;
        sent = none_sent;
        in_pipe = empty;
        pending = heard;
        same_users = same;
        in_order = λ i. refl;
        led = tt;
        log_known = tt;
        queue_known = tt;
        unread_known = known;
      }

      kept : {u : Server k d w c left connfds} → Reach k d w c left connfds s u → Good u
      kept here = start
      kept (next q st) = Step-Conserves st (kept q)
