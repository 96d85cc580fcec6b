-- ===== src/Chat/Room/Order.antt =====
-- What is sent, in whatever order the threads and the dispatcher take their turns.
use mathlib.Core.List.{map-append}
use mathlib.Core.Path.{subst}
use aip_pkussm.Prelude.{
  update, ℕ, ◌≡◌, ◌≢◌, ◌==◌, refl, sym, ◌∙◌, ap, some, inl, inr, ℕ-cases, update_self, update_other,
  List, [], ◌∷◌, ◌++◌, append-nil, append_assoc, map, ℤ, if◌then◌else◌, arith,
}
use aip_pkussm.Net.{Socket, Feeds}
use aip_pkussm.Host.{Disk}
use aip_pkussm.Chat.{Layout}
use aip_pkussm.Chat.Users.{User, Cmsg}
use aip_pkussm.Chat.Users.Table.{IsStray}
use aip_pkussm.Chat.Dispatch.{Send}
use aip_pkussm.Chat.Client.{Me}
use aip_pkussm.Chat.Server.{Leftover}
use aip_pkussm.Chat.Session.{IsUser}
use aip_pkussm.Chat.Texts.{Text, AreFor, bytes_of, all_bytes, sends_for}
use aip_pkussm.Chat.Room.{Server, process_of, worked}

-- A text with the number of the client that says it.
abbrev pub Tagged : Type 0
Tagged = ℕ × Text

abbrev pub text_of : Tagged → Text
text_of x = x.1

-- What has become of a text that left the pipe: the dispatcher has it, or it was discarded.
pub data Gone : Type 0 where
  taken lost : Tagged → Gone

abbrev pub gone_text : Gone → Tagged
gone_text (taken x) = x
gone_text (lost x) = x

-- No text is lost in front of all that the dispatcher has.
abbrev pub IsLed : List Gone → Type 0
IsLed [] = Unit
IsLed (taken x ∷ log) = Unit
IsLed (lost x ∷ log) = ⊥

pub IsLed-append :
    (log : List Gone) (x : Tagged) (more : List Gone) → IsLed log → IsLed (log ++ (taken x ∷ more))
IsLed-append [] x more led = tt
IsLed-append (taken y ∷ log) x more led = tt
IsLed-append (lost y ∷ log) x more led = elim led [ ]

-- Those that the dispatcher has.
unfoldable pub taken_of : List Gone → List Tagged
taken_of [] = []
taken_of (taken x ∷ log) = x ∷ taken_of log
taken_of (lost x ∷ log) = taken_of log

pub taken_of-append : (xs ys : List Gone) → taken_of (xs ++ ys) ≡ taken_of xs ++ taken_of ys
unfolding taken_of
taken_of-append [] ys = refl
taken_of-append (taken x ∷ xs) ys = ap (λ l. x ∷ l) (taken_of-append xs ys)
taken_of-append (lost x ∷ xs) ys = taken_of-append xs ys

pub taken_of-lost : (xs : List Tagged) → taken_of (map lost xs) ≡ []
unfolding taken_of
taken_of-lost [] = refl
taken_of-lost (x ∷ xs) = taken_of-lost xs

pub gone_lost : (xs : List Tagged) → map gone_text (map lost xs) ≡ xs
gone_lost [] = refl
gone_lost (x ∷ xs) = ap (λ l. x ∷ l) (gone_lost xs)

-- The texts of one client, in order.
unfoldable pub said_by : ℕ → List Tagged → List Text
said_by i [] = []
said_by i ((j, t) ∷ texts) = if i == j then t ∷ said_by i texts else said_by i texts

pub said_by-append :
    (i : ℕ) (xs ys : List Tagged) → said_by i (xs ++ ys) ≡ said_by i xs ++ said_by i ys
unfolding said_by
said_by-append i [] ys = refl
said_by-append i ((j, t) ∷ xs) ys = ground (arith, said_by-append i xs ys)

-- A text behind the others, and what its client has not said yet.
said_by-last :
    (i : ℕ) (t : Text) (xs : List Tagged) (ts : List Text)
    → said_by i (xs ++ ((i, t) ∷ [])) ++ ts ≡ said_by i xs ++ (t ∷ ts)
unfolding said_by
said_by-last i t xs ts =
    ap (λ l. l ++ ts) (said_by-append i xs ((i, t) ∷ []))
    ∙ ground (arith, append_assoc (said_by i xs) (t ∷ []) ts)

said_by-other :
    (i j : ℕ) (t : Text) (xs : List Tagged) → i ≢ j → said_by j (xs ++ ((i, t) ∷ [])) ≡ said_by j xs
unfolding said_by
said_by-other i j t xs h =
    said_by-append j xs ((i, t) ∷ []) ∙ ground (arith, append-nil (said_by j xs))

-- What the dispatcher has are texts that go through, as all are.
pub AreFor-taken :
    (users : List User) (log : List Gone)
    → AreFor users (map text_of (map gone_text log))
    → AreFor users (map text_of (taken_of log))
unfolding taken_of
AreFor-taken users [] v = tt
AreFor-taken users (taken x ∷ log) v = (v.0, v.1, v.2, v.3, v.4, AreFor-taken users log v.5)
AreFor-taken users (lost x ∷ log) v = AreFor-taken users log v.5

pub AreFor-front :
    (users : List User) (xs ys : List Text) → AreFor users (xs ++ ys) → AreFor users xs
AreFor-front users [] ys v = tt
AreFor-front users (t ∷ xs) ys v = (v.0, v.1, v.2, v.3, v.4, AreFor-front users xs ys v.5)

pub AreFor-back :
    (users : List User) (xs ys : List Text) → AreFor users (xs ++ ys) → AreFor users ys
AreFor-back users [] ys v = v
AreFor-back users (t ∷ xs) ys v = AreFor-back users xs ys v.5

pub AreFor-append :
    (users : List User) (xs ys : List Text)
    → AreFor users xs
    → AreFor users ys
    → AreFor users (xs ++ ys)
AreFor-append users [] ys v v' = v'
AreFor-append users (t ∷ xs) ys v v' = (v.0, v.1, v.2, v.3, v.4, AreFor-append users xs ys v.5 v')

module _ (w : Layout) (me : ℕ → Me) where
  -- The bytes of texts in the pipe.
  unfoldable pub queued : List Tagged → List ℕ
  queued [] = []
  queued ((i, t) ∷ texts) = bytes_of w (me i) t ++ queued texts

  -- One send for each text, to the connection that the table has for its id.
  unfoldable pub sends_of : List User → List Tagged → List Send
  sends_of users [] = []
  sends_of users ((i, t) ∷ texts) = sends_for w (me i) users (t ∷ []) ++ sends_of users texts

  queued-append : (xs ys : List Tagged) → queued (xs ++ ys) ≡ queued xs ++ queued ys
  unfolding queued
  queued-append [] ys = refl
  queued-append ((i, t) ∷ xs) ys =
      ap (λ l. bytes_of w (me i) t ++ l) (queued-append xs ys)
      ∙ sym (append_assoc (bytes_of w (me i) t) (queued xs) (queued ys))

  pub sends_of-append :
      (users : List User) (xs ys : List Tagged)
      → sends_of users (xs ++ ys) ≡ sends_of users xs ++ sends_of users ys
  unfolding sends_of
  sends_of-append users [] ys = refl
  sends_of-append users ((i, t) ∷ xs) ys =
      ap (λ l. sends_for w (me i) users (t ∷ []) ++ l) (sends_of-append users xs ys)
      ∙ sym
          (append_assoc (sends_for w (me i) users (t ∷ [])) (sends_of users xs) (sends_of users ys))

module _ (k : Socket) (f : Feeds k) (d : Disk) (w : Layout) (c : Cmsg) (left : Leftover)
    (connfds : ℕ → ℤ) (me : ℕ → Me) (texts : ℕ → List Text) (users : List User) where
  -- The texts of each client are, in order: those that left the pipe, those in the pipe, and those
  -- that its thread has not read. What was sent is one send for each text that the dispatcher took,
  -- and nothing else; of those that left the pipe it took at least the first.
  pub record Conserves (s : Server k d w c left connfds) : Type 0 where
    pub log : List Gone
    pub queue : List Tagged
    pub unread : ℕ → List Text
    pub sent : s.sends ≡ sends_of w me users (taken_of log)
    pub in_pipe : s.fifo ≡ queued w me queue
    pub pending : (i : ℕ) → f.pending (s.links i) ≡ all_bytes w (me i) (unread i)
    pub same_users : s.users ≡ users
    pub in_order :
        (i : ℕ) → said_by i (map gone_text log) ++ (said_by i queue ++ unread i) ≡ texts i
    pub led : IsLed log
    pub log_known : AreFor users (map text_of (map gone_text log))
    pub queue_known : AreFor users (map text_of queue)
    pub unread_known : (i : ℕ) → AreFor users (unread i)

  module _ (member : (i : ℕ) → IsUser (me i)) (stray : IsStray c left.stack)
      (over : (s : k.State) (n : ℕ) → f.pending s ≡ [] → (k.recv s n).0 ≡ some []) where
    -- A thread that handles a text moves it from what is unread to the end of the pipe.
    pub reads :
        (s : Server k d w c left connfds) (v : Conserves s) (i : ℕ) (t : Text) (ts : List Text)
        (u : k.State)
        → v.unread i ≡ t ∷ ts
        → f.pending u ≡ all_bytes w (me i) ts
        → Conserves (
            worked k d w c left connfds s i (record (process_of k d w c left connfds s i) {
              host = record { link = u; files = s.files };
              fifo = s.fifo ++ bytes_of w (me i) t;
            }))
    unfolding queued
    reads s v i t ts u first rest =
        let known : AreFor users (t ∷ ts) = subst (AreFor users) first (v.unread_known i) in
        record {
          log = v.log;
          queue = v.queue ++ ((i, t) ∷ []);
          unread = update v.unread i ts;
          sent = v.sent;
          in_pipe =
              ap (λ l. l ++ bytes_of w (me i) t) v.in_pipe
              ∙ sym (
                  queued-append w me v.queue ((i, t) ∷ [])
                  ∙ ap (λ l. queued w me v.queue ++ l) (append-nil (bytes_of w (me i) t)));
          pending = λ j. elim (ℕ-cases i j) [
            | inl e ↦ rw (← e) (
                ap f.pending (update_self s.links i u)
                ∙ rest
                ∙ ap (all_bytes w (me i)) (sym (update_self v.unread i ts)))
            | inr h ↦
                ap f.pending (update_other s.links i j u h)
                ∙ v.pending j
                ∙ ap (all_bytes w (me j)) (sym (update_other v.unread i j ts h))
          ];
          same_users = v.same_users;
          in_order = λ j. elim (ℕ-cases i j) [
            | inl e ↦ rw (← e) (
                ap
                  (λ l.
                    said_by i (map gone_text v.log) ++ (said_by i (v.queue ++ ((i, t) ∷ [])) ++ l))
                  (update_self v.unread i ts)
                ∙ ap (λ l. said_by i (map gone_text v.log) ++ l)
                    (said_by-last i t v.queue ts ∙ ap (λ l. said_by i v.queue ++ l) (sym first))
                ∙ v.in_order i)
            | inr h ↦
                ap
                  (λ l.
                    said_by j (map gone_text v.log) ++ (said_by j (v.queue ++ ((i, t) ∷ [])) ++ l))
                  (update_other v.unread i j ts h)
                ∙ ap (λ l. said_by j (map gone_text v.log) ++ (l ++ v.unread j))
                    (said_by-other i j t v.queue h)
                ∙ v.in_order j
          ];
          led = v.led;
          log_known = v.log_known;
          queue_known = rw (map-append text_of v.queue ((i, t) ∷ [])) (
              AreFor-append users (map text_of v.queue) (t ∷ []) v.queue_known
                (known.0, known.1, known.2, known.3, known.4, tt));
          unread_known = λ j. elim (ℕ-cases i j) [
            | inl e ↦ rw (← e) (rw (update_self v.unread i ts) known.5)
            | inr h ↦ rw (update_other v.unread i j ts h) (v.unread_known j)
          ];
        }
