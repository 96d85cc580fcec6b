-- ===== src/Traceroute/Program/Blind.antt =====
-- A5/Traceroute/main.cc in a process whose id does not fit the 16 bits of an ICMP identifier.
use mathlib.Core.Path.{subst}
use aip_pkussm.Prelude.{
  ℕ, zero, suc, ◌+◌, ◌≤◌, ◌<◌, ◌≡◌, ◌⊎◌, inl, inr, refl, sym, ◌∙◌, ap, Bool, Bool-cases,
  Option-cases, some_inj, some, List, [], ◌∷◌, ◌++◌, drop, length, get_elem?, leb, CString, arith,
}
use aip_pkussm.Traceroute.Hops.{
  Packet, Line, star, average, unknown, Event, timeout, empty, packet, run, turn, is_filled,
  numbered, new_packets, maxhops, broken, crashed,
}
use aip_pkussm.Traceroute.Hops.Outcomes.{big_pid-ignored}
use aip_pkussm.Traceroute.Datagrams.{recv_into, received_of}
use aip_pkussm.Traceroute.Datagrams.Identifiers.{
  AreBytes, AreBytes-append, AreBytes-drop, received_of-low,
}
use aip_pkussm.Traceroute.Program.{
  Network, Request, Answer, Heard, Stop, stopped, heard, wrap_select, wrap_recvfrom, event_of,
  events_before, set_up, are_sent, main,
}

module _ (Double : Type 0) (plus : Double → Double → Double) where
  -- The identifiers of a received packet have 16 bits.
  abbrev HasLowIds : Event Double → Type 0
  HasLowIds timeout = Unit
  HasLowIds empty = Unit
  HasLowIds (packet r) = (r.icmp_id < 65536) × (r.orig_id < 65536)

  abbrev HaveLowIds : List (Event Double) → Type 0
  HaveLowIds [] = Unit
  HaveLowIds (event ∷ events) = HasLowIds event × HaveLowIds events

  abbrev pub AreBytesOf : List (Answer Double plus) → Type 0
  AreBytesOf [] = Unit
  AreBytesOf (a ∷ answers) = AreBytes a.datagram × AreBytesOf answers

  -- What is heard, with the buffer that it leaves.
  abbrev IsLow : Heard Double plus → Type 0
  IsLow (stopped why) = Unit
  IsLow (heard event next) = HasLowIds event × AreBytes next

  event_of-IsLow :
      (buffer : List ℕ) (a : Answer Double plus)
      → AreBytes buffer
      → AreBytes a.datagram
      → IsLow (event_of Double plus buffer a)
  unfolding event_of
  event_of-IsLow buffer a here new = elim (Option-cases (wrap_select a.select)) [
    | inl e ↦ rw (event_of, e) tt
    | inr (zero, e) ↦ rw (event_of, e) (tt, here)
    | inr (suc ready, e) ↦ elim (Option-cases (wrap_recvfrom a.recvfrom)) [
      | inl f ↦ rw (event_of, e, f) tt
      | inr (zero, f) ↦ rw (event_of, e, f) (tt, here)
      | inr (suc n, f) ↦
          let next = recv_into a.datagram buffer in
          let bytes =
            AreBytes-append a.datagram (drop (length a.datagram) buffer) new
              (AreBytes-drop (length a.datagram) buffer here) in
          elim (Option-cases (received_of a.source a.elapsed next)) [
            | inl g ↦ rw (event_of, e, f, g) tt
            | inr (r, g) ↦
                rw (event_of, e, f, g) (received_of-low a.source a.elapsed next r bytes g, bytes)
          ]
    ]
  ]

  Heard-cases :
      (h : Heard Double plus)
      → ((why : Stop) × (h ≡ stopped why))
        ⊎ ((event : Event Double) × (next : List ℕ) × (h ≡ heard event next))
  Heard-cases (stopped why) = inl (why, refl)
  Heard-cases (heard event next) = inr (event, next, refl)

  events_before-low :
      (buffer : List ℕ) (answers : List (Answer Double plus))
      → AreBytes buffer
      → AreBytesOf answers
      → HaveLowIds (events_before Double plus buffer answers).0
  unfolding events_before
  events_before-low buffer [] here new = tt
  events_before-low buffer (a ∷ answers) here (first, new) =
      let low = event_of-IsLow buffer a here first in
      elim (Heard-cases (event_of Double plus buffer a)) [
        | inl (why, e) ↦ rw (events_before, e) tt
        | inr (event, next, e) ↦
            let (ids, bytes) = subst (λ h. IsLow h) e low in
            rw (events_before, e) (ids, events_before-low next answers bytes new)
      ]

  -- A line that says nothing of a hop but its number.
  abbrev pub IsStar : Line Double → Type 0
  IsStar (star ttl) = Unit
  IsStar (average ttl ip time) = ⊥
  IsStar (unknown ttl ip) = ⊥

  abbrev pub AreStars : List (Line Double) → Type 0
  AreStars [] = Unit
  AreStars (line ∷ lines) = IsStar line × AreStars lines

  abbrev NoneCame : List (Packet Double) → Type 0
  NoneCame packets = (i : ℕ) (p : Packet Double) → get_elem? packets i ≡ some p → p.came ≡ 0

  AreStars-append : (xs ys : List (Line Double)) → AreStars xs → AreStars ys → AreStars (xs ++ ys)
  AreStars-append [] ys a b = b
  AreStars-append (x ∷ xs) ys (s, a) b = (s, AreStars-append xs ys a b)

  get_numbered :
      (nought : Double) (unset : Packet Double) (i left : ℕ)
      → unset.came ≡ 0
      → NoneCame (numbered Double plus nought i left ++ (unset ∷ []))
  unfolding numbered
  get_numbered nought unset i zero none_came zero p e =
      ap (λ (q : Packet Double). q.came) (sym (some_inj e)) ∙ none_came
  get_numbered nought unset i zero none_came (suc j) p e = absurd cc
  get_numbered nought unset i (suc left) none_came zero p e =
      ap (λ (q : Packet Double). q.came) (sym (some_inj e))
  get_numbered nought unset i (suc left) none_came (suc j) p e =
      get_numbered nought unset (i + 1) left none_came j p e

  turn-timeout :
      (pid ttl i : ℕ) (packets : List (Packet Double))
      → NoneCame packets
      → (turn Double plus pid ttl packets i timeout ≡ crashed)
        ⊎ (turn Double plus pid ttl packets i timeout ≡ broken (star ttl ∷ []) packets)
  unfolding turn is_filled
  turn-timeout pid ttl i packets none_came = elim (Option-cases (get_elem? packets ttl)) [
    | inl e ↦ inl (ground (arith, e))
    | inr (p, e) ↦ inr (ground (arith, e, none_came ttl p e))
  ]

  run-AreStars :
      (sent : ℕ → Bool) (pid ttl i : ℕ) (packets : List (Packet Double))
      (events : List (Event Double))
      → 65536 ≤ pid
      → NoneCame packets
      → HaveLowIds events
      → AreStars (run Double plus sent pid ttl packets i events).0
  unfolding run
  run-AreStars sent pid ttl i packets [] big none_came low = tt
  run-AreStars sent pid ttl i packets (timeout ∷ events) big none_came (_, low) =
      elim (turn-timeout pid ttl i packets none_came) [
        | inl e ↦ rw (run, e) tt
        | inr e ↦
            let rest = run-AreStars sent pid (ttl + 1) 0 packets events big none_came low in
            elim (Bool-cases (leb maxhops ttl)) [
              | inl f ↦ rw (run, e, f) (tt, tt)
              | inr f ↦ elim (Bool-cases (sent (ttl + 1))) [
                | inl g ↦ rw (run, e, f, g) (tt, rest)
                | inr g ↦ rw (run, e, f, g) (tt, tt)
              ]
            ]
      ]
  run-AreStars sent pid ttl i packets (empty ∷ events) big none_came (_, low) =
      let rest = run-AreStars sent pid (ttl + 1) 0 packets events big none_came low in
      elim (Bool-cases (leb maxhops ttl)) [
        | inl f ↦ rw (run, turn, f) tt
        | inr f ↦ elim (Bool-cases (sent (ttl + 1))) [
          | inl g ↦ rw (run, turn, f, g) rest
          | inr g ↦ rw (run, turn, f, g) tt
        ]
      ]
  run-AreStars sent pid ttl i packets (packet r ∷ events) big none_came ((id, orig), low) =
      rw (run, turn, big_pid-ignored Double plus pid ttl packets [] i r big id orig)
        (run-AreStars sent pid ttl i packets events big none_came low)

  -- With a process id of 65536 or more the program prints no line for a hop but stars, whatever the
  -- set-up and the calls of `select` and `recvfrom` answer, as long as the datagrams and the buffer
  -- hold bytes, and the memory behind the last packet does not count an answer that has come.
  pub big_pid-blind :
      (net : Network) (args : List CString) (pid : ℕ) (nought : Double) (unset : Packet Double)
      (requests : ℕ → Request × Request × Request) (buffer : List ℕ)
      (answers : List (Answer Double plus))
      → 65536 ≤ pid
      → unset.came ≡ 0
      → AreBytes buffer
      → AreBytesOf answers
      → AreStars (main Double plus net args pid nought unset requests buffer answers).1
  unfolding main new_packets
  big_pid-blind net args pid nought unset requests buffer answers big none_came here new =
      elim (Option-cases (set_up net args)) [
        | inl e ↦ rw (main, e) tt
        | inr ((address, p), e) ↦ elim (Bool-cases (are_sent requests 1)) [
          | inl f ↦
              rw (main, e, f)
                (run-AreStars (are_sent requests) pid 1 0 (new_packets Double plus nought unset)
                  (events_before Double plus buffer answers).0 big
                  (get_numbered nought unset 0 maxhops none_came)
                  (events_before-low buffer answers here new))
          | inr f ↦ rw (main, e, f) tt
        ]
      ]
