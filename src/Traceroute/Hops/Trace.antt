-- ===== src/Traceroute/Hops/Trace.antt =====
-- Whole traces: hop after hop, up to the host that answers the echo request itself.
use aip_pkussm.Prelude.{
  Bool, true, ℕ, zero, suc, ◌+◌, ◌<◌, ◌≤◌, ◌≡◌, refl, ◌∙◌, some, List, [], ◌∷◌, ◌++◌, length,
  get_elem?, set, get_elem?-set_self, length-set, CString, arith, if◌then◌else◌,
}
use aip_pkussm.Traceroute.Hops.{
  Packet, Line, average, Received, Event, packet, again, exited, finished, sign_new, set_ip,
  is_full, print, process_packet, receive, turn, run, numbered, new_packets, icmp_echoreply,
}
use aip_pkussm.Traceroute.Hops.Replies.{IsReply, probed, reply-again, reply-first, run-again}
use aip_pkussm.Traceroute.Hops.Outcomes.{hop_answered}

-- The three replies of a hop, from one address, and the time that counts for each.
pub record Hop (Double : Type 0) : Type 0 where
  pub source : CString
  pub reply1 : Received Double
  pub reply2 : Received Double
  pub reply3 : Received Double
  pub time1 : Double
  pub time2 : Double
  pub time3 : Double

get_elem?-lt {ℓ} :
    {A : Type ℓ} (xs : List A) (i : ℕ) (x : A) → get_elem? xs i ≡ some x → i < length xs
get_elem?-lt [] i x h = cc
get_elem?-lt (y ∷ xs) zero x h = omega arith
get_elem?-lt (y ∷ xs) (suc i) x h = omega (arith, get_elem?-lt xs i x h)

module _ (Double : Type 0) (plus : Double → Double → Double) (pid : ℕ) where
  -- An answer to the echo request itself.
  pub record IsEcho (ttl : ℕ) (r : Received Double) : Type 0 where
    pub echo : r.icmp_type ≡ icmp_echoreply
    pub ours : r.icmp_id ≡ pid
    pub hop : r.icmp_seq ≡ ttl

  -- What the replies of a hop have in common: the address, and the i-th one's time since the i-th
  -- request.
  pub record IsTimed (h : Hop Double) : Type 0 where
    pub from1 : h.reply1.source ≡ h.source
    pub from2 : h.reply2.source ≡ h.source
    pub from3 : h.reply3.source ≡ h.source
    pub timed1 : get_elem? h.reply1.elapsed 0 ≡ some h.time1
    pub timed2 : get_elem? h.reply2.elapsed 1 ≡ some h.time2
    pub timed3 : get_elem? h.reply3.elapsed 2 ≡ some h.time3

  -- The routers of the hops from `ttl` on.
  abbrev pub AreRouters : ℕ → List (Hop Double) → Type 0
  AreRouters ttl [] = Unit
  AreRouters ttl (h ∷ hops) =
      IsTimed h
      × IsReply Double plus pid ttl ttl h.reply1
      × IsReply Double plus pid ttl ttl h.reply2
      × IsReply Double plus pid ttl ttl h.reply3
      × AreRouters (ttl + 1) hops

  abbrev pub IsTarget : ℕ → Hop Double → Type 0
  IsTarget ttl h = IsTimed h × IsEcho ttl h.reply1 × IsEcho ttl h.reply2 × IsEcho ttl h.reply3

  abbrev pub events_of : List (Hop Double) → List (Event Double) → List (Event Double)
  events_of [] later = later
  events_of (h ∷ hops) later =
      packet h.reply1 ∷ packet h.reply2 ∷ packet h.reply3 ∷ events_of hops later

  abbrev pub line_of : Double → ℕ → Hop Double → Line Double
  line_of nought ttl h = average ttl h.source (plus (plus (plus nought h.time1) h.time2) h.time3)

  abbrev pub lines_of : Double → ℕ → List (Hop Double) → List (Line Double)
  lines_of nought ttl [] = []
  lines_of nought ttl (h ∷ hops) = line_of nought ttl h ∷ lines_of nought (ttl + 1) hops

  receive-echo :
      (ttl : ℕ) (packets : List (Packet Double)) (i : ℕ) (r : Received Double) (p : Packet Double)
      (e : Double)
      → IsEcho ttl r
      → get_elem? packets ttl ≡ some p
      → get_elem? r.elapsed i ≡ some e
      → receive Double plus pid ttl packets i r ≡ (
          let pac = sign_new Double plus e (set_ip Double plus r.source p) in
          if is_full Double plus pac
          then exited (print Double plus pac)
          else again (set packets ttl pac) (i + 1))
  unfolding receive process_packet
  receive-echo ttl packets i r p e v there timed = ground (arith, v.echo, v.ours, v.hop)

  module _ (ttl : ℕ) (packets : List (Packet Double)) (i : ℕ) (r : Received Double)
      (source old : CString) (time e : Double) (v : IsEcho ttl r) (from : r.source ≡ source)
      (signed : sign_new Double plus e
          (set_ip Double plus source (probed Double plus pid ttl old time i))
        ≡ probed Double plus pid ttl source (plus time e) (i + 1))
      (there : get_elem? packets ttl ≡ some (probed Double plus pid ttl old time i))
      (timed : get_elem? r.elapsed i ≡ some e) where
    pac_eq :
        sign_new Double plus e (set_ip Double plus r.source (probed Double plus pid ttl old time i))
        ≡ probed Double plus pid ttl source (plus time e) (i + 1)
    pac_eq = rw from signed

    echo-counted :
        i < 2
        → receive Double plus pid ttl packets i r
          ≡ again
              (set packets ttl (probed Double plus pid ttl source (plus time e) (i + 1)))
              (i + 1)
    unfolding is_full probed
    echo-counted few =
        receive-echo ttl packets i r (probed Double plus pid ttl old time i) e v there timed
        ∙ rw pac_eq (ground arith)

    echo-full :
        i ≡ 2 → receive Double plus pid ttl packets i r ≡ exited (average ttl source (plus time e))
    unfolding is_full print probed
    echo-full last =
        receive-echo ttl packets i r (probed Double plus pid ttl old time i) e v there timed
        ∙ rw pac_eq (ground arith)

  run-exited :
      (sent : ℕ → Bool) (ttl : ℕ) (packets : List (Packet Double)) (i : ℕ) (r : Received Double)
      (line : Line Double) (events : List (Event Double))
      → receive Double plus pid ttl packets i r ≡ exited line
      → run Double plus sent pid ttl packets i (packet r ∷ events) ≡ (line ∷ [], finished)
  unfolding run turn
  run-exited sent ttl packets i r line events e = ground (arith, e)

  -- The target's three answers print its line and end the program.
  target_answered :
      (sent : ℕ → Bool) (nought : Double) (ttl : ℕ) (h : Hop Double)
      (packets : List (Packet Double)) (later : List (Event Double))
      → IsTarget ttl h
      → get_elem? packets ttl ≡ some (probed Double plus pid ttl [] nought 0)
      → run Double plus sent pid ttl packets 0 (events_of (h ∷ []) later)
        ≡ (line_of nought ttl h ∷ [], finished)
  target_answered sent nought ttl h packets later (v, a, b, c) there =
      let inside = get_elem?-lt packets ttl _ there in
      let t1 = plus nought h.time1 in
      let t2 = plus t1 h.time2 in
      let p1 = probed Double plus pid ttl h.source t1 1 in
      let p2 = probed Double plus pid ttl h.source t2 2 in
      let m1 = set packets ttl p1 in
      let m2 = set m1 ttl p2 in
      let l1 = length-set packets ttl p1 in
      run-again Double plus pid ttl sent packets m1 0 1 h.reply1
        (packet h.reply2 ∷ packet h.reply3 ∷ later)
        (echo-counted ttl packets 0 h.reply1 h.source [] nought h.time1 a v.from1
          (reply-first Double plus pid ttl h.source nought h.time1) there v.timed1 (omega arith))
      ∙ run-again Double plus pid ttl sent m1 m2 1 2 h.reply2 (packet h.reply3 ∷ later) (
          echo-counted ttl m1 1 h.reply2 h.source h.source t1 h.time2 b v.from2
            (reply-again Double plus pid ttl h.source t1 h.time2 1)
            (get_elem?-set_self packets ttl p1 inside) v.timed2 (omega arith))
      ∙ run-exited sent ttl m2 2 h.reply3 (line_of nought ttl h) later (
          echo-full ttl m2 2 h.reply3 h.source h.source t2 h.time3 c v.from3
            (reply-again Double plus pid ttl h.source t2 h.time3 2)
            (get_elem?-set_self m1 ttl p2 (omega (arith, l1, inside))) v.timed3 refl)

  -- The entries from `ttl` on are as `main` makes them.
  abbrev pub AreFresh : Double → ℕ → List (Packet Double) → Type 0
  AreFresh nought ttl packets =
      (j : ℕ) → ttl ≤ j → j < 30 → get_elem? packets j ≡ some (probed Double plus pid j [] nought 0)

  trace_from :
      (sent : ℕ → Bool) (nought : Double) (ttl : ℕ) (hops : List (Hop Double)) (target : Hop Double)
      (packets : List (Packet Double)) (later : List (Event Double))
      → ((t : ℕ) → t < 30 → sent t ≡ true)
      → AreFresh nought ttl packets
      → ttl + length hops < 30
      → AreRouters ttl hops
      → IsTarget (ttl + length hops) target
      → run Double plus sent pid ttl packets 0 (events_of hops (events_of (target ∷ []) later))
        ≡ (lines_of nought ttl hops ++ (line_of nought (ttl + length hops) target ∷ []), finished)
  trace_from sent nought ttl [] target packets later all fresh low routers target_v =
      let e : ttl + 0 ≡ ttl = omega arith in
      rw e (
        target_answered sent nought ttl target packets later (rw e at target_v)
          (fresh ttl (omega arith) (omega arith)))
  trace_from sent nought ttl (h ∷ hops) target packets later all fresh low (v, a, b, c, routers)
        target_v =
      let e : ttl + suc (length hops) ≡ ttl + 1 + length hops = omega arith in
      let there = fresh ttl (omega arith) (omega arith) in
      let (next, r, same) =
        hop_answered Double plus pid ttl packets (events_of hops (events_of (target ∷ []) later))
          sent h.reply1 h.reply2 h.reply3 h.source nought h.time1 h.time2 h.time3 (omega arith)
          (all (ttl + 1) (omega arith)) there (get_elem?-lt packets ttl _ there) a b c v.from1
          v.from2 v.from3 v.timed1 v.timed2 v.timed3 in
      let rest =
        trace_from sent nought (ttl + 1) hops target next later all
          (λ j l g. same j (λ x. absurd (omega arith)) ∙ fresh j (omega arith) g) (omega arith)
          routers (rw e at target_v) in
      r ∙ rw (rest, e) refl

  fresh_numbered :
      (nought : Double) (i left j : ℕ) (rest : List (Packet Double))
      → j < left
      → get_elem? (numbered Double plus nought i left ++ rest) j
        ≡ some (probed Double plus pid (i + j) [] nought 0)
  unfolding numbered probed
  fresh_numbered nought i zero j rest h = absurd (omega arith)
  fresh_numbered nought i (suc left) zero rest h = let e : i + 0 ≡ i = omega arith in rw e refl
  fresh_numbered nought i (suc left) (suc j) rest h =
      let e : i + 1 + j ≡ i + suc j = omega arith in
      fresh_numbered nought (i + 1) left j rest (omega arith) ∙ rw e refl

  new_packets-AreFresh :
      (nought : Double) (unset : Packet Double)
      → AreFresh nought 1 (new_packets Double plus nought unset)
  unfolding new_packets
  new_packets-AreFresh nought unset j l h =
      let e : 0 + j ≡ j = omega arith in fresh_numbered nought 0 30 j (unset ∷ []) h ∙ rw e refl

  -- From the start of `main`, where each of up to 28 routers answers its three requests and the target
  -- then answers its three, each from one address and with nothing in between, the program prints
  -- one line for each router and one for the target, in the order of the hops, each with the sum of
  -- the i-th answer's time since the i-th request, and ends, provided that all requests can be sent.
  pub trace_printed :
      (sent : ℕ → Bool) (nought : Double) (unset : Packet Double) (hops : List (Hop Double))
      (target : Hop Double) (later : List (Event Double))
      → ((t : ℕ) → t < 30 → sent t ≡ true)
      → length hops < 29
      → AreRouters 1 hops
      → IsTarget (1 + length hops) target
      → run Double plus sent pid 1
          (new_packets Double plus nought unset)
          0
          (events_of hops (events_of (target ∷ []) later))
        ≡ (lines_of nought 1 hops ++ (line_of nought (1 + length hops) target ∷ []), finished)
  trace_printed sent nought unset hops target later all few routers target_v =
      trace_from sent nought 1 hops target (new_packets Double plus nought unset) later all
        (new_packets-AreFresh nought unset) (omega arith) routers target_v
