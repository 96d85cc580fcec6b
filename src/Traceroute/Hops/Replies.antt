-- ===== src/Traceroute/Hops/Replies.antt =====
-- What the replies of a hop lead to.
use aip_pkussm.Prelude.{
  Bool, true, ℕ, ◌+◌, ◌<◌, ◌≡◌, refl, ◌∙◌, some, List, [], ◌∷◌, get_elem?, set, CString,
  str_eq_refl, arith, if◌then◌else◌,
}
use aip_pkussm.Traceroute.Hops.{
  Packet, Line, average, Received, Event, packet, again, broken, set_ip, sign_new, process_packet,
  print, is_full, receive, turn, run, icmp_time_exceeded, icmp_exc_ttl, ipproto_icmp,
}

module _ (Double : Type 0) (plus : Double → Double → Double) (pid ttl : ℕ) where
  -- The answer "time exceeded" to a request of this program for a ttl.
  pub record IsReply (seq : ℕ) (r : Received Double) : Type 0 where
    pub exceeded : r.icmp_type ≡ icmp_time_exceeded
    pub code : r.icmp_code ≡ icmp_exc_ttl
    pub proto : r.orig_p ≡ ipproto_icmp
    pub ours : r.orig_id ≡ pid
    pub hop : r.orig_seq ≡ seq

  receive-reply :
      (packets : List (Packet Double)) (i : ℕ) (r : Received Double) (p : Packet Double)
      (e : Double)
      → IsReply ttl r
      → get_elem? packets ttl ≡ some p
      → get_elem? r.elapsed i ≡ some e
      → receive Double plus pid ttl packets i r ≡ (
          let pac = sign_new Double plus e (set_ip Double plus r.source p) in
          if is_full Double plus pac
          then broken (print Double plus pac ∷ []) (set packets ttl pac)
          else again (set packets ttl pac) (i + 1))
  unfolding receive process_packet
  receive-reply packets i r p e v there timed =
      ground (arith, v.exceeded, v.code, v.proto, v.ours, v.hop)

  -- The entry of the hop, with an address, a sum of times and a number of replies.
  unfoldable pub probed : CString → Double → ℕ → Packet Double
  probed source time came = record { ip = source; time = time; ttl = ttl; came = came }

  -- The second and third reply from the same address.
  pub reply-again :
      (source : CString) (time e : Double) (came : ℕ)
      → sign_new Double plus e (set_ip Double plus source (probed source time came))
        ≡ probed source (plus time e) (came + 1)
  unfolding sign_new set_ip probed
  reply-again [] time e came = refl
  reply-again (c ∷ source) time e came = ground (arith, str_eq_refl (c ∷ source))

  pub reply-first :
      (source : CString) (time e : Double)
      → sign_new Double plus e (set_ip Double plus source (probed [] time 0))
        ≡ probed source (plus time e) 1
  unfolding sign_new set_ip probed
  reply-first source time e = refl

  pub run-again :
      (sent : ℕ → Bool) (packets next : List (Packet Double)) (i j : ℕ) (r : Received Double)
      (events : List (Event Double))
      → receive Double plus pid ttl packets i r ≡ again next j
      → run Double plus sent pid ttl packets i (packet r ∷ events)
        ≡ run Double plus sent pid ttl next j events
  unfolding run turn
  run-again sent packets next i j r events e = ground (arith, e)

  pub run-broken :
      (sent : ℕ → Bool) (packets next : List (Packet Double)) (i : ℕ) (r : Received Double)
      (line : Line Double) (events : List (Event Double))
      → ttl < 30
      → sent (ttl + 1) ≡ true
      → receive Double plus pid ttl packets i r ≡ broken (line ∷ []) next
      → run Double plus sent pid ttl packets i (packet r ∷ events)
        ≡ (let (more, end) = run Double plus sent pid (ttl + 1) next 0 events in (line ∷ more, end))
  unfolding run turn
  run-broken sent packets next i r line events h s e = ground (arith, e)

  module _ (packets : List (Packet Double)) (i : ℕ) (r : Received Double) (source old : CString)
      (time e : Double) (v : IsReply ttl r) (from : r.source ≡ source)
      (signed : sign_new Double plus e (set_ip Double plus source (probed old time i))
        ≡ probed source (plus time e) (i + 1))
      (there : get_elem? packets ttl ≡ some (probed old time i))
      (timed : get_elem? r.elapsed i ≡ some e) where
    pac_eq :
        sign_new Double plus e (set_ip Double plus r.source (probed old time i))
        ≡ probed source (plus time e) (i + 1)
    pac_eq = rw from signed

    abbrev pub after : List (Packet Double)
    after = set packets ttl (probed source (plus time e) (i + 1))

    pub receive-counted : i < 2 → receive Double plus pid ttl packets i r ≡ again after (i + 1)
    unfolding is_full probed
    receive-counted few =
        receive-reply packets i r (probed old time i) e v there timed ∙ rw pac_eq (ground arith)

    pub receive-full :
        i ≡ 2
        → receive Double plus pid ttl packets i r
          ≡ broken (average ttl source (plus time e) ∷ []) after
    unfolding is_full print probed
    receive-full last =
        receive-reply packets i r (probed old time i) e v there timed ∙ rw pac_eq (ground arith)
