-- ===== src/Traceroute/Hops/Outcomes.antt =====
-- What the loop of A5/Traceroute/main.cc makes of the replies to its three requests.
use aip_pkussm.Prelude.{
  Bool, true, ℕ, ◌+◌, ◌<◌, ◌≤◌, ◌≡◌, ◌≢◌, refl, ◌∙◌, some, none, List, [], ◌∷◌, length, get_elem?,
  set, get_elem?-set_self, get_elem?-set_ne, get_elem?_of_le, length-set, Option-cases, CString,
  arith,
}
use aip_pkussm.Traceroute.Hops.{
  Packet, average, Received, Event, packet, Turn, again, Ending, process_packet, receive, turn, run,
}
use aip_pkussm.Traceroute.Hops.Replies.{
  IsReply, probed, reply-again, reply-first, run-again, run-broken, receive-counted, receive-full,
}

module _ (Double : Type 0) (plus : Double → Double → Double) (pid ttl : ℕ)
    (packets : List (Packet Double)) (events : List (Event Double)) where
  -- Three answers "time exceeded" from one address to the requests of a hop below 30, which come
  -- first, with requests of the next hop that can be sent, print the hop once, with that address
  -- and the sum of the first one's time since the first request, the second one's since the
  -- second and the third one's since the third, before the loop goes on with the next hop; the
  -- entries of the other hops stay as they are.
  pub hop_answered :
      (sent : ℕ → Bool) (r1 r2 r3 : Received Double) (source : CString) (nought e1 e2 e3 : Double)
      → ttl < 30
      → sent (ttl + 1) ≡ true
      → get_elem? packets ttl ≡ some (probed Double plus pid ttl [] nought 0)
      → ttl < length packets
      → IsReply Double plus pid ttl ttl r1
      → IsReply Double plus pid ttl ttl r2
      → IsReply Double plus pid ttl ttl r3
      → r1.source ≡ source
      → r2.source ≡ source
      → r3.source ≡ source
      → get_elem? r1.elapsed 0 ≡ some e1
      → get_elem? r2.elapsed 1 ≡ some e2
      → get_elem? r3.elapsed 2 ≡ some e3
      → (next : List (Packet Double)) × (run Double plus sent pid ttl packets 0
            (packet r1 ∷ packet r2 ∷ packet r3 ∷ events)
          ≡ (let (more, end) = run Double plus sent pid (ttl + 1) next 0 events in
              (average ttl source (plus (plus (plus nought e1) e2) e3) ∷ more, end)))
        × ((j : ℕ) → ttl ≢ j → get_elem? next j ≡ get_elem? packets j)
  hop_answered sent r1 r2 r3 source nought e1 e2 e3 low goes there inside v1 v2 v3 s1 s2 s3 t1 t2
        t3 =
      let p1 = probed Double plus pid ttl source (plus nought e1) 1 in
      let p2 = probed Double plus pid ttl source (plus (plus nought e1) e2) 2 in
      let p3 = probed Double plus pid ttl source (plus (plus (plus nought e1) e2) e3) 3 in
      let m1 = set packets ttl p1 in
      let m2 = set m1 ttl p2 in
      let m3 = set m2 ttl p3 in
      let l1 = length-set packets ttl p1 in
      let l2 = length-set m1 ttl p2 in
      let a =
        receive-counted Double plus pid ttl packets 0 r1 source [] nought e1 v1 s1
          (reply-first Double plus pid ttl source nought e1) there t1 (omega arith) in
      let b =
        receive-counted Double plus pid ttl m1 1 r2 source source (plus nought e1) e2 v2 s2
          (reply-again Double plus pid ttl source (plus nought e1) e2 1)
          (get_elem?-set_self packets ttl p1 inside) t2 (omega arith) in
      let c =
        receive-full Double plus pid ttl m2 2 r3 source source (plus (plus nought e1) e2) e3 v3 s3
          (reply-again Double plus pid ttl source (plus (plus nought e1) e2) e3 2)
          (get_elem?-set_self m1 ttl p2 (omega (arith, l1, inside))) t3 refl in
      (
        m3,
        run-again Double plus pid ttl sent packets m1 0 1 r1 (packet r2 ∷ packet r3 ∷ events) a
            ∙ run-again Double plus pid ttl sent m1 m2 1 2 r2 (packet r3 ∷ events) b
            ∙ run-broken Double plus pid ttl sent m2 m3 2 r3 _ events low goes c,
        λ j h.
            get_elem?-set_ne m2 ttl j p3 h
            ∙ get_elem?-set_ne m1 ttl j p2 h
            ∙ get_elem?-set_ne packets ttl j p1 h,
      )

  late :
      (i seq : ℕ) (r : Received Double)
      → IsReply Double plus pid ttl seq r
      → ttl ≢ seq
      → receive Double plus pid ttl packets i r ≡ again packets (i + 1)
  unfolding receive
  late i seq r v h = ground (arith, v.exceeded, v.code, v.proto, v.ours, v.hop)

  no_time :
      (seq : ℕ) (source : CString) (elapsed : List Double)
      → length elapsed ≡ 3
      → process_packet Double plus seq source elapsed 3 packets ≡ none
  unfolding process_packet
  no_time seq source elapsed three =
      ground (arith, get_elem?_of_le elapsed 3, Option-cases (get_elem? packets seq))

  out_of_times :
      (r : Received Double)
      → IsReply Double plus pid ttl ttl r
      → length r.elapsed ≡ 3
      → receive Double plus pid ttl packets 3 r ≡ Turn.crashed
  unfolding receive
  out_of_times r v three = ground (
    arith,
    v.exceeded,
    v.code,
    v.proto,
    v.ours,
    v.hop,
    no_time r.orig_seq r.source r.elapsed three,
  )

  -- Three late answers to requests of other hops count as replies of this one: the next answer to
  -- a request of this hop then makes the program read behind the array of the three times.
  pub late_replies_crash :
      (sent : ℕ → Bool) (s1 s2 s3 : ℕ) (r1 r2 r3 r : Received Double)
      → ttl ≢ s1
      → ttl ≢ s2
      → ttl ≢ s3
      → IsReply Double plus pid ttl s1 r1
      → IsReply Double plus pid ttl s2 r2
      → IsReply Double plus pid ttl s3 r3
      → IsReply Double plus pid ttl ttl r
      → length r.elapsed ≡ 3
      → run Double plus sent pid ttl packets 0
          (packet r1 ∷ packet r2 ∷ packet r3 ∷ packet r ∷ events)
        ≡ ([], Ending.crashed)
  unfolding run turn
  late_replies_crash sent s1 s2 s3 r1 r2 r3 r n1 n2 n3 v1 v2 v3 v three =
      ground
        (arith, late 0 s1 r1 v1 n1, late 1 s2 r2 v2 n2, late 2 s3 r3 v3 n3, out_of_times r v three)

  pub big_pid-ignored :
      (i : ℕ) (r : Received Double)
      → 65536 ≤ pid
      → r.icmp_id < 65536
      → r.orig_id < 65536
      → receive Double plus pid ttl packets i r ≡ again packets i
  unfolding receive
  big_pid-ignored i r big a b = ground arith
