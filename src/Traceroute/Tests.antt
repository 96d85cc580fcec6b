-- ===== src/Traceroute/Tests.antt =====
-- The theorems about the traceroute at concrete inputs.
use aip_pkussm.Prelude.{
  replicate, ltb, ◌&&◌, ◌++◌, Bool, Bool-cases, inl, inr, sym, ◌∙◌, ℕ, true, pos, some, ◌+◌, ◌%◌,
  ◌≡◌, refl, List, [], ◌∷◌, codes, arith,
}
use aip_pkussm.Traceroute.{in_cksum, send_icmp_packet}
use aip_pkussm.Traceroute.Checksum.{word_sum, in_cksum-positive, send_icmp_packet-checksum}
use aip_pkussm.Traceroute.Hops.{Packet, Received, packet, Ending, run, new_packets}
use aip_pkussm.Traceroute.Hops.Replies.{IsReply}
use aip_pkussm.Traceroute.Hops.{average}
use aip_pkussm.Traceroute.Datagrams.Headers.{IpBytes, received_of-bounds}
use aip_pkussm.Traceroute.Datagrams.{received_of}
use aip_pkussm.Traceroute.Datagrams.Quoted.{Exceeded, Replied}
use aip_pkussm.Traceroute.Program.Routes.{Route, all_arrive}
use aip_pkussm.Traceroute.Program.Traced.{traced}
use aip_pkussm.Traceroute.Program.{Request, are_sent, Network, set_up, exit_zero, Answer, main}
use aip_pkussm.Traceroute.Hops.Outcomes.{late_replies_crash}
use aip_pkussm.Traceroute.Datagrams.Identifiers.{AreBytes}
use aip_pkussm.Traceroute.Program.Blind.{AreStars, big_pid-blind}

in_cksum-positive_example :
    (in_cksum (8 ∷ 0 ∷ 0 ∷ 0 ∷ 7 ∷ []) 0 + word_sum (8 ∷ 0 ∷ 0 ∷ 0 ∷ 7 ∷ [])) % 65535 ≡ 0
in_cksum-positive_example = in_cksum-positive (8 ∷ 0 ∷ 0 ∷ 0 ∷ 7 ∷ []) (
  omega arith,
  omega arith,
  omega arith,
  (omega arith, omega arith, omega arith, (omega arith, omega arith)),
)

send_icmp_packet-checksum_example : word_sum (send_icmp_packet 40000 5) % 65535 ≡ 1
send_icmp_packet-checksum_example = send_icmp_packet-checksum 40000 5 (omega arith)

received_of-bounds_example :
    (r : Received ℕ) × (received_of (codes "10.0.0.1") (30 ∷ []) (replicate 200 255) ≡ some r)
received_of-bounds_example =
    received_of-bounds (codes "10.0.0.1") (30 ∷ []) (replicate 200 255) (omega arith)

-- An answer to a request of process 1234, with times in microseconds.
abbrev reply : ℕ → Received ℕ
reply seq = record {
  source = codes "10.0.0.1";
  icmp_type = 11;
  icmp_code = 0;
  icmp_id = 0;
  icmp_seq = 0;
  orig_p = 1;
  orig_id = 1234;
  orig_seq = seq;
  elapsed = 30 ∷ 20 ∷ 10 ∷ [];
}

reply-IsReply : (ttl seq : ℕ) → IsReply ℕ ◌+◌ 1234 ttl seq (reply seq)
reply-IsReply ttl seq = record {
  exceeded = refl;
  code = refl;
  proto = refl;
  ours = refl;
  hop = refl;
}

abbrev unset : Packet ℕ
unset = record { ip = []; time = 77; ttl = 99; came = 5 }

abbrev fresh : List (Packet ℕ)
fresh = new_packets ℕ ◌+◌ 0 unset

late_replies_crash_example :
    run ℕ ◌+◌
      (λ t. true)
      1234
      2
      fresh
      0
      (packet (reply 1) ∷ packet (reply 1) ∷ packet (reply 1) ∷ packet (reply 2) ∷ [])
    ≡ ([], Ending.crashed)
late_replies_crash_example =
    late_replies_crash ℕ ◌+◌ 1234 2 fresh [] (λ t. true) 1 1 1 (reply 1) (reply 1) (reply 1)
      (reply 2) (λ e. cc) (λ e. cc) (λ e. cc) (reply-IsReply 2 1) (reply-IsReply 2 1)
      (reply-IsReply 2 1) (reply-IsReply 2 2) refl

abbrev network : Network
network = record {
  socket = pos 3;
  gethostbyname = λ name. some 7;
  inet_pton = λ name. (pos 0, 0);
  inet_ntop = λ address. some (codes "10.0.0.1");
}

abbrev all_sent : ℕ → Request × Request × Request
all_sent ttl = let r : Request = record { setsockopt = pos 0; sendto = pos 8 } in (r, r, r)

-- An IP header of 20 bytes.
abbrev header : IpBytes
header = record {
  first = 69;
  middle = replicate 8 0;
  proto = 1;
  others = replicate 10 0;
  middle_len = refl;
  header_len = refl;
}

abbrev times : List ℕ
times = 30 ∷ 20 ∷ 10 ∷ []

abbrev route_of : {X : Type 0} → X → Route ℕ ◌+◌ X
route_of x = record {
  source = codes "10.0.0.1";
  answer1 = x;
  answer2 = x;
  answer3 = x;
  elapsed1 = times;
  elapsed2 = times;
  elapsed3 = times;
  time1 = 30;
  time2 = 20;
  time3 = 10;
  timed1 = refl;
  timed2 = refl;
  timed3 = refl;
}

abbrev a_router : Route ℕ ◌+◌ Exceeded
a_router = route_of (record {
  outer = header;
  check1 = 0;
  check2 = 0;
  unused1 = 0;
  unused2 = 0;
  unused3 = 0;
  unused4 = 0;
  inner = header;
  extra = [];
  is_icmp = refl;
})

abbrev a_target : Route ℕ ◌+◌ Replied
a_target = route_of (record { outer = header; code = 0; check1 = 0; check2 = 0; extra = [] })

abbrev nothing_yet : List ℕ
nothing_yet = replicate 136 0

traced_example :
    main ℕ ◌+◌ network
      (codes "host" ∷ [])
      1234
      0
      unset
      all_sent
      nothing_yet
      (all_arrive ℕ ◌+◌ 1234 1 (a_router ∷ []) a_target [])
    ≡ (
      some (codes "10.0.0.1"),
      average 1 (codes "10.0.0.1") 60 ∷ average 2 (codes "10.0.0.1") 60 ∷ [],
      exit_zero,
    )
unfolding set_up are_sent
traced_example =
    traced ℕ ◌+◌ network (codes "host" ∷ []) 7 (codes "10.0.0.1") 1234 0 unset all_sent nothing_yet
      (a_router ∷ []) a_target [] refl (λ t h. refl) (omega arith) (omega arith) (omega arith)

-- Lists of bytes, by a test.
unfoldable all_low : List ℕ → Bool
all_low [] = true
all_low (x ∷ xs) = ltb x 256 && all_low xs

all_low-AreBytes : (xs : List ℕ) → all_low xs ≡ true → AreBytes xs
unfolding all_low
all_low-AreBytes [] e = tt
all_low-AreBytes (x ∷ xs) e = elim (Bool-cases (ltb x 256)) [
  | inl f ↦ (ground (arith, f), all_low-AreBytes xs (sym (rw (f) refl) ∙ e))
  | inr f ↦ absurd (ground (arith, e, f))
]

abbrev ip_header : List ℕ
ip_header = 69 ∷ (replicate 8 0 ++ (1 ∷ replicate 10 0))

-- "Time exceeded" for the first request of process 70000, whose identifier is 4464.
abbrev exceeded_4464 : List ℕ
exceeded_4464 =
    ip_header
    ++ (11 ∷ 0 ∷ 0 ∷ 0 ∷ 0 ∷ 0 ∷ 0 ∷ 0 ∷ (ip_header ++ (8 ∷ 0 ∷ 0 ∷ 0 ∷ 112 ∷ 17 ∷ 1 ∷ 0 ∷ [])))

abbrev answered_4464 : Answer ℕ ◌+◌
answered_4464 = record {
  select = pos 1;
  recvfrom = pos 56;
  datagram = exceeded_4464;
  source = codes "10.0.0.1";
  elapsed = times;
}

abbrev timed_out : Answer ℕ ◌+◌
timed_out = record { select = pos 0; recvfrom = pos 0; datagram = []; source = []; elapsed = [] }

abbrev blank_packet : Packet ℕ
blank_packet = record { ip = []; time = 77; ttl = 99; came = 0 }

big_pid-blind_example :
    AreStars ℕ ◌+◌
      (main ℕ ◌+◌ network
        (codes "host" ∷ [])
        70000
        0
        blank_packet
        all_sent
        nothing_yet
        (answered_4464 ∷ timed_out ∷ [])).1
unfolding all_low
big_pid-blind_example =
    big_pid-blind ℕ ◌+◌ network (codes "host" ∷ []) 70000 0 blank_packet all_sent nothing_yet
      (answered_4464 ∷ timed_out ∷ []) (omega arith) refl (all_low-AreBytes nothing_yet refl)
      (all_low-AreBytes exceeded_4464 refl, (tt, tt))
