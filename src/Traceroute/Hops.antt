-- ===== src/Traceroute/Hops.antt =====
-- A5/Traceroute/Packet.cc and the loop of main.cc. The headers of a received packet are read where
-- the code reads them; `Double` and its addition are the machine's.
pub mod Replies
pub mod Outcomes
pub mod Trace
use aip_pkussm.Prelude.{
  ℕ, zero, suc, ◌+◌, Bool, true, false, ◌&&◌, Option, none, some, List, [], ◌∷◌, ◌++◌, ◌==◌, leb,
  CString, codes, str_eq, if◌then◌else◌, get_elem?, set,
}

abbrev pub maxhops : ℕ
maxhops = 30

-- The numbers of the protocol.
abbrev pub icmp_time_exceeded : ℕ
icmp_time_exceeded = 11

abbrev pub icmp_exc_ttl : ℕ
icmp_exc_ttl = 0

abbrev pub icmp_echoreply : ℕ
icmp_echoreply = 0

abbrev pub ipproto_icmp : ℕ
ipproto_icmp = 1

pub record Packet (Double : Type 0) : Type 0 where
  pub ip : CString
  pub time : Double
  pub ttl : ℕ
  pub came : ℕ

-- What is printed for a hop: with the sum of three times, with "???", or the star.
pub data Line (Double : Type 0) : Type 0 where
  average : ℕ → CString → Double → Line Double
  unknown : ℕ → CString → Line Double
  star : ℕ → Line Double

-- A packet that `Recvfrom` returns: the headers, the members behind the second IP header, and the
-- time that has passed since each of the three requests.
pub record Received (Double : Type 0) : Type 0 where
  pub source : CString
  pub icmp_type : ℕ
  pub icmp_code : ℕ
  pub icmp_id : ℕ
  pub icmp_seq : ℕ
  pub orig_p : ℕ
  pub orig_id : ℕ
  pub orig_seq : ℕ
  pub elapsed : List Double

-- What `Select` and `Recvfrom` return.
pub data Event (Double : Type 0) : Type 0 where
  timeout : Event Double
  empty : Event Double
  packet : Received Double → Event Double

-- How one turn of the inner loop ends: with another turn, a `break`, an `exit`, or an access out of
-- range.
pub data Turn (Double : Type 0) : Type 0 where
  again : List (Packet Double) → ℕ → Turn Double
  broken : List (Line Double) → List (Packet Double) → Turn Double
  exited : Line Double → Turn Double
  crashed : Turn Double

pub data Ending : Type 0 where
  listening finished crashed unsent : Ending

module _ (Double : Type 0) (plus : Double → Double → Double) where
  unfoldable pub is_full : Packet Double → Bool
  is_full p = p.came == 3

  unfoldable pub is_filled : Packet Double → Bool
  is_filled p = leb 1 p.came

  unfoldable pub set_ip : CString → Packet Double → Packet Double
  set_ip ipaddress p = elim p.ip [
    | [] ↦ record p { ip = ipaddress }
    | c ∷ cs ↦
        if str_eq p.ip ipaddress then p else record p { ip = p.ip ++ (codes " " ++ ipaddress) }
  ]

  unfoldable pub sign_new : Double → Packet Double → Packet Double
  sign_new usec p = record p { came = p.came + 1; time = plus p.time usec }

  unfoldable pub print : Packet Double → Line Double
  unfolding is_full
  print p = if is_full p then average p.ttl p.ip p.time else unknown p.ttl p.ip

  -- `processPacket`: the packets afterwards, and the one that it changed.
  unfoldable pub process_packet :
      ℕ
      → CString
      → List Double
      → ℕ
      → List (Packet Double)
      → Option (List (Packet Double) × Packet Double)
  unfolding set_ip sign_new
  process_packet seq ip_address elapsed i packets = elim (get_elem? packets seq) [
    | none ↦ none
    | some p ↦ elim (get_elem? elapsed i) [
      | none ↦ none
      | some usec ↦ let pac = sign_new usec (set_ip ip_address p) in some (set packets seq pac, pac)
    ]
  ]

  unfoldable pub receive : ℕ → ℕ → List (Packet Double) → ℕ → Received Double → Turn Double
  unfolding process_packet is_full print
  receive pid ttl packets i r =
      if r.icmp_type == icmp_time_exceeded && r.icmp_code == icmp_exc_ttl
      then (if r.orig_p == ipproto_icmp && r.orig_id == pid
          then (if ttl == r.orig_seq
              then elim (process_packet r.orig_seq r.source r.elapsed i packets) [
                | none ↦ crashed
                | some (next, pac) ↦
                    if is_full pac then broken (print pac ∷ []) next else again next (i + 1)
              ]
              else again packets (i + 1))
          else again packets i)
      else (if r.icmp_type == icmp_echoreply && r.icmp_id == pid
          then elim (process_packet r.icmp_seq r.source r.elapsed i packets) [
            | none ↦ crashed
            | some (next, pac) ↦ if is_full pac then exited (print pac) else again next (i + 1)
          ]
          else again packets i)

  unfoldable pub turn : ℕ → ℕ → List (Packet Double) → ℕ → Event Double → Turn Double
  unfolding receive is_filled
  turn pid ttl packets i timeout = elim (get_elem? packets ttl) [
    | none ↦ crashed
    | some p ↦ broken ((if is_filled p then print p else star ttl) ∷ []) packets
  ]
  turn pid ttl packets i empty = broken [] packets
  turn pid ttl packets i (packet r) = receive pid ttl packets i r

  -- Both loops, with what `Select` and `Recvfrom` return in each turn, and whether the requests of a
  -- hop can be sent.
  unfoldable pub run :
      (ℕ → Bool)
      → ℕ
      → ℕ
      → List (Packet Double)
      → ℕ
      → List (Event Double)
      → List (Line Double) × Ending
  unfolding turn
  run sent pid ttl packets i [] = ([], listening)
  run sent pid ttl packets i (event ∷ events) = elim (turn pid ttl packets i event) [
    | again next j ↦ run sent pid ttl next j events
    | broken lines next ↦ elim (leb maxhops ttl) [
      | true ↦ (lines, finished)
      | false ↦ elim (sent (ttl + 1)) [
        | true ↦ let (more, end) = run sent pid (ttl + 1) next 0 events in (lines ++ more, end)
        | false ↦ (lines, unsent)
      ]
    ]
    | exited line ↦ (line ∷ [], finished)
    | Turn.crashed ↦ ([], Ending.crashed)
  ]

  -- `packets`: `Packet (i)` for each `i` below `maxhops`, and behind them one whose members nothing
  -- has set.
  unfoldable pub numbered : Double → ℕ → ℕ → List (Packet Double)
  numbered nought i zero = []
  numbered nought i (suc left) =
      record { ip = []; time = nought; ttl = i; came = 0 } ∷ numbered nought (i + 1) left

  unfoldable pub new_packets : Double → Packet Double → List (Packet Double)
  unfolding numbered
  new_packets nought unset = numbered nought 0 maxhops ++ (unset ∷ [])
