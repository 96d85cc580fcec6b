-- ===== src/Traceroute/Program.antt =====
-- `main` of A5/Traceroute/main.cc with its set-up, and the wrappers of A5/Traceroute/sockwrap.cc. The
-- wrappers end the program with `exit (1)` when a call fails.
pub mod Routes
pub mod Traced
pub mod Blind
use aip_pkussm.Prelude.{
  ◌==◌, ◌&&◌, arith, ℕ, zero, suc, ◌+◌, ◌<◌, ◌≡◌, refl, Bool, true, false, Option, none, some, List,
  [], ◌∷◌, ◌++◌, length, CString, ℤ, pos, negsuc,
}
use aip_pkussm.Traceroute.Hops.{
  Packet, Line, Received, Event, timeout, empty, packet, Ending, listening, finished, crashed,
  unsent, run, new_packets,
}
use aip_pkussm.Traceroute.Datagrams.{icmp_header_len, recv_into, received_of}
use aip_pkussm.Traceroute.Hops.Trace.{
  Hop, AreRouters, IsTarget, events_of, line_of, lines_of, trace_printed,
}

-- What a wrapper returns: the value, or `none` where it calls `exit (1)`.
abbrev pub checked : ℤ → Option ℕ
checked (pos n) = some n
checked (negsuc n) = none

-- `Socket`
abbrev pub wrap_socket : ℤ → Option ℕ
wrap_socket n = checked n

-- `Recvfrom`
abbrev pub wrap_recvfrom : ℤ → Option ℕ
wrap_recvfrom n = checked n

-- `Select`
abbrev pub wrap_select : ℤ → Option ℕ
wrap_select n = checked n

-- `Setsockopt`
abbrev pub wrap_setsockopt : ℤ → Bool
wrap_setsockopt (pos n) = true
wrap_setsockopt (negsuc n) = false

-- `Sendto`
abbrev pub wrap_sendto : ℤ → ℕ → Bool
wrap_sendto (pos n) nbytes = n == nbytes
wrap_sendto (negsuc n) nbytes = false

-- What `setsockopt` and `sendto` return for one request.
pub record Request : Type 0 where
  pub setsockopt : ℤ
  pub sendto : ℤ

-- `sendIcmpPacket` returns.
abbrev pub is_sent : Request → Bool
is_sent r = wrap_setsockopt r.setsockopt && wrap_sendto r.sendto icmp_header_len

-- The three requests of a hop are sent.
unfoldable pub are_sent : (ℕ → Request × Request × Request) → ℕ → Bool
are_sent requests ttl =
    let (first, second, third) = requests ttl in is_sent first && is_sent second && is_sent third

-- What the calls of the set-up answer. `inet_pton` returns its result and the address that it stores
-- when the result is 1.
pub record Network : Type 0 where
  pub socket : ℤ
  pub gethostbyname : CString → Option ℕ
  pub inet_pton : CString → ℤ × ℕ
  pub inet_ntop : ℕ → Option CString

-- The address after `inet_pton`; only -1 is an error.
unfoldable pub address_of : ℕ → ℤ × ℕ → Option ℕ
address_of host (pos (suc zero), written) = some written
address_of host (pos n, written) = some host
address_of host (negsuc zero, written) = none
address_of host (negsuc (suc n), written) = some host

-- The address and its text, for the arguments behind `argv[0]`; `none` is `exit (1)`.
unfoldable pub set_up : Network → List CString → Option (ℕ × CString)
unfolding address_of
set_up net (name ∷ []) = elim (wrap_socket net.socket) [
  | none ↦ none
  | some sockfd ↦ elim (net.gethostbyname name) [
    | none ↦ none
    | some host ↦ elim (address_of host (net.inet_pton name)) [
      | none ↦ none
      | some address ↦ elim (net.inet_ntop address) [ none ↦ none | some p ↦ some (address, p) ]
    ]
  ]
]
set_up net args = none

-- How the program ends.
pub data Exit : Type 0 where
  still_listening exit_zero exit_one faulted : Exit

-- How the turns end: with another one to come, with a call that failed, or with a read behind the
-- end of the buffer.
pub data Stop : Type 0 where
  waiting failed overran : Stop

module _ (Double : Type 0) (plus : Double → Double → Double) where
  -- What `select` and `recvfrom` return in one turn, what `recvfrom` writes, the text of the address
  -- that it comes from, and the times since the three requests.
  pub record Answer : Type 0 where
    pub select : ℤ
    pub recvfrom : ℤ
    pub datagram : List ℕ
    pub source : CString
    pub elapsed : List Double

  -- An event with the buffer that it leaves, or the end of the program.
  pub data Heard : Type 0 where
    stopped : Stop → Heard
    heard : Event Double → List ℕ → Heard

  unfoldable pub event_of : List ℕ → Answer → Heard
  event_of buffer a = elim (wrap_select a.select) [
    | none ↦ stopped failed
    | some zero ↦ heard timeout buffer
    | some (suc ready) ↦ elim (wrap_recvfrom a.recvfrom) [
      | none ↦ stopped failed
      | some zero ↦ heard empty buffer
      | some (suc n) ↦
          let next = recv_into a.datagram buffer in
          elim (received_of a.source a.elapsed next) [
            | none ↦ stopped overran
            | some r ↦ heard (packet r) next
          ]
    ]
  ]

  -- The turns before the first call that ends the program, and how they end.
  unfoldable pub events_before : List ℕ → List Answer → List (Event Double) × Stop
  unfolding event_of
  events_before buffer [] = ([], waiting)
  events_before buffer (a ∷ answers) = elim (event_of buffer a) [
    | stopped why ↦ ([], why)
    | heard event next ↦ let (events, why) = events_before next answers in (event ∷ events, why)
  ]

  abbrev pub exit_of : Ending → Stop → Exit
  exit_of listening waiting = still_listening
  exit_of listening failed = exit_one
  exit_of listening overran = faulted
  exit_of finished why = exit_zero
  exit_of crashed why = faulted
  exit_of unsent why = exit_one

  -- `main`: the text of the address in its first line, if it comes to that, then the lines of the
  -- hops, and the end. `buffer` is what the buffer holds at first.
  unfoldable pub main :
      Network
      → List CString
      → ℕ
      → Double
      → Packet Double
      → (ℕ → Request × Request × Request)
      → List ℕ
      → List Answer
      → Option CString × List (Line Double) × Exit
  unfolding set_up events_before are_sent
  main net args pid nought unset requests buffer answers = elim (set_up net args) [
    | none ↦ (none, [], exit_one)
    | some (address, p) ↦ elim (are_sent requests 1) [
      | false ↦ (some p, [], exit_one)
      | true ↦
          let (events, why) = events_before buffer answers in
          let (lines, end) =
            run Double plus (are_sent requests) pid 1 (new_packets Double plus nought unset) 0
              events in
          (some p, lines, exit_of end why)
    ]
  ]
