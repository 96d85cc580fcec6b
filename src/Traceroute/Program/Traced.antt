-- ===== src/Traceroute/Program/Traced.antt =====
-- Whole runs of the traceroute, from the bytes that its requests are answered with.
use aip_pkussm.Prelude.{
  ℕ, ◌+◌, ◌≤◌, ◌<◌, ◌≡◌, refl, ◌∙◌, ap, true, some, List, [], ◌∷◌, ◌++◌, length, CString, arith,
}
use aip_pkussm.Traceroute.Hops.{Packet, Event}
use aip_pkussm.Traceroute.Hops.Trace.{
  Hop, AreRouters, IsTarget, events_of, line_of, lines_of, trace_printed,
}
use aip_pkussm.Traceroute.Datagrams.Quoted.{Exceeded, Replied}
use aip_pkussm.Traceroute.Program.{
  Request, are_sent, Network, Answer, Stop, set_up, events_before, exit_zero, main,
}
use aip_pkussm.Traceroute.Program.Routes.{Route, all_arrive, route_lines, route_heard}

module _ (Double : Type 0) (plus : Double → Double → Double) where
  -- For a host whose set-up succeeds with an address of the text `p`, where all requests of the hops
  -- below 30 can be sent, and where each of up to 28 routers
  -- answers its three requests and the target then answers its three, each from one address and with
  -- nothing in between, the program names `p` in its first line, prints one line for each router and
  -- one for the target, in the order of the hops, each with the sum of the i-th answer's time since
  -- the i-th request, and ends with 0, whatever is received later.
  pub main-traces :
      (net : Network) (args : List CString) (address : ℕ) (p : CString) (pid : ℕ) (nought : Double)
      (unset : Packet Double) (requests : ℕ → Request × Request × Request) (buffer : List ℕ)
      (answers : List (Answer Double plus)) (hops : List (Hop Double)) (target : Hop Double)
      (later : List (Event Double)) (why : Stop)
      → set_up net args ≡ some (address, p)
      → ((t : ℕ) → t < 30 → are_sent requests t ≡ true)
      → events_before Double plus buffer answers
        ≡ (events_of Double plus pid hops (events_of Double plus pid (target ∷ []) later), why)
      → length hops < 29
      → AreRouters Double plus pid 1 hops
      → IsTarget Double plus pid (1 + length hops) target
      → main Double plus net args pid nought unset requests buffer answers ≡ (
        some p,
        lines_of Double plus pid nought 1 hops
            ++ (line_of Double plus pid nought (1 + length hops) target ∷ []),
        exit_zero,
      )
  unfolding main
  main-traces net args address p pid nought unset requests buffer answers hops target later why up
        all told few routers target_v =
      rw
        (
          main,
          up,
          all 1 (omega arith),
          told,
          trace_printed Double plus pid (are_sent requests) nought unset hops target later all few
              routers target_v,
        )
        refl

  -- For a host whose set-up succeeds with an address of the text `p`, a process id below 65536, and
  -- requests that can be sent, each of up to 28 routers answers the three requests of its hop with
  -- "time exceeded" and the bytes of the request, and the target then answers its three requests with
  -- an echo reply, each from one address and with nothing in between: the program names `p` in its
  -- first line, prints one line for each router and one for the target, in the order of the hops, each
  -- with the sum of the i-th answer's time since the i-th request, and ends with 0, whatever is
  -- received later. The headers can have options, and the buffer has at least 136 bytes.
  pub traced :
      (net : Network) (args : List CString) (address : ℕ) (p : CString) (pid : ℕ) (nought : Double)
      (unset : Packet Double) (requests : ℕ → Request × Request × Request) (buffer : List ℕ)
      (hops : List (Route Double plus Exceeded)) (target : Route Double plus Replied)
      (later : List (Answer Double plus))
      → set_up net args ≡ some (address, p)
      → ((t : ℕ) → t < 30 → are_sent requests t ≡ true)
      → pid < 65536
      → 136 ≤ length buffer
      → length hops < 29
      → main Double plus net args pid nought unset requests buffer
          (all_arrive Double plus pid 1 hops target later)
        ≡ (some p, route_lines Double plus nought 1 hops target, exit_zero)
  traced net args address p pid nought unset requests buffer hops target later up all small enough
        few =
      let (os, o, rest, why, e, same, routers, is_target, lines) =
        route_heard Double plus pid 1 hops target later buffer small (omega arith) enough in
      main-traces net args address p pid nought unset requests buffer
        (all_arrive Double plus pid 1 hops target later) os o rest why up all e
        (omega (arith, same)) routers is_target
      ∙ ap (λ l. (some p, l, exit_zero)) (lines nought)
