-- ===== src/Traceroute/Program/Routes.antt =====
-- What the program hears from the routers and the target of a route.
use mathlib.Core.Path.{subst}
use aip_pkussm.Prelude.{
  ℕ, suc, ◌+◌, ◌≤◌, ◌<◌, ◌≡◌, refl, sym, ◌∙◌, ap, some, List, [], ◌∷◌, ◌++◌, length, get_elem?,
  CString, pos, arith,
}
use aip_pkussm.Traceroute.Hops.{Line, average, Received, Event, packet}
use aip_pkussm.Traceroute.Hops.Replies.{IsReply}
use aip_pkussm.Traceroute.Hops.Trace.{
  Hop, IsTimed, IsEcho, AreRouters, IsTarget, events_of, line_of, lines_of,
}
use aip_pkussm.Traceroute.Datagrams.{recv_into, received_of}
use aip_pkussm.Traceroute.Datagrams.Quoted.{
  Exceeded, exceeded_bytes, Replied, replied_bytes, length-recv_into, exceeded-IsReply,
  replied-IsEcho,
}
use aip_pkussm.Traceroute.Program.{Answer, Stop, event_of, events_before}

module _ (Double : Type 0) (plus : Double → Double → Double) where
  -- What the program reads when `datagram` arrives.
  abbrev pub answer_with : CString → List Double → List ℕ → Answer Double plus
  answer_with source elapsed datagram = record {
    select = pos 1;
    recvfrom = pos (length datagram);
    datagram = datagram;
    source = source;
    elapsed = elapsed;
  }

  heard_one :
      (source : CString) (elapsed : List Double) (datagram buffer : List ℕ) (r : Received Double)
      (answers : List (Answer Double plus))
      → 0 < length datagram
      → received_of source elapsed (recv_into datagram buffer) ≡ some r
      → events_before Double plus buffer (answer_with source elapsed datagram ∷ answers) ≡ (
          let (events, why) = events_before Double plus (recv_into datagram buffer) answers in
          (packet r ∷ events, why))
  unfolding events_before event_of
  heard_one source elapsed [] buffer r answers some_bytes e = absurd (omega arith)
  heard_one source elapsed (b ∷ datagram) buffer r answers some_bytes e = ground (arith, e)

  -- The three answers of a hop, from one address, with the times that count.
  pub record Route (X : Type 0) : Type 0 where
    pub source : CString
    pub answer1 : X
    pub answer2 : X
    pub answer3 : X
    pub elapsed1 : List Double
    pub elapsed2 : List Double
    pub elapsed3 : List Double
    pub time1 : Double
    pub time2 : Double
    pub time3 : Double
    pub timed1 : get_elem? elapsed1 0 ≡ some time1
    pub timed2 : get_elem? elapsed2 1 ≡ some time2
    pub timed3 : get_elem? elapsed3 2 ≡ some time3

  -- What arrives for a hop, before `later`.
  abbrev pub arrives :
      {X : Type 0} → (X → List ℕ) → Route X → List (Answer Double plus) → List (Answer Double plus)
  arrives bytes h later =
      answer_with h.source h.elapsed1 (bytes h.answer1)
      ∷ answer_with h.source h.elapsed2 (bytes h.answer2)
      ∷ answer_with h.source h.elapsed3 (bytes h.answer3)
      ∷ later

  abbrev pub route_line : {X : Type 0} → Double → ℕ → Route X → Line Double
  route_line nought ttl h = average ttl h.source (plus (plus (plus nought h.time1) h.time2) h.time3)

  -- A property of the replies that the program reads, whatever is in its buffer.
  abbrev Reads : {X : Type 0} → (X → List ℕ) → (Received Double → Type 0) → Type 0
  Reads {X} bytes IsGood =
      (x : X) (source : CString) (elapsed : List Double) (buffer : List ℕ)
      → 136 ≤ length buffer
      → (r : Received Double) × (received_of source elapsed (recv_into (bytes x) buffer) ≡ some r)
        × IsGood r
        × (r.source ≡ source)
        × (r.elapsed ≡ elapsed)

  hop_heard :
      {X : Type 0} (pid : ℕ) (bytes : X → List ℕ) (IsGood : Received Double → Type 0) (h : Route X)
      (later : List (Answer Double plus)) (buffer : List ℕ)
      → Reads bytes IsGood
      → ((x : X) → 0 < length (bytes x))
      → 136 ≤ length buffer
      → (o : Hop Double) × (next : List ℕ) × (136 ≤ length next)
        × (events_before Double plus buffer (arrives bytes h later) ≡ (
            let (events, why) = events_before Double plus next later in
            (packet o.reply1 ∷ packet o.reply2 ∷ packet o.reply3 ∷ events, why)))
        × IsTimed Double plus pid o
        × IsGood o.reply1
        × IsGood o.reply2
        × IsGood o.reply3
        × ((nought : Double) (ttl : ℕ)
            → line_of Double plus pid nought ttl o ≡ route_line nought ttl h)
  hop_heard pid bytes IsGood h later buffer reads some_bytes enough =
      let b1 = recv_into (bytes h.answer1) buffer in
      let b2 = recv_into (bytes h.answer2) b1 in
      let b3 = recv_into (bytes h.answer3) b2 in
      let l1 : 136 ≤ length b1 = omega (arith, length-recv_into (bytes h.answer1) buffer) in
      let l2 : 136 ≤ length b2 = omega (arith, length-recv_into (bytes h.answer2) b1) in
      let l3 : 136 ≤ length b3 = omega (arith, length-recv_into (bytes h.answer3) b2) in
      let (r1, e1, g1, s1, t1) = reads h.answer1 h.source h.elapsed1 buffer enough in
      let (r2, e2, g2, s2, t2) = reads h.answer2 h.source h.elapsed2 b1 l1 in
      let (r3, e3, g3, s3, t3) = reads h.answer3 h.source h.elapsed3 b2 l2 in
      (
        record {
          source = h.source;
          reply1 = r1;
          reply2 = r2;
          reply3 = r3;
          time1 = h.time1;
          time2 = h.time2;
          time3 = h.time3;
        },
        b3,
        l3,
        heard_one h.source h.elapsed1 (bytes h.answer1) buffer r1 _ (some_bytes h.answer1) e1
            ∙ rw
                (
                  heard_one h.source h.elapsed2 (bytes h.answer2) b1 r2
                      (answer_with h.source h.elapsed3 (bytes h.answer3) ∷ later)
                      (some_bytes h.answer2) e2,
                  heard_one h.source h.elapsed3 (bytes h.answer3) b2 r3 later (some_bytes h.answer3)
                      e3,
                )
                refl,
        record {
          from1 = s1;
          from2 = s2;
          from3 = s3;
          timed1 = ap (λ l. get_elem? l 0) t1 ∙ h.timed1;
          timed2 = ap (λ l. get_elem? l 1) t2 ∙ h.timed2;
          timed3 = ap (λ l. get_elem? l 2) t3 ∙ h.timed3;
        },
        g1,
        g2,
        g3,
        λ nought ttl. refl,
      )

  -- What arrives for the hops from `ttl` on, and for the target behind them.
  abbrev pub all_arrive :
      ℕ
      → ℕ
      → List (Route Exceeded)
      → Route Replied
      → List (Answer Double plus)
      → List (Answer Double plus)
  all_arrive pid ttl [] target later = arrives (λ x. replied_bytes x pid ttl) target later
  all_arrive pid ttl (h ∷ hops) target later =
      arrives (λ x. exceeded_bytes x pid ttl) h (all_arrive pid (ttl + 1) hops target later)

  abbrev pub route_lines : Double → ℕ → List (Route Exceeded) → Route Replied → List (Line Double)
  route_lines nought ttl [] target = route_line nought ttl target ∷ []
  route_lines nought ttl (h ∷ hops) target =
      route_line nought ttl h ∷ route_lines nought (ttl + 1) hops target

  pub route_heard :
      (pid ttl : ℕ) (hops : List (Route Exceeded)) (target : Route Replied)
      (later : List (Answer Double plus)) (buffer : List ℕ)
      → pid < 65536
      → ttl + length hops < 65536
      → 136 ≤ length buffer
      → (os : List (Hop Double)) × (o : Hop Double) × (rest : List (Event Double)) × (why : Stop)
        × (events_before Double plus buffer (all_arrive pid ttl hops target later)
            ≡ (events_of Double plus pid os (events_of Double plus pid (o ∷ []) rest), why))
        × (length os ≡ length hops)
        × AreRouters Double plus pid ttl os
        × IsTarget Double plus pid (ttl + length os) o
        × ((nought : Double)
            → lines_of Double plus pid nought ttl os
                ++ (line_of Double plus pid nought (ttl + length os) o ∷ [])
              ≡ route_lines nought ttl hops target)
  route_heard pid ttl [] target later buffer small low enough =
      let (o, next, l, e, timed, g1, g2, g3, line) =
        hop_heard pid (λ x. replied_bytes x pid ttl) (IsEcho Double plus pid ttl) target later
          buffer
          (λ x source elapsed b h.
            replied-IsEcho Double plus source elapsed pid ttl small (omega arith) b x h)
          (λ x. omega arith) enough in
      let end : ttl + 0 ≡ ttl = omega arith in
      (
        [],
        o,
        (events_before Double plus next later).0,
        (events_before Double plus next later).1,
        e,
        refl,
        tt,
        subst (λ t. IsTarget Double plus pid t o) (sym end) (timed, g1, g2, g3),
        λ nought.
            ap (λ t. line_of Double plus pid nought t o ∷ []) end
            ∙ ap (λ x. x ∷ []) (line nought ttl),
      )
  route_heard pid ttl (h ∷ hops) target later buffer small low enough =
      let (o, next, l, e, timed, g1, g2, g3, line) =
        hop_heard pid (λ x. exceeded_bytes x pid ttl) (IsReply Double plus pid ttl ttl) h
          (all_arrive pid (ttl + 1) hops target later) buffer
          (λ x source elapsed b h.
            exceeded-IsReply Double plus source elapsed pid ttl small (omega arith) b x)
          (λ x. omega arith) enough in
      let (os, last, rest, why, e', same, routers, is_target, lines) =
        route_heard pid (ttl + 1) hops target later next small (omega arith) l in
      let end : ttl + 1 + length os ≡ ttl + suc (length os) = omega arith in
      (
        o ∷ os,
        last,
        rest,
        why,
        e
            ∙ ap
                (λ (p : List (Event Double) × Stop).
                  (packet o.reply1 ∷ packet o.reply2 ∷ packet o.reply3 ∷ p.0, p.1))
                e',
        omega (arith, same),
        (timed, g1, g2, g3, routers),
        subst (λ t. IsTarget Double plus pid t last) end is_target,
        λ nought.
            ap
              (λ t.
                line_of Double plus pid nought ttl o
                ∷ (lines_of Double plus pid nought (ttl + 1) os
                    ++ (line_of Double plus pid nought t last ∷ [])))
              (sym end)
            ∙ ap
                (λ x.
                  x
                  ∷ (lines_of Double plus pid nought (ttl + 1) os
                      ++ (line_of Double plus pid nought (ttl + 1 + length os) last ∷ [])))
                (line nought ttl)
            ∙ ap (λ l. route_line nought ttl h ∷ l) (lines nought),
      )
