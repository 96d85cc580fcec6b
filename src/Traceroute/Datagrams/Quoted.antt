-- ===== src/Traceroute/Datagrams/Quoted.antt =====
-- The answers to a request of the traceroute, byte by byte.
use aip_pkussm.Prelude.{
  ℕ, ◌*◌, ◌/◌, ◌%◌, ◌≤◌, ◌<◌, ◌≡◌, refl, ◌∙◌, ap, some, List, ◌∷◌, ◌++◌, append_assoc, length,
  length-append, length-drop, drop, CString, arith,
}
use aip_pkussm.Traceroute.{send_icmp_packet, echo_bytes, in_cksum}
use aip_pkussm.Traceroute.Hops.{Received, ipproto_icmp}
use aip_pkussm.Traceroute.Hops.Replies.{IsReply}
use aip_pkussm.Traceroute.Hops.Trace.{IsEcho}
use aip_pkussm.Traceroute.Datagrams.{ip_at, icmp_at, shift_bytes, recv_into, received_of}
use aip_pkussm.Traceroute.Datagrams.Headers.{
  IpBytes, bytes_of, icmp_of, ip_at-bytes, behind-bytes, received_of-bytes, received_of-within,
}

-- What a router sends back for a request whose ttl has run out: an IP header, an ICMP header, and the
-- request with the IP header that it came with.
pub record Exceeded : Type 0 where
  pub outer : IpBytes
  pub check1 : ℕ
  pub check2 : ℕ
  pub unused1 : ℕ
  pub unused2 : ℕ
  pub unused3 : ℕ
  pub unused4 : ℕ
  pub inner : IpBytes
  pub extra : List ℕ
  pub is_icmp : inner.proto ≡ ipproto_icmp

abbrev pub exceeded_bytes : Exceeded → ℕ → ℕ → List ℕ
exceeded_bytes x pid ttl =
    bytes_of x.outer
    ++ (11
        ∷ 0
        ∷ x.check1
        ∷ x.check2
        ∷ x.unused1
        ∷ x.unused2
        ∷ x.unused3
        ∷ x.unused4
        ∷ (bytes_of x.inner ++ (send_icmp_packet pid ttl ++ x.extra)))

-- What the target sends back for a request: an IP header, and an ICMP header with the identifier and
-- the number of the request.
pub record Replied : Type 0 where
  pub outer : IpBytes
  pub code : ℕ
  pub check1 : ℕ
  pub check2 : ℕ
  pub extra : List ℕ

abbrev pub replied_bytes : Replied → ℕ → ℕ → List ℕ
replied_bytes x pid ttl =
    bytes_of x.outer
    ++ (0
        ∷ x.code
        ∷ x.check1
        ∷ x.check2
        ∷ pid % 256
        ∷ pid / 256 % 256
        ∷ ttl % 256
        ∷ ttl / 256 % 256
        ∷ x.extra)

pub length-recv_into :
    (datagram buffer : List ℕ) → length buffer ≤ length (recv_into datagram buffer)
length-recv_into datagram buffer = omega (
  arith,
  length-append datagram (drop (length datagram) buffer),
  length-drop (length datagram) buffer,
)

module _ (Double : Type 0) (plus : Double → Double → Double) (source : CString)
    (elapsed : List Double) (pid ttl : ℕ) (small : pid < 65536) (low : ttl < 65536)
    (buffer : List ℕ) where
  pub exceeded-IsReply :
      (x : Exceeded)
      → (r : Received Double) × (received_of source elapsed
            (recv_into (exceeded_bytes x pid ttl) buffer)
          ≡ some r)
        × IsReply Double plus pid ttl ttl r
        × (r.source ≡ source)
        × (r.elapsed ≡ elapsed)
  unfolding send_icmp_packet
  exceeded-IsReply x =
      let stale = drop (length (exceeded_bytes x pid ttl)) buffer in
      let request = send_icmp_packet pid ttl in
      let ck = in_cksum (echo_bytes 0 pid ttl) 0 in
      let head : List ℕ → List ℕ =
        λ l. 11 ∷ 0 ∷ x.check1 ∷ x.check2 ∷ x.unused1 ∷ x.unused2 ∷ x.unused3 ∷ x.unused4 ∷ l in
      let flat =
        append_assoc (bytes_of x.outer) (head (bytes_of x.inner ++ (request ++ x.extra))) stale
        ∙ ap (λ l. bytes_of x.outer ++ head l)
            (append_assoc (bytes_of x.inner) (request ++ x.extra) stale
              ∙ ap (λ l. bytes_of x.inner ++ l) (append_assoc request x.extra stale)) in
      let e =
        ap (received_of source elapsed) flat
        ∙ received_of-bytes source elapsed x.outer x.inner 11 0 x.check1 x.check2 x.unused1
            x.unused2 x.unused3 x.unused4 8 0 (ck % 256) (ck / 256 % 256) (pid % 256)
            (pid / 256 % 256) (ttl % 256) (ttl / 256 % 256) (x.extra ++ stale) in
      (
        _,
        e,
        record {
          exceeded = refl;
          code = refl;
          proto = x.is_icmp;
          ours = omega arith;
          hop = omega arith;
        },
        refl,
        refl,
      )

  pub replied-IsEcho :
      (x : Replied)
      → 136 ≤ length buffer
      → (r : Received Double) × (received_of source elapsed
            (recv_into (replied_bytes x pid ttl) buffer)
          ≡ some r)
        × IsEcho Double plus pid ttl r
        × (r.source ≡ source)
        × (r.elapsed ≡ elapsed)
  unfolding icmp_at
  replied-IsEcho x enough =
      let datagram = replied_bytes x pid ttl in
      let stale = drop (length datagram) buffer in
      let rest : List ℕ =
        0
        ∷ x.code
        ∷ x.check1
        ∷ x.check2
        ∷ pid % 256
        ∷ pid / 256 % 256
        ∷ ttl % 256
        ∷ ttl / 256 % 256
        ∷ x.extra in
      let flat = append_assoc (bytes_of x.outer) rest stale in
      let (r, e, type, id, seq, from, times) =
        received_of-within source elapsed (recv_into datagram buffer)
          (record { ip_hl = x.outer.first % 16; ip_p = x.outer.proto })
          (icmp_of 0 x.code (pid % 256) (pid / 256 % 256) (ttl % 256) (ttl / 256 % 256))
          (ap ip_at flat ∙ ip_at-bytes x.outer (rest ++ stale)) (omega arith)
          (ap (λ l. icmp_at (shift_bytes (x.outer.first % 16 * 4) l)) flat
            ∙ ap icmp_at (behind-bytes x.outer (rest ++ stale)))
          (omega (arith, length-recv_into datagram buffer)) in
      (r, e, record { echo = type; ours = id ∙ omega arith; hop = seq ∙ omega arith }, from, times)
