-- ===== src/Traceroute/Datagrams.antt =====
-- What main.cc of A5/Traceroute reads in its buffer: IP and ICMP headers as `Recvfrom` leaves them
-- there. The structs are those of the system's headers, on a machine that stores the low byte first.
pub mod Headers
pub mod Quoted
pub mod Identifiers
use aip_pkussm.Prelude.{
  ℕ, zero, suc, ◌+◌, ◌*◌, ◌/◌, ◌%◌, ◌≤◌, ◌<◌, ◌≡◌, refl, sym, ◌∙◌, ap, Option, none, some, List, [],
  ◌∷◌, ◌++◌, append_assoc, length, length-append, length-drop, drop, drop-append_left, get_elem?,
  get_elem?_of_lt, CString, arith,
}
use aip_pkussm.Traceroute.{send_icmp_packet, echo_bytes}
use aip_pkussm.Traceroute.Hops.{Received, ipproto_icmp}
use aip_pkussm.Traceroute.Hops.Replies.{IsReply}
use aip_pkussm.Traceroute.Hops.Trace.{IsEcho}

abbrev pub icmp_header_len : ℕ
icmp_header_len = 8

-- The members of `struct ip` and `struct icmp` that the code reads.
pub record Ip : Type 0 where
  pub ip_hl : ℕ
  pub ip_p : ℕ

pub record Icmp : Type 0 where
  pub icmp_type : ℕ
  pub icmp_code : ℕ
  pub icmp_id : ℕ
  pub icmp_seq : ℕ

infixl 5 ◌>>=◌
abbrev pub ◌>>=◌ : {A B : Type 0} → Option A → (A → Option B) → Option B
o >>= f = elim o [ none ↦ none | some a ↦ f a ]

-- `(ip*) buffer_ptr`, with the bytes of the buffer from `buffer_ptr` on; `none` for a read behind
-- its end.
unfoldable pub ip_at : List ℕ → Option Ip
ip_at ptr = do
  first ← get_elem? ptr 0
  p ← get_elem? ptr 9
  some (record { ip_hl = first % 16; ip_p = p })

-- `(icmp*) buffer_ptr`
unfoldable pub icmp_at : List ℕ → Option Icmp
icmp_at ptr = do
  type ← get_elem? ptr 0
  code ← get_elem? ptr 1
  id_low ← get_elem? ptr 4
  id_high ← get_elem? ptr 5
  seq_low ← get_elem? ptr 6
  seq_high ← get_elem? ptr 7
  some (record {
    icmp_type = type;
    icmp_code = code;
    icmp_id = id_low + id_high * 256;
    icmp_seq = seq_low + seq_high * 256;
  })

-- `shift_bytes`
abbrev pub shift_bytes : ℕ → List ℕ → List ℕ
shift_bytes count ptr = drop count ptr

-- `Recvfrom` writes over the start of the buffer.
abbrev pub recv_into : List ℕ → List ℕ → List ℕ
recv_into datagram buffer = datagram ++ drop (length datagram) buffer

module _ {Double : Type 0} (source : CString) (elapsed : List Double) where
  -- The headers of a received packet. The second IP header and what stands behind it are used for
  -- the answers "time exceeded" only.
  unfoldable pub received_of : List ℕ → Option (Received Double)
  unfolding ip_at icmp_at
  received_of buffer = do
    ip_packet ← ip_at buffer
    let buffer_ptr = shift_bytes (ip_packet.ip_hl * 4) buffer
    icmp_packet ← icmp_at buffer_ptr
    let behind = shift_bytes icmp_header_len buffer_ptr
    packet_orig ← ip_at behind
    icmp_orig ← icmp_at (shift_bytes (packet_orig.ip_hl * 4) behind)
    some (record {
      source = source;
      icmp_type = icmp_packet.icmp_type;
      icmp_code = icmp_packet.icmp_code;
      icmp_id = icmp_packet.icmp_id;
      icmp_seq = icmp_packet.icmp_seq;
      orig_p = packet_orig.ip_p;
      orig_id = icmp_orig.icmp_id;
      orig_seq = icmp_orig.icmp_seq;
      elapsed = elapsed;
    })
