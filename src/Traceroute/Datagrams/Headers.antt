-- ===== src/Traceroute/Datagrams/Headers.antt =====
-- Where the headers of a received packet are found.
use aip_pkussm.Prelude.{
  ℕ, zero, suc, ◌+◌, ◌*◌, ◌%◌, ◌≤◌, ◌<◌, ◌≡◌, refl, sym, ◌∙◌, ap, some, List, [], ◌∷◌, ◌++◌,
  append_assoc, length, length-append, length-drop, drop-append_left, get_elem?, get_elem?_of_lt,
  CString, arith,
}
use aip_pkussm.Traceroute.Hops.{Received}
use aip_pkussm.Traceroute.Datagrams.{Ip, Icmp, ip_at, icmp_at, shift_bytes, received_of}

-- An IP header: its first byte, eight bytes, the protocol, and the others, of which there are as many
-- as the first byte says.
pub record IpBytes : Type 0 where
  pub first : ℕ
  pub middle : List ℕ
  pub proto : ℕ
  pub others : List ℕ
  pub middle_len : length middle ≡ 8
  pub header_len : 10 + length others ≡ first % 16 * 4

abbrev pub bytes_of : IpBytes → List ℕ
bytes_of h = h.first ∷ (h.middle ++ (h.proto ∷ h.others))

get_elem?-behind :
    (n : ℕ) (front : List ℕ) (x : ℕ) (ys : List ℕ)
    → length front ≡ n
    → get_elem? (front ++ (x ∷ ys)) n ≡ some x
get_elem?-behind zero [] x ys e = refl
get_elem?-behind zero (y ∷ front) x ys e = absurd (omega arith)
get_elem?-behind (suc n) [] x ys e = absurd (omega arith)
get_elem?-behind (suc n) (y ∷ front) x ys e = get_elem?-behind n front x ys (omega arith)

module _ (h : IpBytes) (more : List ℕ) where
  pub ip_at-bytes :
      ip_at (bytes_of h ++ more) ≡ some (record { ip_hl = h.first % 16; ip_p = h.proto })
  unfolding ip_at
  ip_at-bytes =
      let at =
        ap (λ l. get_elem? l 8) (append_assoc h.middle (h.proto ∷ h.others) more)
        ∙ get_elem?-behind 8 h.middle h.proto (h.others ++ more) h.middle_len in
      ground (arith, at)

  length-bytes_of : length (bytes_of h) ≡ h.first % 16 * 4
  length-bytes_of =
      omega (arith, length-append h.middle (h.proto ∷ h.others), h.middle_len, h.header_len)

  pub behind-bytes : shift_bytes (h.first % 16 * 4) (bytes_of h ++ more) ≡ more
  behind-bytes = drop-append_left (h.first % 16 * 4) (bytes_of h) more (sym length-bytes_of)

-- What `icmp_at` finds in the first eight bytes.
abbrev pub icmp_of : (type code i1 i2 s1 s2 : ℕ) → Icmp
icmp_of type code i1 i2 s1 s2 = record {
  icmp_type = type;
  icmp_code = code;
  icmp_id = i1 + i2 * 256;
  icmp_seq = s1 + s2 * 256;
}

module _ {Double : Type 0} (source : CString) (elapsed : List Double) where
  pub received_of-bytes :
      (outer inner : IpBytes) (t c k1 k2 i1 i2 s1 s2 t' c' k1' k2' i1' i2' s1' s2' : ℕ)
      (more : List ℕ)
      → received_of source elapsed (
          bytes_of outer
          ++ (t
              ∷ c
              ∷ k1
              ∷ k2
              ∷ i1
              ∷ i2
              ∷ s1
              ∷ s2
              ∷ (bytes_of inner ++ (t' ∷ c' ∷ k1' ∷ k2' ∷ i1' ∷ i2' ∷ s1' ∷ s2' ∷ more))))
        ≡ some (record {
          source = source;
          icmp_type = t;
          icmp_code = c;
          icmp_id = i1 + i2 * 256;
          icmp_seq = s1 + s2 * 256;
          orig_p = inner.proto;
          orig_id = i1' + i2' * 256;
          orig_seq = s1' + s2' * 256;
          elapsed = elapsed;
        })
  unfolding received_of icmp_at
  received_of-bytes outer inner t c k1 k2 i1 i2 s1 s2 t' c' k1' k2' i1' i2' s1' s2' more =
      let tail : List ℕ = t' ∷ c' ∷ k1' ∷ k2' ∷ i1' ∷ i2' ∷ s1' ∷ s2' ∷ more in
      let rest : List ℕ = t ∷ c ∷ k1 ∷ k2 ∷ i1 ∷ i2 ∷ s1 ∷ s2 ∷ (bytes_of inner ++ tail) in
      rw
        (
          ip_at-bytes outer rest,
          behind-bytes outer rest,
          ip_at-bytes inner tail,
          behind-bytes inner tail,
        )
        refl

-- Every read of an IP header finds one when ten bytes are left, and of an ICMP header when eight are.
ip_at-within : (ptr : List ℕ) → 10 ≤ length ptr → (h : Ip) × (ip_at ptr ≡ some h) × (h.ip_hl < 16)
unfolding ip_at
ip_at-within ptr enough =
    let (first, a) = get_elem?_of_lt ptr 0 (omega arith) in
    let (p, b) = get_elem?_of_lt ptr 9 (omega arith) in
    (record { ip_hl = first % 16; ip_p = p }, ground (arith, a, b), omega arith)

icmp_at-within : (ptr : List ℕ) → 8 ≤ length ptr → (h : Icmp) × (icmp_at ptr ≡ some h)
unfolding icmp_at
icmp_at-within ptr enough =
    let (t, a) = get_elem?_of_lt ptr 0 (omega arith) in
    let (c, b) = get_elem?_of_lt ptr 1 (omega arith) in
    let (i1, d) = get_elem?_of_lt ptr 4 (omega arith) in
    let (i2, e) = get_elem?_of_lt ptr 5 (omega arith) in
    let (s1, f) = get_elem?_of_lt ptr 6 (omega arith) in
    let (s2, g) = get_elem?_of_lt ptr 7 (omega arith) in
    (icmp_of t c i1 i2 s1 s2, ground (arith, a, b, d, e, f, g))

-- The first two headers are found where they are, and the others somewhere within the buffer.
module _ {Double : Type 0} (source : CString) (elapsed : List Double) where
  pub received_of-within :
      (buffer : List ℕ) (h : Ip) (i : Icmp)
      → ip_at buffer ≡ some h
      → h.ip_hl < 16
      → icmp_at (shift_bytes (h.ip_hl * 4) buffer) ≡ some i
      → 136 ≤ length buffer
      → (r : Received Double) × (received_of source elapsed buffer ≡ some r)
        × (r.icmp_type ≡ i.icmp_type)
        × (r.icmp_id ≡ i.icmp_id)
        × (r.icmp_seq ≡ i.icmp_seq)
        × (r.source ≡ source)
        × (r.elapsed ≡ elapsed)
  unfolding received_of
  received_of-within buffer h i first few second enough =
      let ptr = shift_bytes (h.ip_hl * 4) buffer in
      let behind = shift_bytes 8 ptr in
      let l1 = length-drop (h.ip_hl * 4) buffer in
      let l2 = length-drop 8 ptr in
      let (orig, a, low) = ip_at-within behind (omega (arith, l1, l2)) in
      let (inner, b) =
        icmp_at-within (shift_bytes (orig.ip_hl * 4) behind)
          (omega (arith, l1, l2, length-drop (orig.ip_hl * 4) behind)) in
      (
        record {
          source = source;
          icmp_type = i.icmp_type;
          icmp_code = i.icmp_code;
          icmp_id = i.icmp_id;
          icmp_seq = i.icmp_seq;
          orig_p = orig.ip_p;
          orig_id = inner.icmp_id;
          orig_seq = inner.icmp_seq;
          elapsed = elapsed;
        },
        ground (arith, first, second, a, b),
        refl,
        refl,
        refl,
        refl,
        refl,
      )

  -- Whatever is received, each header that is read lies within the first 136 bytes of the buffer,
  -- which has 65536.
  pub received_of-bounds :
      (buffer : List ℕ)
      → 136 ≤ length buffer
      → (r : Received Double) × (received_of source elapsed buffer ≡ some r)
  received_of-bounds buffer enough =
      let (h, a, low) = ip_at-within buffer (omega arith) in
      let (i, b) =
        icmp_at-within (shift_bytes (h.ip_hl * 4) buffer)
          (omega (arith, length-drop (h.ip_hl * 4) buffer)) in
      let found = received_of-within buffer h i a low b enough in (found.0, found.1)
