-- ===== src/Traceroute/Checksum.antt =====
-- Whether the checksum is the one of RFC 1071.
use aip_pkussm.Prelude.{
  Bool-cases, inl, inr, ℕ, ◌+◌, ◌-◌, ◌*◌, ◌/◌, ◌%◌, ◌≤◌, ◌<◌, ◌≡◌, ◌∙◌, ap, List, [], ◌∷◌, leb,
  if◌then◌else◌, arith,
}
use aip_pkussm.Traceroute.{
  add_int, sign_extend, sum_words, fold_sum, in_cksum, send_icmp_packet, echo_bytes,
}

-- The sum of the words of a packet: the checksum of the packet is right if it is a multiple of
-- 65535.
unfoldable pub word_sum : List ℕ → ℕ
word_sum [] = 0
word_sum (b ∷ []) = b
word_sum (lo ∷ hi ∷ bytes) = lo + hi * 256 + word_sum bytes

-- All bytes are below 256, and no word has its top bit set; the words are at most `n`.
abbrev pub ArePositive : ℕ → List ℕ → Type 0
ArePositive n [] = Unit
ArePositive n (b ∷ []) = (b < 256) × (0 < n)
ArePositive n (lo ∷ hi ∷ bytes) = (lo < 256) × (hi < 128) × (0 < n) × ArePositive (n - 1) bytes

fold_sum-small : (s : ℕ) → s < 2147483648 → (fold_sum s + s) % 65535 ≡ 0
unfolding fold_sum
fold_sum-small s h = ground arith

sum_words-positive :
    (n : ℕ) (bytes : List ℕ) (sum : ℕ)
    → ArePositive n bytes
    → sum + n * 32768 < 2147483648
    → (sum_words bytes sum ≡ sum + word_sum bytes) × (sum + word_sum bytes < 2147483648)
unfolding sum_words word_sum
sum_words-positive n [] sum p h = (omega arith, omega arith)
sum_words-positive n (b ∷ []) sum p h = (omega arith, omega arith)
sum_words-positive n (lo ∷ hi ∷ bytes) sum p h =
    let next : add_int sum (sign_extend (lo + hi * 256)) ≡ sum + (lo + hi * 256) = ground arith in
    let (a, b) = sum_words-positive (n - 1) bytes (sum + (lo + hi * 256)) p.3 (omega arith) in
    (ap (sum_words bytes) next ∙ a ∙ omega arith, omega (arith, b))

-- With `csum` 0, the checksum of bytes in at most 65535 words, none of which has its top bit set,
-- is right: added to the words it gives a multiple of 65535.
pub in_cksum-positive :
    (bytes : List ℕ) → ArePositive 65535 bytes → (in_cksum bytes 0 + word_sum bytes) % 65535 ≡ 0
unfolding in_cksum
in_cksum-positive bytes p =
    let (a, b) = sum_words-positive 65535 bytes 0 p (omega arith) in
    let s : sum_words bytes 0 ≡ word_sum bytes = a ∙ omega arith in
    ap (λ x. (fold_sum x + word_sum bytes) % 65535) s
    ∙ fold_sum-small (word_sum bytes) (omega (arith, b))

-- A word with its top bit set comes into the sum as a negative number.
fold_sum-negative :
    (v : ℕ) → 32768 ≤ v → v < 65600 → (fold_sum ((v + 4294901760) % 4294967296) + v) % 65535 ≡ 1
unfolding fold_sum
fold_sum-negative v h g = ground arith

fold_sum-bound : (s : ℕ) → fold_sum s < 65536
unfolding fold_sum
fold_sum-bound s = omega arith

word_sum-echo :
    (cksum pid ttl : ℕ)
    → cksum < 65536
    → ttl < 32
    → word_sum (echo_bytes cksum pid ttl) ≡ cksum + (8 + pid % 65536 + ttl)
unfolding word_sum
word_sum-echo cksum pid ttl h t = omega arith

sum_words-echo :
    (pid ttl : ℕ)
    → ttl < 32
    → sum_words (echo_bytes 0 pid ttl) 0 ≡ (
        if leb 32768 (pid % 65536)
        then (8 + pid % 65536 + ttl + 4294901760) % 4294967296
        else 8 + pid % 65536 + ttl)
unfolding sum_words
sum_words-echo pid ttl t =
    let id : pid % 256 + pid / 256 % 256 * 256 ≡ pid % 65536 = omega arith in
    let last : ttl % 256 + ttl / 256 % 256 * 256 ≡ ttl = omega arith in rw (id, last) (ground arith)

-- The echo request that `sendIcmpPacket` sends for a ttl below 32 has a right checksum if the low
-- 16 bits of the process id are below 32768.
send_icmp_packet-right :
    (pid ttl : ℕ) → ttl < 32 → pid % 65536 < 32768 → word_sum (send_icmp_packet pid ttl) % 65535 ≡ 0
unfolding send_icmp_packet in_cksum
send_icmp_packet-right pid ttl t low =
    let v = 8 + pid % 65536 + ttl in
    ground (
      arith,
      word_sum-echo (fold_sum (sum_words (echo_bytes 0 pid ttl) 0)) pid ttl,
      fold_sum-bound (sum_words (echo_bytes 0 pid ttl) 0),
      sum_words-echo pid ttl t,
      fold_sum-small v (omega arith),
    )

-- The echo request that `sendIcmpPacket` sends for a ttl below 32 has a checksum that is wrong by
-- one if the low 16 bits of the process id are 32768 or more.
send_icmp_packet-wrong :
    (pid ttl : ℕ) → ttl < 32 → 32768 ≤ pid % 65536 → word_sum (send_icmp_packet pid ttl) % 65535 ≡ 1
unfolding send_icmp_packet in_cksum
send_icmp_packet-wrong pid ttl t high =
    let v = 8 + pid % 65536 + ttl in
    ground (
      arith,
      word_sum-echo (fold_sum (sum_words (echo_bytes 0 pid ttl) 0)) pid ttl,
      fold_sum-bound (sum_words (echo_bytes 0 pid ttl) 0),
      sum_words-echo pid ttl t,
      fold_sum-negative v (omega arith) (omega arith),
    )

-- The echo request that `sendIcmpPacket` sends for a ttl below 32 has a right checksum exactly if the
-- low 16 bits of the process id are below 32768: the sum of its words, which should be a multiple of
-- 65535, is one more for the other process ids.
pub send_icmp_packet-checksum :
    (pid ttl : ℕ)
    → ttl < 32
    → word_sum (send_icmp_packet pid ttl) % 65535 ≡ (if leb 32768 (pid % 65536) then 1 else 0)
send_icmp_packet-checksum pid ttl low = elim (Bool-cases (leb 32768 (pid % 65536))) [
  | inl e ↦
      let high : 32768 ≤ pid % 65536 = ground (arith, e) in
      rw e (send_icmp_packet-wrong pid ttl low high)
  | inr e ↦
      let under : pid % 65536 < 32768 = ground (arith, e) in
      rw e (send_icmp_packet-right pid ttl low under)
]
