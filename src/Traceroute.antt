-- ===== src/Traceroute.antt =====
-- The traceroute of A5/Traceroute. Numbers of the machine are their 16 or 32 bits.
pub mod Checksum
pub mod Hops
pub mod Datagrams
pub mod Program
mod Tests
use aip_pkussm.Prelude.{ℕ, ◌+◌, ◌-◌, ◌*◌, ◌/◌, ◌%◌, ◌^◌, List, [], ◌∷◌, leb, if◌then◌else◌}

-- An `int` from a `short`.
abbrev pub sign_extend : ℕ → ℕ
sign_extend x = if leb 32768 x then x + 4294901760 else x

abbrev pub add_int : ℕ → ℕ → ℕ
add_int a b = (a + b) % 4294967296

-- `sum >> 16` of an `int`.
abbrev pub shift_16 : ℕ → ℕ
shift_16 sum = sum / 65536 + (if leb 2147483648 sum then 4294901760 else 0)

-- `htons` on a machine that stores the low byte first, as the words below are read.
abbrev pub htons : ℕ → ℕ
htons x = x % 256 * 256 + x / 256

-- The loop of `in_cksum` and the odd byte behind it.
unfoldable pub sum_words : List ℕ → ℕ → ℕ
sum_words [] sum = sum
sum_words (b ∷ []) sum = add_int sum (htons (b * 256 % 65536))
sum_words (lo ∷ hi ∷ bytes) sum = sum_words bytes (add_int sum (sign_extend (lo + hi * 256)))

-- The carries, and `answer`, the low 16 bits of `~sum`.
unfoldable pub fold_sum : ℕ → ℕ
fold_sum sum =
    let once = add_int (shift_16 sum) (sum % 65536) in
    let twice = add_int once (shift_16 once) in 65535 - twice % 65536

unfoldable pub in_cksum : List ℕ → ℕ → ℕ
in_cksum bytes csum = fold_sum (sum_words bytes (sign_extend csum))

-- The eight bytes of the echo request of `sendIcmpPacket`, with the checksum in its third and
-- fourth byte: ICMP_ECHO is 8, and the members are 16 bits wide.
abbrev pub echo_bytes : ℕ → ℕ → ℕ → List ℕ
echo_bytes cksum pid ttl =
    8
    ∷ 0
    ∷ cksum % 256
    ∷ cksum / 256 % 256
    ∷ pid % 256
    ∷ pid / 256 % 256
    ∷ ttl % 256
    ∷ ttl / 256 % 256
    ∷ []

-- The packet that `sendIcmpPacket` hands to `Sendto`.
unfoldable pub send_icmp_packet : ℕ → ℕ → List ℕ
unfolding in_cksum
send_icmp_packet pid ttl = echo_bytes (in_cksum (echo_bytes 0 pid ttl) 0) pid ttl
