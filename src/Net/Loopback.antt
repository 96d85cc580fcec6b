-- ===== src/Net/Loopback.antt =====
-- A socket whose peer takes every byte, and whose bytes to receive are given: the assumptions
-- `Delivers` and `Feeds` can be met.
use aip_pkussm.Prelude.{ℕ, zero, suc, ◌≡◌, refl, ap, true, some, List, [], ◌++◌, take, drop}
use aip_pkussm.Net.{Socket, Delivers, Feeds, Link}

pub record Wires : Type 0 where
  pub out : List ℕ
  pub input : List ℕ

abbrev pub loopback : Socket
loopback = record {
  State = Wires;
  send = λ s b. (true, record s { out = s.out ++ b });
  recv = λ s n. (some (take n s.input), record s { input = drop n s.input });
}

abbrev pub loopback-Delivers : Delivers loopback
loopback-Delivers = record { sent = λ s. s.out; good = λ s b. refl; grows = λ s b. refl }

abbrev pub loopback-Feeds : Feeds loopback
loopback-Feeds = record { pending = λ s. s.input; takes = λ s n h. refl; leaves = λ s n h. refl }

abbrev pub fed : List ℕ → Wires
fed bytes = record { out = []; input = bytes }

abbrev pub loopback-Link : Link loopback
loopback-Link = record {
  delivers = loopback-Delivers;
  feeds = loopback-Feeds;
  send_keeps = λ s b. refl;
  recv_keeps = λ s n. refl;
}

take_nil : (n : ℕ) → take {A = ℕ} n [] ≡ []
take_nil zero = refl
take_nil (suc n) = refl

-- When everything has been received the connection is at its end.
pub loopback_over : (s : Wires) (n : ℕ) → s.input ≡ [] → (loopback.recv s n).0 ≡ some []
loopback_over s n e = rw e (ap some (take_nil n))
