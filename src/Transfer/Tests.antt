-- ===== src/Transfer/Tests.antt =====
-- A connection that hands out what has arrived packet by packet, and the theorems about it.
use aip_pkussm.Prelude.{
  some_inj, ◌<◌, ℕ, ◌+◌, ◌≤◌, ◌≡◌, ◌↔◌, refl, sym, true, Bool-cases, inl, inr, List, [], ◌∷◌, ◌++◌,
  map, length, take, drop, replicate, pos, ◌∙◌, ap, some, arith, leb, if◌then◌else◌, length-take,
  take-append-drop, append_assoc, zero, suc,
}
use aip_pkussm.Net.{Socket, ok, fault, recv, Streams, IsBounded}
use aip_pkussm.Transfer.{recv_blocks, recv_rest, recv_data}
use aip_pkussm.Transfer.Safety.{recv_data-fault_iff}
use aip_pkussm.Transfer.Pieces.{joined, spread, FillBlocks}
use aip_pkussm.Transfer.Pieces.Whole.{holes, recv_data-pieces}

-- A read takes from the first packet only.
abbrev read_packet : List (List ℕ) → ℕ → List ℕ × List (List ℕ)
read_packet [] n = ([], [])
read_packet (p ∷ packets) n = (take n p, if leb (length p) n then packets else drop n p ∷ packets)

abbrev packets : Socket
packets = record {
  State = List (List ℕ);
  send = λ s b. (true, s);
  recv = λ s n. let (bytes, rest) = read_packet s n in (some bytes, rest);
}

take_all : (n : ℕ) (xs : List ℕ) → length xs ≤ n → take n xs ≡ xs
take_all zero [] h = refl
take_all zero (x ∷ xs) h = absurd (omega arith)
take_all (suc n) [] h = refl
take_all (suc n) (x ∷ xs) h = ap (λ t. x ∷ t) (take_all n xs (omega arith))

rest_of :
    (p : List ℕ) (ps : List (List ℕ)) (n : ℕ)
    → joined (p ∷ ps) ≡ take n p ++ joined (if leb (length p) n then ps else drop n p ∷ ps)
unfolding joined
rest_of p ps n = elim (Bool-cases (leb (length p) n)) [
  | inl e ↦ rw e (ap (λ x. x ++ joined ps) (sym (take_all n p (ground (arith, e)))))
  | inr e ↦ rw e (
      ap (λ x. x ++ joined ps) (sym (take-append-drop n p))
      ∙ append_assoc (take n p) (drop n p) (joined ps))
]

hands_out_packets :
    (s : List (List ℕ)) (n : ℕ)
    → (bytes : List ℕ) × (length bytes ≤ n)
      × ((packets.recv s n).0 ≡ some bytes)
      × (joined s ≡ bytes ++ joined (packets.recv s n).1)
hands_out_packets [] n = ([], omega arith, refl, refl)
hands_out_packets (p ∷ ps) n = (take n p, omega (arith, length-take n p), refl, rest_of p ps n)

abbrev packets-Streams : Streams packets
packets-Streams = record { arrived = joined; hands_out = hands_out_packets }

abbrev song : List ℕ
song = replicate 1024 7

-- The file in two packets, the first of them shorter than a block.
abbrev in_two : List (List ℕ)
in_two = replicate 100 7 ∷ replicate 924 7 ∷ []

recv_data-pieces_example :
    (pieces : List (List ℕ)) × (t : List (List ℕ)) × (recv_data packets (pos (length song)) in_two
      ≡ ok (spread pieces) t)
    × (joined in_two ≡ joined pieces ++ joined t)
    × ((spread pieces ≡ map some song) ↔ FillBlocks pieces)
    × (length (joined t) ≡ holes (spread pieces) + 0)
unfolding joined
recv_data-pieces_example = recv_data-pieces packets packets-Streams song [] in_two refl refl

-- What they leave: 100 bytes, a gap of 412 cells, and 512 bytes of the second packet.
received_in_two :
    recv_data packets (pos 1024) in_two
    ≡ ok (spread (replicate 100 7 ∷ replicate 512 7 ∷ [])) (replicate 412 7 ∷ [])
unfolding recv_data recv_blocks recv_rest recv spread
received_in_two = refl

packets-IsBounded : IsBounded packets
packets-IsBounded [] n bytes e =
    let nothing : [] ≡ bytes = some_inj e in omega (arith, ap length nothing)
packets-IsBounded (p ∷ ps) n bytes e =
    let front : take n p ≡ bytes = some_inj e in omega (arith, ap length front, length-take n p)

-- The 16 bytes that an error message announces.
recv_data-fault_iff_example : (recv_data packets (pos 16) (replicate 16 7 ∷ []) ≡ fault) ↔ (
    (16 < 512)
    × (x : ℕ) × (bytes : List ℕ) × ((packets.recv (replicate 16 7 ∷ []) 16).0 ≡ some (x ∷ bytes)))
recv_data-fault_iff_example =
    recv_data-fault_iff packets packets-IsBounded (pos 16) (replicate 16 7 ∷ [])
