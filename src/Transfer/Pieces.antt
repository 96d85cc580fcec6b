-- ===== src/Transfer/Pieces.antt =====
-- What the receivers make of a stream that hands out the bytes in pieces of any size.
pub mod Whole
use aip_pkussm.Prelude.{
  ℕ, zero, suc, ◌+◌, ◌-◌, ◌*◌, ◌≤◌, ◌≡◌, refl, sym, List, [], ◌∷◌, ◌++◌, map, length, drop, arith,
  append-nil, append_assoc, replicate, pos, ◌∙◌, ap, some, none, Option, length-replicate,
  length-map, length-append, drop-replicate,
}
use aip_pkussm.Net.{Socket, Io, ok, recv, Streams}
use aip_pkussm.Transfer.{Buffer, store, recv_blocks, recv_rest, recv_data}
use aip_pkussm.Transfer.Recv.{store-append, recv_blocks-suc}

-- The bytes of pieces in a row.
unfoldable pub joined : List (List ℕ) → List ℕ
joined [] = []
joined (p ∷ pieces) = p ++ joined pieces

-- Each piece at the start of a block of its own, and what is left of the block as it was.
abbrev pub padded : List ℕ → Buffer
padded p = map some p ++ replicate (512 - length p) none

unfoldable pub spread : List (List ℕ) → Buffer
spread [] = []
spread (p ∷ pieces) = padded p ++ spread pieces

abbrev pub FitBlocks : List (List ℕ) → Type 0
FitBlocks [] = Unit
FitBlocks (p ∷ pieces) = (length p ≤ 512) × FitBlocks pieces

abbrev pub FillBlocks : List (List ℕ) → Type 0
FillBlocks [] = Unit
FillBlocks (p ∷ pieces) = (length p ≡ 512) × FillBlocks pieces

replicate-add :
    (m n : ℕ) → replicate {A = Option ℕ} (m + n) none ≡ replicate m none ++ replicate n none
replicate-add zero n = let e : zero + n ≡ n = omega arith in rw e refl
replicate-add (suc m) n =
    let e : suc m + n ≡ suc (m + n) = omega arith in rw e (ap (λ x. none ∷ x) (replicate-add m n))

length-padded : (p : List ℕ) → length p ≤ 512 → length (padded p) ≡ 512
length-padded p h = omega (
  arith,
  length-append (map {B = Option ℕ} some p) (replicate (512 - length p) none),
  length-map {B = Option ℕ} p some,
  length-replicate {A = Option ℕ} (512 - length p) none,
)

-- A piece that is written to the start of the blocks that are left.
store_piece :
    (front : Buffer) (i left : ℕ) (p : List ℕ)
    → i * 512 ≡ length front
    → length p ≤ 512
    → store (front ++ replicate (suc left * 512) none) (i * 512) p
      ≡ some ((front ++ padded p) ++ replicate (left * 512) none)
store_piece front i left p at h =
    let room : length p ≤ length (replicate {A = Option ℕ} (suc left * 512) none) =
      omega (arith, length-replicate {A = Option ℕ} (suc left * 512) none) in
    let behind : drop (length p) (replicate {A = Option ℕ} (suc left * 512) none)
        ≡ replicate (512 - length p) none ++ replicate (left * 512) none =
      ap (λ n. drop (length p) (replicate {A = Option ℕ} n none)) (omega arith)
      ∙ drop-replicate (length p) (512 - length p + left * 512) none
      ∙ replicate-add (512 - length p) (left * 512) in
    store-append front (replicate (suc left * 512) none) (i * 512) p at room
    ∙ ap some (
        ap (λ x. front ++ (map some p ++ x)) behind
        ∙ ap (λ x. front ++ x) (sym (append_assoc (map some p) _ _))
        ∙ sym (append_assoc front (padded p) _))

module _ (k : Socket) (d : Streams k) where
  open d use {arrived, hands_out}

  recv-piece :
      (n : ℕ) (s : k.State)
      → (p : List ℕ) × (t : k.State) × (recv k n s ≡ ok p t)
        × (length p ≤ n)
        × (arrived s ≡ p ++ arrived t)
  unfolding recv
  recv-piece n s =
      let (p, short, got, left) = hands_out s n in
      (p, (k.recv s n).1, rw (recv, got) refl, short, left)

  -- The rounds that are left put a piece each at the start of their block.
  recv_blocks-spread :
      (left i : ℕ) (front : Buffer) (s : k.State)
      → i * 512 ≡ length front
      → (pieces : List (List ℕ)) × (t : k.State) × (recv_blocks k
            (front ++ replicate (left * 512) none)
            i
            left
            s
          ≡ ok (front ++ spread pieces, i + left) t)
        × (length pieces ≡ left)
        × FitBlocks pieces
        × (arrived s ≡ joined pieces ++ arrived t)
  unfolding recv_blocks spread joined
  recv_blocks-spread zero i front s at =
      let e : i + 0 ≡ i = omega arith in ([], s, rw e refl, refl, tt, refl)
  recv_blocks-spread (suc left) i front s at =
      let (p, t, got, short, later) = recv-piece 512 s in
      let (pieces, u, run, count, fit, rest) =
        recv_blocks-spread left (i + 1) (front ++ padded p) t
          (omega (arith, length-append front (padded p), length-padded p short)) in
      let i1 : i + 1 + left ≡ i + suc left = omega arith in
      (
        p ∷ pieces,
        u,
        recv_blocks-suc k left i _ _ p s t got (store_piece front i left p at short)
            ∙ run
            ∙ ap (λ b. ok (b, i + 1 + left) u) (append_assoc front (padded p) (spread pieces))
            ∙ ap (λ n. ok (front ++ (padded p ++ spread pieces), n) u) i1,
        ap suc count,
        (short, fit),
        later ∙ ap (λ x. p ++ x) rest ∙ sym (append_assoc p (joined pieces) (arrived u)),
      )
