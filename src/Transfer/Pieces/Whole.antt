-- ===== src/Transfer/Pieces/Whole.antt =====
-- When a file that came in pieces has been received.
use mathlib.Core.List.{map-append}
use aip_pkussm.Prelude.{
  ℕ, zero, suc, ◌+◌, ◌-◌, ◌*◌, ◌/◌, ◌%◌, ◌≤◌, ◌≡◌, ◌↔◌, refl, sym, List, [], ◌∷◌, ◌++◌, map, length,
  take, arith, append-nil, replicate, pos, ◌∙◌, ap, some, none, Option, length-append,
  take-append_left, take-append-drop,
}
use aip_pkussm.Net.{Socket, ok, recv, Streams}
use aip_pkussm.Transfer.{Buffer, store, store_last, recv_blocks, recv_rest, recv_data}
use aip_pkussm.Transfer.Pieces.{
  joined, padded, spread, FitBlocks, FillBlocks, length-padded, recv-piece, recv_blocks-spread,
}

-- The cells that nothing was written to.
unfoldable pub holes : Buffer → ℕ
holes [] = 0
holes (none ∷ cells) = suc (holes cells)
holes (some b ∷ cells) = holes cells

holes-append : (xs ys : Buffer) → holes (xs ++ ys) ≡ holes xs + holes ys
unfolding holes
holes-append [] ys = omega arith
holes-append (none ∷ xs) ys = omega (arith, holes-append xs ys)
holes-append (some b ∷ xs) ys = holes-append xs ys

holes-some : (bytes : List ℕ) → holes (map some bytes) ≡ 0
unfolding holes
holes-some [] = refl
holes-some (b ∷ bytes) = holes-some bytes

holes-none : (n : ℕ) → holes (replicate n none) ≡ n
unfolding holes
holes-none zero = refl
holes-none (suc n) = ap suc (holes-none n)

holes-padded : (p : List ℕ) → holes (padded p) ≡ 512 - length p
holes-padded p = omega (
  arith,
  holes-append (map some p) (replicate (512 - length p) none),
  holes-some p,
  holes-none (512 - length p),
)

fill_of_holes :
    (pieces : List (List ℕ)) → FitBlocks pieces → holes (spread pieces) ≡ 0 → FillBlocks pieces
unfolding spread holes
fill_of_holes [] fit e = tt
fill_of_holes (p ∷ pieces) (short, fit) e =
    let sum = holes-append (padded p) (spread pieces) in
    let hole = holes-padded p in (omega arith, fill_of_holes pieces fit (omega arith))

spread_full :
    (pieces : List (List ℕ)) → FillBlocks pieces → spread pieces ≡ map some (joined pieces)
unfolding spread joined
spread_full [] full = refl
spread_full (p ∷ pieces) (e, full) =
    let z : 512 - length p ≡ 0 = omega arith in
    rw (z, append-nil (map {B = Option ℕ} some p), spread_full pieces full)
      (sym (map-append some p (joined pieces)))

-- What a piece lacks of a block is a hole.
length-joined :
    (pieces : List (List ℕ))
    → FitBlocks pieces
    → length (joined pieces) + holes (spread pieces) ≡ length pieces * 512
unfolding joined spread holes
length-joined [] fit = refl
length-joined (p ∷ pieces) (short, fit) = omega (
  arith,
  length-append p (joined pieces),
  holes-append (padded p) (spread pieces),
  holes-padded p,
  length-joined pieces fit,
)

holes_of_fill : (pieces : List (List ℕ)) → FillBlocks pieces → holes (spread pieces) ≡ 0
holes_of_fill pieces full = ap holes (spread_full pieces full) ∙ holes-some (joined pieces)

length-spread :
    (pieces : List (List ℕ)) → FitBlocks pieces → length (spread pieces) ≡ length pieces * 512
unfolding spread
length-spread [] fit = refl
length-spread (p ∷ pieces) (short, fit) = omega (
  arith,
  length-append (padded p) (spread pieces),
  length-padded p short,
  length-spread pieces fit,
)

-- A write of no bytes changes nothing.
store_nothing : (buff : Buffer) (off : ℕ) → off ≤ length buff → store buff off [] ≡ some buff
store_nothing buff off h =
    let e : off + 0 ≡ off = omega arith in rw e (ground (arith, take-append-drop off buff))

store_last_nothing :
    (buff : Buffer) (i : ℕ) → i * 512 ≤ length buff → store_last buff i [] ≡ some buff
store_last_nothing buff zero h = refl
store_last_nothing buff (suc j) h = store_nothing buff (j * 512) (omega arith)

nil_of_length : (xs : List ℕ) → length xs ≤ 0 → xs ≡ []
nil_of_length [] h = refl
nil_of_length (x ∷ xs) h = absurd (omega arith)

-- A read of no bytes takes none.
recv-nothing :
    (k : Socket) (d : Streams k) (s : k.State)
    → (t : k.State) × (recv k 0 s ≡ ok [] t) × (d.arrived s ≡ d.arrived t)
recv-nothing k d s =
    let (last, t, got, short, later) = recv-piece k d 0 s in
    let e = nil_of_length last short in
    (t, got ∙ ap (λ b. ok b t) e, later ∙ ap (λ b. b ++ d.arrived t) e)

recv_data-blocks :
    (k : Socket) (n : ℕ) (buff : Buffer) (s t u : k.State)
    → recv_blocks k (replicate (n * 512) none) 0 n s ≡ ok (buff, 0 + n) t
    → recv k 0 t ≡ ok [] u
    → store_last buff n [] ≡ some buff
    → recv_data k (pos (n * 512)) s ≡ ok buff u
unfolding recv_data recv_rest
recv_data-blocks k n buff s t u a b c =
    let q : n * 512 / 512 ≡ n = omega arith in
    let r : n * 512 % 512 ≡ 0 = omega arith in
    let z : 0 + n ≡ n = omega arith in rw (q, r) (ground (arith, a, b, c, z))

module _ (k : Socket) (d : Streams k) (file more : List ℕ) (s : k.State) where
  open d use {arrived}

  -- The pieces whose bytes are those that have arrived, as many as the file has blocks.
  whole_iff :
      (pieces : List (List ℕ)) (left : List ℕ)
      → FitBlocks pieces
      → length pieces * 512 ≡ length file
      → file ++ more ≡ joined pieces ++ left
      → (spread pieces ≡ map some file) ↔ FillBlocks pieces
  whole_iff pieces left fit count same = (
    (λ e. fill_of_holes pieces fit (ap holes e ∙ holes-some file)),
    (λ full.
        let long : length file ≡ length (joined pieces) =
          omega (arith, length-joined pieces fit, holes_of_fill pieces full) in
        spread_full pieces full
        ∙ ap (map some) (
            sym (take-append_left (length file) (joined pieces) left long)
            ∙ ap (take (length file)) (sym same)
            ∙ take-append_left (length file) file more refl)),
  )

  -- A receiver on a connection that hands out the bytes in pieces of any size, for a file of whole
  -- blocks all of whose bytes have arrived: each read puts its piece at the start of a block of its
  -- own, so that the buffer is the file just if each piece fills its block. As many bytes as the
  -- buffer has cells that were not written stay in the connection, in front of what comes next.
  pub recv_data-pieces :
      length file % 512 ≡ 0
      → arrived s ≡ file ++ more
      → (pieces : List (List ℕ)) × (t : k.State) × (recv_data k (pos (length file)) s
          ≡ ok (spread pieces) t)
        × (arrived s ≡ joined pieces ++ arrived t)
        × ((spread pieces ≡ map some file) ↔ FillBlocks pieces)
        × (length (arrived t) ≡ holes (spread pieces) + length more)
  recv_data-pieces blocks here =
      let n : ℕ = length file / 512 in
      let (pieces, t, run, count, fit, rest) = recv_blocks-spread k d n 0 [] s refl in
      let (u, got, later) = recv-nothing k d t in
      let size : n * 512 ≡ length file = omega arith in
      let all : file ++ more ≡ joined pieces ++ d.arrived u =
        sym here ∙ rest ∙ ap (λ x. joined pieces ++ x) later in
      let kept = store_last_nothing (spread pieces) n (omega (arith, length-spread pieces fit)) in
      (
        pieces,
        u,
        ap (λ m. recv_data k (pos m) s) (sym size)
            ∙ recv_data-blocks k n (spread pieces) s t u run got kept,
        here ∙ all,
        whole_iff pieces (d.arrived u) fit (omega arith) all,
        omega (
          arith,
          length-joined pieces fit,
          ap length all,
          length-append file more,
          length-append (joined pieces) (d.arrived u),
        ),
      )
