-- ===== src/Transfer/Received.antt =====
-- What a transfer leaves in the receiver's buffer and in the connection.
use mathlib.Core.List.{map-append}
use aip_pkussm.Prelude.{
  length-drop, ℕ, ◌+◌, ◌-◌, ◌*◌, ◌/◌, ◌%◌, ◌≤◌, ◌<◌, ◌≡◌, refl, sym, List, [], ◌++◌, map, length,
  take, drop, arith, replicate, append-nil, append_assoc, take-add, pos, ◌∙◌, ap, some, none,
  Option, length-replicate, length-take, length-drop, take-append-drop, drop-replicate, drop-length,
  take-take, take-length,
}
use aip_pkussm.Net.{Socket, ok, recv, Feeds}
use aip_pkussm.Transfer.{Buffer, malloc, store, store_last, recv_blocks, recv_rest, recv_data}
use aip_pkussm.Transfer.Send.{wire}
use aip_pkussm.Transfer.Recv.{recv-ok, recv_blocks-lem, store_again, store_last_of_pos}

-- The receiver's buffer for a file of at least one block, when the peer sends `wire file`: every
-- byte of the full blocks, and nothing behind them.
abbrev pub received : List ℕ → Buffer
received file = map some (take (length file / 512 * 512) file) ++ replicate (length file % 512) none

pub received_whole : (file : List ℕ) → length file % 512 ≡ 0 → received file ≡ map some file
received_whole file z =
    rw (z, take-length (length file / 512 * 512) file (omega arith)) (append-nil (map some file))

-- A file of whole blocks goes out as it is.
pub wire_whole : (file : List ℕ) → length file % 512 ≡ 0 → wire file ≡ file
wire_whole file z =
    rw (z, take-length (length file / 512 * 512) file (omega arith)) (append-nil file)

-- The bytes of the remainder as the senders read them, from the start of the last full block.
abbrev pub wire_rest : List ℕ → List ℕ
wire_rest file = take (length file % 512) (drop ((length file / 512 - 1) * 512) file)

-- What the full blocks leave, split where the last of them starts.
module _ (file : List ℕ) (big : 512 ≤ length file) where
  abbrev before : List ℕ
  before = take ((length file / 512 - 1) * 512) file

  abbrev last_block : List ℕ
  last_block = take 512 (drop ((length file / 512 - 1) * 512) file)

  blocks_split : take (length file / 512 * 512) file ≡ before ++ last_block
  blocks_split =
      ap (λ m. take m file) (omega arith) ∙ take-add ((length file / 512 - 1) * 512) 512 file

  untouched :
      drop (length file / 512 * 512) (replicate {A = Option ℕ} (length file) none)
      ≡ replicate (length file % 512) none
  untouched =
      ap (λ m. drop (length file / 512 * 512) (replicate {A = Option ℕ} m none)) (omega arith)
      ∙ drop-replicate (length file / 512 * 512) (length file % 512) none

  abbrev laid : Buffer
  laid = map some before ++ (map some last_block ++ replicate (length file % 512) none)

  laid_eq :
      map some ([] ++ take (length file / 512 * 512) file)
        ++ drop (length file / 512 * 512) (replicate {A = Option ℕ} (length file) none)
      ≡ laid
  laid_eq =
      ap (λ x. map some (take (length file / 512 * 512) file) ++ x) untouched
      ∙ ap (λ x. map some x ++ replicate (length file % 512) none) blocks_split
      ∙ ap (λ x. x ++ replicate (length file % 512) none) (map-append some before last_block)
      ∙ append_assoc (map some before) (map some last_block) _

  length-before : length before ≡ (length file / 512 - 1) * 512
  length-before = omega (arith, length-take ((length file / 512 - 1) * 512) file)

  length-last_block : length last_block ≡ 512
  length-last_block = omega (
    arith,
    length-take 512 (drop ((length file / 512 - 1) * 512) file),
    length-drop ((length file / 512 - 1) * 512) file,
  )

  -- The last write of a transfer puts bytes where they are already.
  last_write :
      (m : ℕ)
      → m ≤ length file % 512
      → store_last laid (0 + length file / 512) (take m (wire_rest file)) ≡ some (received file)
  last_write m h =
      store_last_of_pos laid (0 + length file / 512) (take m (wire_rest file)) (omega arith)
      ∙ ap (store laid ((0 + length file / 512 - 1) * 512)) (
          take-take m (length file % 512) (drop ((length file / 512 - 1) * 512) file) h
          ∙ sym (take-take m 512 (drop ((length file / 512 - 1) * 512) file) (omega arith)))
      ∙ store_again before last_block (replicate (length file % 512) none)
          ((0 + length file / 512 - 1) * 512) m (omega (arith, length-before))
          (omega (arith, length-last_block))
      ∙ ap (λ x. some (map some x ++ replicate (length file % 512) none)) (sym blocks_split)

module _ (k : Socket) (d : Feeds k) (file more : List ℕ) (s : k.State) (m : ℕ) where
  open d use {pending}

  -- A receiver that reads the full blocks and then `m` bytes of the remainder.
  pub receives :
      512 ≤ length file
      → m ≤ length file % 512
      → pending s ≡ wire file ++ more
      → (buff : Buffer) × (t : k.State) × (u : k.State) × (recv_blocks k
            (malloc (pos (length file)))
            0
            (length file / 512)
            s
          ≡ ok (buff, length file / 512) t)
        × (recv_rest k buff (length file / 512) m t ≡ ok (received file) u)
        × (pending u ≡ drop m (wire_rest file) ++ more)
  unfolding recv_rest
  receives big h p =
      let full : List ℕ = take (length file / 512 * 512) file in
      let last : List ℕ = wire_rest file in
      let none_before : 0 + length file / 512 ≡ length file / 512 = omega arith in
      let (t, e, pt) =
        recv_blocks-lem k d (length file / 512) 0 [] full (last ++ more)
          (replicate (length file) none) s refl (p ∙ append_assoc full last more)
          (omega (arith, length-take (length file / 512 * 512) file))
          (omega (arith, length-replicate {A = Option ℕ} (length file) none)) in
      let split : last ++ more ≡ take m last ++ (drop m last ++ more) =
        ap (λ x. x ++ more) (sym (take-append-drop m last)) ∙ append_assoc (take m last) _ more in
      let (got, pu) = recv-ok k d m t (take m last) (drop m last ++ more) (pt ∙ split) (
        omega (
          arith,
          length-take m last,
          length-take (length file % 512) (drop ((length file / 512 - 1) * 512) file),
          length-drop ((length file / 512 - 1) * 512) file,
        )) in
      (
        laid file big,
        t,
        (k.recv t m).1,
        e
            ∙ ap (λ b. ok (b, 0 + length file / 512) t) (laid_eq file big)
            ∙ ap (λ n. ok (laid file big, n) t) none_before,
        ground (arith, got, last_write file big m h),
        pu,
      )

module _ (k : Socket) (d : Feeds k) (file more : List ℕ) (s : k.State) where
  open d use {pending}

  -- What the senders put on the wire for a file of at least one block fills the receiver's full
  -- blocks; the rest is read, but lands on the start of the last full block.
  pub recv_data-received :
      512 ≤ length file
      → pending s ≡ wire file ++ more
      → (t : k.State) × (recv_data k (pos (length file)) s ≡ ok (received file) t)
        × (pending t ≡ more)
  unfolding recv_data
  recv_data-received big p =
      let (buff, t, u, a, b, c) =
        receives k d file more s (length file % 512) big (omega arith) p in
      (
        u,
        ground (arith, a, b),
        c
            ∙ ap (λ x. x ++ more)
                (drop-length (length file % 512) (wire_rest file) (
                  omega (
                    arith,
                    length-take (length file % 512) (drop ((length file / 512 - 1) * 512) file),
                  ))),
      )

-- At the end of the connection a file of less than one block comes back as no byte at all.
pub recv_data-nothing :
    (k : Socket) (n : ℕ) (s : k.State)
    → n < 512
    → (k.recv s n).0 ≡ some []
    → recv_data k (pos n) s ≡ ok (replicate n none) (k.recv s n).1
unfolding recv_data recv_blocks recv_rest recv
recv_data-nothing k n s small over =
    let a : n / 512 ≡ 0 = omega arith in
    let b : n % 512 ≡ n = omega arith in rw (a, b) (ground arith)
