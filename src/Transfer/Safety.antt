-- ===== src/Transfer/Safety.antt =====
-- When the receivers write outside of their buffer.
use mathlib.Core.Path.{subst}
use aip_pkussm.Prelude.{
  ℕ, zero, suc, ◌+◌, ◌-◌, ◌*◌, ◌/◌, ◌%◌, ◌≤◌, ◌<◌, ◌≡◌, ◌≢◌, ◌↔◌, ◌⊎◌, inl, inr, refl, sym, ◌∙◌, ap,
  Option, Option-cases, lt_or_le, none, some, List, [], ◌∷◌, ◌++◌, length, map, take, drop,
  replicate, ℤ, pos, negsuc, rounds, neg, div_int, rem_int, to_size, arith, length-append,
  length-map, length-take, length-drop, length-replicate,
}
use aip_pkussm.Net.{Socket, Io, ok, failed, fault, recv, IsBounded, Io-cases}
use aip_pkussm.Transfer.{Buffer, malloc, store, recv_blocks, recv_rest, recv_data}
use aip_pkussm.Transfer.Recv.{recv_blocks-suc, store_last_of_pos}

-- A write that fits keeps the size of the buffer.
store-fits :
    (buff : Buffer) (off : ℕ) (bytes : List ℕ)
    → off + length bytes ≤ length buff
    → (next : Buffer) × (store buff off bytes ≡ some next) × (length next ≡ length buff)
store-fits buff off bytes h =
    let behind = drop (off + length bytes) buff in
    (
      take off buff ++ (map some bytes ++ behind),
      ground arith,
      omega (
        arith,
        length-append (take off buff) (map some bytes ++ behind),
        length-append (map {B = Option ℕ} some bytes) behind,
        length-map {B = Option ℕ} bytes some,
        length-take off buff,
        length-drop (off + length bytes) buff,
      ),
    )

-- A result that is no fault, and otherwise a buffer of `size` cells and the index `n`.
abbrev IsSafe : {S : Type 0} → Io S (Buffer × ℕ) → ℕ → ℕ → Type 0
IsSafe (ok (buff, i) t) size n = (length buff ≡ size) × (i ≡ n)
IsSafe (failed t) size n = Unit
IsSafe fault size n = ⊥

-- A size that has no full block.
abbrev pub IsBelowBlock : ℤ → Type 0
IsBelowBlock (pos n) = n < 512
IsBelowBlock (negsuc n) = Unit

sizes_of : (size : ℤ) → IsBelowBlock size ⊎ ((n : ℕ) × (512 ≤ n) × (size ≡ pos n))
sizes_of (pos n) = elim (lt_or_le n 512) [ inl small ↦ inl small | inr big ↦ inr (n, big, refl) ]
sizes_of (negsuc n) = inl tt

rounds-neg : (m : ℕ) → rounds (neg m) ≡ 0
rounds-neg zero = refl
rounds-neg (suc m) = refl

failed_ne : {S A : Type 0} {s : S} → ◌≢◌ {A = Io S A} (failed s) fault
failed_ne e = cc

module _ (k : Socket) (b : IsBounded k) where
  recv-failed : (n : ℕ) (s : k.State) → (k.recv s n).0 ≡ none → recv k n s ≡ failed (k.recv s n).1
  unfolding recv
  recv-failed n s e = rw (recv, e) refl

  recv-got :
      (n : ℕ) (s : k.State) (bytes : List ℕ)
      → (k.recv s n).0 ≡ some bytes
      → recv k n s ≡ ok bytes (k.recv s n).1
  unfolding recv
  recv-got n s bytes e = rw (recv, e) refl

  recv_blocks-failed :
      (left i : ℕ) (buff : Buffer) (s t : k.State)
      → recv k 512 s ≡ failed t
      → recv_blocks k buff i (suc left) s ≡ failed t
  unfolding recv_blocks
  recv_blocks-failed left i buff s t e = ground arith

  -- Blocks that the buffer has room for.
  recv_blocks-IsSafe :
      (left i : ℕ) (buff : Buffer) (s : k.State)
      → (i + left) * 512 ≤ length buff
      → IsSafe (recv_blocks k buff i left s) (length buff) (i + left)
  unfolding recv_blocks
  recv_blocks-IsSafe zero i buff s room = (refl, omega arith)
  recv_blocks-IsSafe (suc left) i buff s room = elim (Option-cases (k.recv s 512).0) [
    | inl e ↦ rw (recv_blocks-failed left i buff s (k.recv s 512).1 (recv-failed 512 s e)) tt
    | inr (bytes, e) ↦
        let short = b s 512 bytes e in
        let (next, stored, size) = store-fits buff (i * 512) bytes (omega arith) in
        let i1 : i + 1 + left ≡ i + suc left = omega arith in
        let t = (k.recv s 512).1 in
        let rest =
          subst (λ cells. IsSafe (recv_blocks k next (i + 1) left t) cells (i + 1 + left)) size
            (recv_blocks-IsSafe left (i + 1) next t (omega arith)) in
        rw (recv_blocks-suc k left i buff next bytes s t (recv-got 512 s bytes e) stored, sym i1)
          rest
  ]

  -- A rest of less than a block, behind at least one block.
  recv_rest-safe :
      (buff : Buffer) (i n : ℕ) (s : k.State)
      → 0 < i
      → i * 512 ≤ length buff
      → n < 512
      → recv_rest k buff i n s ≢ fault
  unfolding recv_rest
  recv_rest-safe buff i n s p room small e = elim (Option-cases (k.recv s n).0) [
    | inl none_read ↦ let r = recv-failed n s none_read in ground (arith, r, e)
    | inr (bytes, got) ↦
        let r = recv-got n s bytes got in
        let short = b s n bytes got in
        let (next, stored, size) = store-fits buff ((i - 1) * 512) bytes (omega arith) in
        let last = store_last_of_pos buff i bytes p in ground (arith, r, e, stored, last)
  ]

  -- With no block, any byte is written in front of the buffer.
  recv_rest-first :
      (buff : Buffer) (n : ℕ) (s : k.State)
      → (recv_rest k buff 0 n s ≡ fault)
        ↔ ((x : ℕ) × (bytes : List ℕ) × ((k.recv s n).0 ≡ some (x ∷ bytes)))
  unfolding recv_rest
  recv_rest-first buff n s = elim (Option-cases (k.recv s n).0) [
    | inl e ↦ let r = recv-failed n s e in ((λ h. ground (arith, r, h)), (λ (x, bytes, h). cc))
    | inr ([], e) ↦
        let r = recv-got n s [] e in ((λ h. ground (arith, r, h)), (λ (x, bytes, h). cc))
    | inr (x ∷ bytes, e) ↦
        let r = recv-got n s (x ∷ bytes) e in ((λ h. (x, bytes, e)), (λ h. ground (arith, r)))
  ]

  recv_data-first :
      (size : ℤ) (s : k.State)
      → rounds (div_int size 512) ≡ 0
      → recv_data k size s ≡ recv_rest k (malloc size) 0 (to_size (rem_int size 512)) s
  unfolding recv_data recv_blocks
  recv_data-first size s none_whole = rw (recv_data, none_whole) refl

  recv_data-ends :
      (n : ℕ) (buff : Buffer) (i : ℕ) (s t : k.State)
      → recv_blocks k (replicate n none) 0 (n / 512) s ≡ ok (buff, i) t
      → recv_data k (pos n) s ≡ recv_rest k buff i (n % 512) t
  unfolding recv_data
  recv_data-ends n buff i s t e = ground (arith, e)

  recv_data-stops :
      (n : ℕ) (s t : k.State)
      → recv_blocks k (replicate n none) 0 (n / 512) s ≡ failed t
      → recv_data k (pos n) s ≡ failed t
  unfolding recv_data
  recv_data-stops n s t e = ground (arith, e)

  recv_data-safe : (n : ℕ) (s : k.State) → 512 ≤ n → recv_data k (pos n) s ≢ fault
  recv_data-safe n s big e =
      let buff : Buffer = replicate n none in
      let size = length-replicate {A = Option ℕ} n none in
      let safe = recv_blocks-IsSafe (n / 512) 0 buff s (omega arith) in
      elim (Io-cases (recv_blocks k buff 0 (n / 512) s)) [
        | inl ((full, i), t, run) ↦
            let kept : IsSafe (ok (full, i) t) (length buff) (0 + n / 512) =
              subst (λ r. IsSafe r (length buff) (0 + n / 512)) run safe in
            recv_rest-safe full i (n % 512) t (omega (arith, kept)) (omega (arith, kept))
              (omega arith) (sym (recv_data-ends n full i s t run) ∙ e)
        | inr (inl (t, run)) ↦ failed_ne (sym (recv_data-stops n s t run) ∙ e)
        | inr (inr run) ↦ subst (λ r. IsSafe r (length buff) (0 + n / 512)) run safe
      ]

  no_round : (size : ℤ) → IsBelowBlock size → rounds (div_int size 512) ≡ 0
  no_round (pos n) small = omega arith
  no_round (negsuc n) small = rounds-neg (suc n / 512)

  first_fault_iff :
      (size : ℤ) (s : k.State)
      → IsBelowBlock size
      → (recv_data k size s ≡ fault) ↔ (
          (x : ℕ) × (bytes : List ℕ) × ((k.recv s (to_size (rem_int size 512))).0
            ≡ some (x ∷ bytes)))
  first_fault_iff size s small =
      let e = recv_data-first size s (no_round size small) in
      let (to, from) = recv_rest-first (malloc size) (to_size (rem_int size 512)) s in
      ((λ h. to (sym e ∙ h)), (λ h. e ∙ from h))

  -- Whatever a connection answers, as long as no read puts more bytes than it is asked for: a receiver
  -- of any announced size writes outside of its buffer exactly if the size is less than a block, or
  -- negative, and the one read that it then makes puts a byte.
  pub recv_data-fault_iff :
      (size : ℤ) (s : k.State)
      → (recv_data k size s ≡ fault) ↔ (
          IsBelowBlock size
          × (x : ℕ) × (bytes : List ℕ) × ((k.recv s (to_size (rem_int size 512))).0
              ≡ some (x ∷ bytes)))
  recv_data-fault_iff size s = (
    (λ e. elim (sizes_of size) [
      | inl small ↦
          let (x, bytes, got) = (first_fault_iff size s small).0 e in (small, x, bytes, got)
      | inr (n, big, same) ↦
          absurd (recv_data-safe n s big (ap (λ z. recv_data k z s) (sym same) ∙ e))
    ]),
    (λ (small, x, bytes, got). (first_fault_iff size s small).1 (x, bytes, got)),
  )
