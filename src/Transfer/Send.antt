-- ===== src/Transfer/Send.antt =====
-- What the senders put on the wire.
use aip_pkussm.Prelude.{
  ℕ, zero, suc, ◌+◌, ◌-◌, ◌*◌, ◌/◌, ◌%◌, ◌≤◌, ◌<◌, ◌≡◌, ◌≢◌, ◌↔◌, ◌⊎◌, inl, inr, refl, List, [],
  ◌++◌, length, take, drop, arith, sym, append-nil, append_assoc, take-add, drop-add, pos, ◌∙◌, ap,
  some,
}
use aip_pkussm.Net.{Socket, Io, ok, fault, send, Delivers}
use aip_pkussm.Transfer.{slice, slice_last, send_blocks, send_data}

slice_of_le :
    (xs : List ℕ) (off n : ℕ) → off + n ≤ length xs → slice xs off n ≡ some (take n (drop off xs))
slice_of_le xs off n h = ground arith

block_then :
    (i left : ℕ) (buff : List ℕ)
    → take 512 (drop (i * 512) buff) ++ take (left * 512) (drop ((i + 1) * 512) buff)
      ≡ take (suc left * 512) (drop (i * 512) buff)
block_then i left buff =
    let a : (i + 1) * 512 ≡ i * 512 + 512 = omega arith in
    let b : suc left * 512 ≡ 512 + left * 512 = omega arith in
    rw (a, b, drop-add (i * 512) 512 buff, take-add 512 (left * 512) (drop (i * 512) buff))

-- Sending leaves alone what `o` sees of a connection.
abbrev pub IsUntouched : (k : Socket) → (k.State → List ℕ) → Type 0
IsUntouched k o = (s : k.State) (b : List ℕ) → o (k.send s b).1 ≡ o s

module _ (k : Socket) (d : Delivers k) where
  open d use {sent, good, grows}

  pub send-ok : (bytes : List ℕ) (s : k.State) → send k bytes s ≡ ok tt (k.send s bytes).1
  unfolding send
  send-ok bytes s = rw good

  -- The rounds that are left send the rest of the full blocks.
  send_blocks-run :
      (o : k.State → List ℕ)
      → IsUntouched k o
      → (buff : List ℕ) (i left : ℕ) (s : k.State) → i * 512 + left * 512 ≤ length buff
      → (t : k.State) × (send_blocks k buff i left s ≡ ok (i + left) t)
        × (sent t ≡ sent s ++ take (left * 512) (drop (i * 512) buff))
        × (o t ≡ o s)
  unfolding send_blocks
  send_blocks-run o keeps buff i zero s h = (s, ground arith, sym (append-nil (sent s)), refl)
  send_blocks-run o keeps buff i (suc left) s h =
      let bytes : List ℕ = take 512 (drop (i * 512) buff) in
      let (t, e, g, same) =
        send_blocks-run o keeps buff (i + 1) left (k.send s bytes).1 (omega arith) in
      (
        t,
        ground (arith, slice_of_le buff (i * 512) 512, send-ok bytes s, e),
        g
            ∙ ap (λ x. x ++ take (left * 512) (drop ((i + 1) * 512) buff)) (grows s bytes)
            ∙ append_assoc (sent s) bytes _
            ∙ ap (λ x. sent s ++ x) (block_then i left buff),
        same ∙ keeps s bytes,
      )

-- The bytes that the senders mean by a file of at least one block: its full blocks, then as many
-- bytes as are left, read from the start of the last full block.
abbrev pub wire : List ℕ → List ℕ
wire file =
    take (length file / 512 * 512) file
    ++ take (length file % 512) (drop ((length file / 512 - 1) * 512) file)

slice_last_of_pos :
    (xs : List ℕ) (i n : ℕ)
    → 0 < i
    → (i - 1) * 512 + n ≤ length xs
    → slice_last xs i n ≡ some (take n (drop ((i - 1) * 512) xs))
slice_last_of_pos xs zero n p h = elim p [ ]
slice_last_of_pos xs (suc j) n p h =
    let e : suc j - 1 ≡ j = omega arith in rw e (slice_of_le xs (j * 512) n (omega arith))

-- A file is empty, smaller than a block, or has a full block.
pub sizes : (n : ℕ) → (n ≡ 0) ⊎ ((0 < n) × (n < 512)) ⊎ (512 ≤ n)
sizes n = omega arith

pub ok_ne : {S A : Type 0} {a : A} {s : S} → ◌≢◌ {A = Io S A} (ok a s) fault
ok_ne e = cc

module _ (k : Socket) (d : Delivers k) (file : List ℕ) (s : k.State) where
  open d use {sent, grows}

  pub send_data-run :
      (o : k.State → List ℕ)
      → IsUntouched k o
      → 512 ≤ length file
      → (t : k.State) × (send_data k file (pos (length file)) s ≡ ok tt t)
        × (sent t ≡ sent s ++ wire file)
        × (o t ≡ o s)
  unfolding send_data
  send_data-run o keeps h =
      let q = length file / 512 in
      let r = length file % 512 in
      let last : List ℕ = take r (drop ((q - 1) * 512) file) in
      let (t, e, g, same) = send_blocks-run k d o keeps file 0 q s (omega arith) in
      (
        (k.send t last).1,
        ground (arith, e, slice_last_of_pos file q r, send-ok k d last t),
        grows t last ∙ ap (λ x. x ++ last) g ∙ append_assoc (sent s) _ _,
        keeps t last ∙ same,
      )

  pub send_data-fault :
      0 < length file → length file < 512 → send_data k file (pos (length file)) s ≡ fault
  unfolding send_data send_blocks
  send_data-fault p h = let e : length file / 512 ≡ 0 = omega arith in rw e (ground arith)

  pub send_data-empty :
      length file ≡ 0 → (t : k.State) × (send_data k file (pos (length file)) s ≡ ok tt t)
  unfolding send_data send_blocks
  send_data-empty e =
      let q : length file / 512 ≡ 0 = omega arith in
      let r : length file % 512 ≡ 0 = omega arith in
      ((k.send s []).1, rw (q, r) (ground (arith, send-ok k d [] s)))

  -- The sender of a file, on a connection that takes every byte, reads outside of its buffer exactly
  -- if the file has 1 to 511 bytes: then it reads in front of it.
  send_data-fault_iff :
      (send_data k file (pos (length file)) s ≡ fault) ↔ ((0 < length file) × (length file < 512))
  send_data-fault_iff = (
    (λ e. elim (sizes (length file)) [
      | inl z ↦ let (t, run) = send_data-empty z in absurd (ok_ne (sym run ∙ e))
      | inr (inl small) ↦ small
      | inr (inr big) ↦
          let (t, run, rest, same) = send_data-run (λ s'. []) (λ s' b. refl) big in
          absurd (ok_ne (sym run ∙ e))
    ]),
    (λ (p, h). send_data-fault p h),
  )
