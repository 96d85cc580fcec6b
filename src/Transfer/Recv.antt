-- ===== src/Transfer/Recv.antt =====
-- What the receivers leave in their buffer.
use mathlib.Core.List.{map-append}
use aip_pkussm.Prelude.{
  ℕ, zero, suc, ◌+◌, ◌-◌, ◌*◌, ◌≤◌, ◌<◌, ◌≡◌, refl, sym, List, [], ◌∷◌, ◌++◌, map, length, take,
  drop, arith, append-nil, append_assoc, drop-add, ◌∙◌, ap, some, length-map, length-append,
  length-take, length-drop, take-append_left, drop-append_left, take-append-drop, drop-append_le,
  Option,
}
use aip_pkussm.Net.{Socket, Io, ok, recv, Feeds}
use aip_pkussm.Transfer.{Buffer, store, store_last, recv_blocks}

-- Writing behind what is there already.
pub store-append :
    (front rest : Buffer) (off : ℕ) (bytes : List ℕ)
    → off ≡ length front
    → length bytes ≤ length rest
    → store (front ++ rest) off bytes ≡ some (front ++ (map some bytes ++ drop (length bytes) rest))
store-append front rest off bytes e h =
    rw
      (
        drop-add off (length bytes) (front ++ rest),
        take-append_left off front rest e,
        drop-append_left off front rest e,
      )
      (ground (arith, length-append front rest))

ok_eq :
    {S : Type 0} {a b : Buffer} {i j : ℕ} {t : S}
    → a ≡ b
    → i ≡ j
    → ◌≡◌ {A = Io S (Buffer × ℕ)} (ok (a, i) t) (ok (b, j) t)
ok_eq p q = cc

-- A round of the loop whose read and write succeed.
pub recv_blocks-suc :
    (k : Socket) (left i : ℕ) (buff next : Buffer) (bytes : List ℕ) (s t : k.State)
    → recv k 512 s ≡ ok bytes t
    → store buff (i * 512) bytes ≡ some next
    → recv_blocks k buff i (suc left) s ≡ recv_blocks k next (i + 1) left t
unfolding recv_blocks
recv_blocks-suc k left i buff next bytes s t e h = ground arith

module _ (k : Socket) (d : Feeds k) where
  open d use {pending, takes, leaves}

  pub recv-ok :
      (n : ℕ) (s : k.State) (bytes more : List ℕ)
      → pending s ≡ bytes ++ more
      → length bytes ≡ n
      → (recv k n s ≡ ok bytes (k.recv s n).1) × (pending (k.recv s n).1 ≡ more)
  unfolding recv
  recv-ok n s bytes more e l =
      let fits : n ≤ length (pending s) = rw e (omega (arith, length-append bytes more)) in
      let got : (k.recv s n).0 ≡ some bytes =
        takes s n fits ∙ ap some (ap (take n) e ∙ take-append_left n bytes more (sym l)) in
      (ground (arith, got), leaves s n fits ∙ ap (drop n) e ∙ drop-append_left n bytes more (sym l))

  -- The rounds that are left write their bytes behind those of the rounds before.
  pub recv_blocks-lem :
      (left i : ℕ) (front bytes more : List ℕ) (rest : Buffer) (s : k.State)
      → i * 512 ≡ length front
      → pending s ≡ bytes ++ more
      → length bytes ≡ left * 512
      → left * 512 ≤ length rest
      → (t : k.State) × (recv_blocks k (map some front ++ rest) i left s
          ≡ ok (map some (front ++ bytes) ++ drop (left * 512) rest, i + left) t)
        × (pending t ≡ more)
  unfolding recv_blocks
  recv_blocks-lem zero i front [] more rest s hi hp hl hr = (s, rw append-nil (ground arith), hp)
  recv_blocks-lem zero i front (b ∷ bytes) more rest s hi hp hl hr = absurd (omega arith)
  recv_blocks-lem (suc left) i front bytes more rest s hi hp hl hr =
      let b1 : List ℕ = take 512 bytes in
      let l1 : length b1 ≡ 512 = omega (arith, length-take 512 bytes) in
      let split : pending s ≡ b1 ++ (drop 512 bytes ++ more) =
        hp ∙ ap (λ x. x ++ more) (sym (take-append-drop 512 bytes)) ∙ append_assoc b1 _ _ in
      let (got, later) = recv-ok 512 s b1 (drop 512 bytes ++ more) split l1 in
      let stored =
        store-append (map some front) rest (i * 512) b1 (rw length-map (omega arith))
          (omega arith) in
      let same : map some front ++ (map some b1 ++ drop (length b1) rest)
          ≡ map some (front ++ b1) ++ drop 512 rest =
        rw (l1, map-append, append_assoc) refl in
      let (t, e, p) =
        recv_blocks-lem left (i + 1) (front ++ b1) (drop 512 bytes) more (drop 512 rest)
          (k.recv s 512).1 (omega (arith, length-append front b1)) later
          (omega (arith, length-drop 512 bytes)) (omega (arith, length-drop 512 rest)) in
      let whole : (front ++ b1) ++ drop 512 bytes ≡ front ++ bytes =
        append_assoc front b1 _ ∙ ap (λ x. front ++ x) (take-append-drop 512 bytes) in
      let tail : drop (left * 512) (drop 512 rest) ≡ drop (suc left * 512) rest =
        sym (drop-add 512 (left * 512) rest) ∙ ap (λ n. drop n rest) (omega arith) in
      (
        t,
        recv_blocks-suc k left i (map some front ++ rest) _ b1 s (k.recv s 512).1 got
              (stored ∙ ap some same)
            ∙ e
            ∙ ok_eq (rw (whole, tail) refl) (omega arith),
        p,
      )

drop-map-some : (n : ℕ) (xs : List ℕ) → drop n (map some xs) ≡ map some (drop n xs)
drop-map-some zero xs = refl
drop-map-some (suc n) [] = refl
drop-map-some (suc n) (x ∷ xs) = drop-map-some n xs

pub store_last_of_pos :
    (buff : Buffer) (i : ℕ) (bytes : List ℕ)
    → 0 < i
    → store_last buff i bytes ≡ store buff ((i - 1) * 512) bytes
store_last_of_pos buff zero bytes p = elim p [ ]
store_last_of_pos buff (suc j) bytes p = let e : suc j - 1 ≡ j = omega arith in rw e refl

map-take-drop :
    (r : ℕ) (blk : List ℕ) (rest : Buffer)
    → r ≤ length blk
    → map some (take r blk) ++ drop r (map some blk ++ rest) ≡ map some blk ++ rest
map-take-drop r blk rest h =
    ap (λ x. map some (take r blk) ++ x)
      (drop-append_le r (map some blk) rest (rw length-map h)
        ∙ ap (λ x. x ++ rest) (drop-map-some r blk))
    ∙ sym (append_assoc (map some (take r blk)) (map some (drop r blk)) rest)
    ∙ ap (λ x. x ++ rest)
        (sym (map-append some (take r blk) (drop r blk)) ∙ ap (map some) (take-append-drop r blk))

-- Writing the beginning of a block again over that block changes nothing.
pub store_again :
    (before blk : List ℕ) (rest : Buffer) (off r : ℕ)
    → off ≡ length before
    → r ≤ length blk
    → store (map some before ++ (map some blk ++ rest)) off (take r blk)
      ≡ some (map some (before ++ blk) ++ rest)
store_again before blk rest off r e h =
    let l : length (take r blk) ≡ r = omega (arith, length-take r blk) in
    store-append (map some before) (map some blk ++ rest) off (take r blk) (rw length-map e)
      (omega (arith, length-append (map some blk) rest, length-map {B = Option ℕ} blk some))
    ∙ ap some (
        ap (λ n. map some before ++ (map some (take r blk) ++ drop n (map some blk ++ rest))) l
        ∙ ap (λ x. map some before ++ x) (map-take-drop r blk rest h)
        ∙ sym (append_assoc (map some before) (map some blk) rest)
        ∙ ap (λ x. x ++ rest) (sym (map-append some before blk)))
