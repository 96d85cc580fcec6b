-- ===== src/Chat/Users/Race/Lost.antt =====
-- Two threads of which one copies the table onto itself while the other writes to it.
use aip_pkussm.Prelude.{
  update, ℕ, zero, suc, ◌+◌, ◌-◌, ◌<◌, ◌≡◌, ◌≢◌, refl, sym, ap, ◌∙◌, true, false, some, List, [],
  ◌∷◌, length, get_elem?, set, take, get_elem?_of_lt, length-set, arith,
}
use aip_pkussm.Chat.Users.{User, Cmsg, ControlMsg, max_user_name_len, get_users, put_users}
use aip_pkussm.Chat.Users.Table.{
  fd_of, IsStray, fd_of-put_users, fd_of-set, length-put_users, get_users-stray,
}
use aip_pkussm.Chat.Users.Race.{
  Job, before, attached, wrote_id, wrote_connfd, wrote_name, copying, storing, done, Table, modify,
  moved, attach, set_id, set_connfd, set_name, acquire, load, store, release, Reach, here, next,
}
use aip_pkussm.Chat.Users.Race.Alone.{Reach-append, copy_on, put_on}

length-modify :
    (users : List User) (i : ℕ) (f : User → User) → length (modify users i f) ≡ length users
unfolding modify
length-modify [] i f = refl
length-modify (u ∷ users) zero f = refl
length-modify (u ∷ users) (suc i) f = ap suc (length-modify users i f)

fd_of-modify_keep :
    (users : List User) (i j : ℕ) (f : User → User)
    → ((u : User) → (f u).connfd ≡ u.connfd)
    → fd_of (modify users i f) j ≡ fd_of users j
unfolding modify fd_of
fd_of-modify_keep [] i j f h = refl
fd_of-modify_keep (u ∷ users) zero zero f h = ap some (h u)
fd_of-modify_keep (u ∷ users) zero (suc j) f h = refl
fd_of-modify_keep (u ∷ users) (suc i) zero f h = refl
fd_of-modify_keep (u ∷ users) (suc i) (suc j) f h = fd_of-modify_keep users i j f h

fd_of-modify_other :
    (users : List User) (i j : ℕ) (f : User → User)
    → i ≢ j
    → fd_of (modify users i f) j ≡ fd_of users j
unfolding modify fd_of
fd_of-modify_other [] i j f h = refl
fd_of-modify_other (u ∷ users) zero zero f h = elim (h refl) [ ]
fd_of-modify_other (u ∷ users) zero (suc j) f h = refl
fd_of-modify_other (u ∷ users) (suc i) zero f h = refl
fd_of-modify_other (u ∷ users) (suc i) (suc j) f h =
    fd_of-modify_other users i j f (λ e. h (ap suc e))

fd_of-get_elem? :
    (users : List User) (i : ℕ) (u : User)
    → get_elem? users i ≡ some u
    → fd_of users i ≡ some u.connfd
unfolding fd_of
fd_of-get_elem? [] i u h = ground arith
fd_of-get_elem? (x ∷ users) zero u h = ground arith
fd_of-get_elem? (x ∷ users) (suc i) u h = fd_of-get_elem? users i u h

-- The connection of an entry that was written back, after a change of its other members.
fd_of-written :
    (c : Cmsg) (users l : List User) (a : ℕ) (u : User) (f : User → User)
    → users ≡ set l a u
    → ((u : User) → (f u).connfd ≡ u.connfd)
    → a < length l
    → fd_of (put_users c (modify users a f)) a ≡ some u.connfd
fd_of-written c users l a u f same keep inside =
    fd_of-put_users c (modify users a f) a
    ∙ fd_of-modify_keep users a a f keep
    ∙ ap (λ l. fd_of l a) same
    ∙ fd_of-set l a a u inside
    ∙ ground arith

module _ (c : Cmsg) (stack : ControlMsg) (job : ℕ → Job) where
  -- The writes of a thread up to the lock, and its copy up to an entry `a` of another id, which the
  -- thread then has read.
  reads :
      (k a : ℕ) (s : Table)
      → IsStray c stack
      → s.pc k ≡ before
      → s.lock ≡ false
      → (job k).id ≢ a
      → a < length s.users
      → (t : Table) × (u : User) × Reach c stack job s t
        × (t.pc k ≡ storing a u)
        × (some u.connfd ≡ fd_of s.users a)
        × (length t.users ≡ length s.users)
        × ((i : ℕ) → i ≢ k → t.pc i ≡ s.pc i)
  reads k a s stray at free other inside =
      let id = (job k).id in
      let l0 = get_users c stack s.users in
      let f1 : User → User = λ u. record u { id = id } in
      let f2 : User → User = λ u. record u { connfd = (job k).connfd } in
      let f3 : User → User = λ u. record u { name = take max_user_name_len (job k).name } in
      let l1 = modify l0 id f1 in
      let l2 = modify l1 id f2 in
      let l3 = modify l2 id f3 in
      let s1 = moved c stack job s k attached l0 in
      let s2 = moved c stack job s1 k wrote_id l1 in
      let s3 = moved c stack job s2 k wrote_connfd l2 in
      let s4 = moved c stack job s3 k wrote_name l3 in
      let s5 : Table = record s4 {
        users = put_users c l3;
        lock = true;
        pc = update s4.pc k (copying 0);
      } in
      let len : length s5.users ≡ length s.users =
        length-put_users c l3
        ∙ length-modify l2 id f3
        ∙ length-modify l1 id f2
        ∙ length-modify l0 id f1
        ∙ ap (λ (l : List User). length l) (get_users-stray c stack s.users stray) in
      let fd : fd_of s5.users a ≡ fd_of s.users a =
        fd_of-put_users c l3 a
        ∙ fd_of-modify_other l2 id a f3 other
        ∙ fd_of-modify_other l1 id a f2 other
        ∙ fd_of-modify_other l0 id a f1 other
        ∙ ap (λ l. fd_of l a) (get_users-stray c stack s.users stray) in
      let (t, r, users, lock, at2, others) =
        copy_on c stack job k a 0 s5 (ground arith) (omega arith) in
      let (u, there) = get_elem?_of_lt t.users a (rw users (omega arith)) in
      let e : 0 + a ≡ a = omega arith in
      (
        moved c stack job t k (storing a u) t.users,
        u,
        next
            (Reach-append c stack job
              (next
                (next
                  (next (next (next here (attach k at free)) (set_id k (ground arith)))
                    (set_connfd k (ground arith)))
                  (set_name k (ground arith)))
                (acquire k (ground arith) free))
              r)
            (load k a u (at2 ∙ ap copying e) there),
        ground arith,
        sym (fd_of-get_elem? t.users a u there) ∙ ap (λ l. fd_of l a) users ∙ fd,
        ap (λ (l : List User). length l) users ∙ len,
        λ i n. ground (arith, others i n),
      )

  -- The thread `k` writes back the entry that it has read after the thread `i` has put its connection
  -- there, and both come to their ends.
  writes_back :
      (i k : ℕ) (s : Table) (u : User)
      → i ≢ k
      → s.pc i ≡ wrote_id
      → s.pc k ≡ storing (job i).id u
      → (job i).id < length s.users
      → (t : Table) × Reach c stack job s t
        × (t.pc i ≡ done)
        × (t.pc k ≡ done)
        × (fd_of t.users (job i).id ≡ some u.connfd)
  writes_back i k s u apart at_i at_k inside =
      let a = (job i).id in
      let f2 : User → User = λ u. record u { connfd = (job i).connfd } in
      let f3 : User → User = λ u. record u { name = take max_user_name_len (job i).name } in
      let l1 = modify s.users a f2 in
      let l2 = set l1 a u in
      let s1 = moved c stack job s i wrote_connfd l1 in
      let s2 = moved c stack job s1 k (copying (suc a)) l2 in
      let n = length l2 - suc a in
      let len : length l2 ≡ length s.users = length-set l1 a u ∙ length-modify s.users a f2 in
      let e : suc a + n ≡ length l2 = rw len (omega arith) in
      let (t, r, users, lock, at2, others) =
        copy_on c stack job k n (suc a) s2 (ground arith) (omega arith) in
      let s3 : Table = record t { lock = false; pc = update t.pc k done } in
      let l3 = modify t.users a f3 in
      let s4 = moved c stack job s3 i wrote_name l3 in
      let (v, q, final, free, over, rest) = put_on c stack job i s4 (ground arith) refl in
      (
        v,
        Reach-append c stack job
            (next
              (next
                (Reach-append c stack job
                  (next (next here (set_connfd i at_i)) (store k a u (ground arith))) r)
                (release k (at2 ∙ ap copying (e ∙ ap (λ (l : List User). length l) (sym users)))))
              (set_name i (ground (arith, others i apart))))
            q,
        over,
        rest k (λ h. apart (sym h)) ∙ ground arith,
        ap (λ l. fd_of l a) final
            ∙ fd_of-written c t.users l1 a u f3 users (λ u. refl)
                (rw (length-modify s.users a f2) inside),
      )

  -- Two connections that enter different ids of the table at once can both come to their ends, each
  -- thread having written its entry and copied the table under the lock, with the table still mapping
  -- the first one's id to the connection from before: the second one's copy has overwritten it.
  pub lost_update :
      (i k : ℕ) (s : Table)
      → i ≢ k
      → IsStray c stack
      → s.pc i ≡ before
      → s.pc k ≡ before
      → s.lock ≡ false
      → (job k).id ≢ (job i).id
      → (job i).id < length s.users
      → (t : Table) × Reach c stack job s t
        × (t.pc i ≡ done)
        × (t.pc k ≡ done)
        × (fd_of t.users (job i).id ≡ fd_of s.users (job i).id)
  lost_update i k s apart stray at_i at_k free other inside =
      let a = (job i).id in
      let f1 : User → User = λ u. record u { id = a } in
      let l0 = get_users c stack s.users in
      let s1 = moved c stack job s i attached l0 in
      let s2 = moved c stack job s1 i wrote_id (modify l0 a f1) in
      let same = get_users-stray c stack s.users stray in
      let len : length s2.users ≡ length s.users =
        length-modify l0 a f1 ∙ ap (λ (l : List User). length l) same in
      let fd : fd_of s2.users a ≡ fd_of s.users a =
        fd_of-modify_keep l0 a a f1 (λ u. refl) ∙ ap (λ l. fd_of l a) same in
      let (t, u, r, at, old, len2, others) =
        reads k a s2 stray (ground arith) free other (rw len inside) in
      let (v, q, over_i, over_k, kept) =
        writes_back i k t u apart (others i apart ∙ ground arith) at (rw len2 (rw len inside)) in
      (
        v,
        Reach-append c stack job
            (Reach-append c stack job
              (next (next here (attach i at_i free)) (set_id i (ground arith))) r)
            q,
        over_i,
        over_k,
        kept ∙ old ∙ fd,
      )
