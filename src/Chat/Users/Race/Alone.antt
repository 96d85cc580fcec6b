-- ===== src/Chat/Users/Race/Alone.antt =====
-- A thread that is not disturbed does what `conn_handler` does.
use aip_pkussm.Prelude.{
  update, ℕ, zero, suc, ◌+◌, ◌≤◌, ◌≡◌, ◌≢◌, refl, sym, ap, ◌∙◌, true, false, some, List, [], ◌∷◌,
  length, get_elem?, set, get_elem?_of_lt, take, Option-cases, inl, inr, arith,
}
use aip_pkussm.Chat.{Message}
use aip_pkussm.Chat.Users.{
  User, Cmsg, ControlMsg, max_user_name_len, get_users, put_users, conn_handler,
}
use aip_pkussm.Chat.Users.Race.{
  Job, before, attached, wrote_id, wrote_connfd, wrote_name, copying, storing, done, Table, modify,
  moved, attach, set_id, set_connfd, set_name, acquire, load, store, release, Reach, here, next,
}

set_same :
    (users : List User) (j : ℕ) (u : User) → get_elem? users j ≡ some u → set users j u ≡ users
set_same [] j u h = refl
set_same (x ∷ users) zero u h = ground arith
set_same (x ∷ users) (suc j) u h = ap (λ l. x ∷ l) (set_same users j u h)

modify-set :
    (users : List User) (i : ℕ) (u : User) (f : User → User)
    → get_elem? users i ≡ some u
    → modify users i f ≡ set users i (f u)
unfolding modify
modify-set [] i u f h = refl
modify-set (x ∷ users) zero u f h = ground arith
modify-set (x ∷ users) (suc i) u f h = ap (λ l. x ∷ l) (modify-set users i u f h)

modify-modify :
    (users : List User) (i : ℕ) (f g : User → User)
    → modify (modify users i f) i g ≡ modify users i (λ u. g (f u))
unfolding modify
modify-modify [] i f g = refl
modify-modify (u ∷ users) zero f g = refl
modify-modify (u ∷ users) (suc i) f g = ap (λ l. u ∷ l) (modify-modify users i f g)

-- The three writes of a thread, in order.
abbrev pub writes : Job → List User → List User
writes j users =
    modify
      (modify (modify users j.id (λ u. record u { id = j.id })) j.id
        (λ u. record u { connfd = j.connfd }))
      j.id (λ u. record u { name = take max_user_name_len j.name })

writes-set :
    (j : Job) (users : List User) (u : User)
    → get_elem? users j.id ≡ some u
    → writes j users
      ≡ set users j.id
          (record u { id = j.id; connfd = j.connfd; name = take max_user_name_len j.name })
writes-set j users u h =
    ap (λ l. modify l j.id (λ u. record u { name = take max_user_name_len j.name }))
      (modify-modify users j.id (λ u. record u { id = j.id }) (λ u. record u { connfd = j.connfd }))
    ∙ modify-modify users j.id (λ u. record u { id = j.id; connfd = j.connfd })
        (λ u. record u { name = take max_user_name_len j.name })
    ∙ modify-set users j.id u
        (λ u. record u { id = j.id; connfd = j.connfd; name = take max_user_name_len j.name }) h

writes-handled :
    (c : Cmsg) (stack : ControlMsg) (j : Job) (m : Message) (users users' : List User)
    → j.id ≡ m.from
    → j.name ≡ m.fname
    → conn_handler c stack m j.connfd users ≡ some users'
    → put_users c (writes j (get_users c stack users)) ≡ users'
unfolding conn_handler
writes-handled c stack j m users users' same_id same_name handled =
    elim (Option-cases (get_elem? (get_users c stack users) m.from)) [
      | inl e ↦ ground (arith, handled, e)
      | inr (u, e) ↦ ground (
        arith,
        handled,
        e,
        same_id,
        same_name,
        writes-set j (get_users c stack users) u (rw same_id e),
      )
    ]

module _ (c : Cmsg) (stack : ControlMsg) (job : ℕ → Job) where
  pub Reach-append :
      {s t u : Table} → Reach c stack job s t → Reach c stack job t u → Reach c stack job s u
  Reach-append r here = r
  Reach-append r (next q st) = next (Reach-append r q) st

  -- `memcpy` over entries that nobody else writes leaves the table as it is.
  pub copy_on :
      (i left j : ℕ) (s : Table)
      → s.pc i ≡ copying j
      → j + left ≤ length s.users
      → (t : Table) × Reach c stack job s t
        × (t.users ≡ s.users)
        × (t.lock ≡ s.lock)
        × (t.pc i ≡ copying (j + left))
        × ((k : ℕ) → k ≢ i → t.pc k ≡ s.pc k)
  copy_on i zero j s at h =
      let e : j + 0 ≡ j = omega arith in (s, here, refl, refl, at ∙ ap copying (sym e), λ k n. refl)
  copy_on i (suc left) j s at h =
      let (u, there) = get_elem?_of_lt s.users j (omega arith) in
      let s1 = moved c stack job s i (storing j u) s.users in
      let s2 = moved c stack job s1 i (copying (suc j)) (set s1.users j u) in
      let same = set_same s.users j u there in
      let e : suc j + left ≡ j + suc left = omega arith in
      let (t, r, users, lock, at2, others) =
        copy_on i left (suc j) s2 (ground arith) (rw same (omega arith)) in
      (
        t,
        Reach-append (next (next here (load i j u at there)) (store i j u (ground arith))) r,
        users ∙ same,
        lock,
        at2 ∙ ap copying e,
        λ k n. others k n ∙ ground arith,
      )

  -- `putMessage` of a thread from the lock on, undisturbed.
  pub put_on :
      (i : ℕ) (s : Table)
      → s.pc i ≡ wrote_name
      → s.lock ≡ false
      → (t : Table) × Reach c stack job s t
        × (t.users ≡ put_users c s.users)
        × (t.lock ≡ false)
        × (t.pc i ≡ done)
        × ((k : ℕ) → k ≢ i → t.pc k ≡ s.pc k)
  put_on i s at free =
      let s1 : Table = record s {
        users = put_users c s.users;
        lock = true;
        pc = update s.pc i (copying 0);
      } in
      let n = length s1.users in
      let (t, r, users, lock, at2, others) = copy_on i n 0 s1 (ground arith) (omega arith) in
      let e : 0 + n ≡ n = omega arith in
      (
        record t { lock = false; pc = update t.pc i done },
        next (Reach-append (next here (acquire i at free)) r)
            (release i (at2 ∙ ap copying (e ∙ ap (λ (l : List User). length l) (sym users)))),
        users,
        refl,
        ground arith,
        λ k n. ground (arith, others k n),
      )

  -- A thread that runs `conn_handler` from its start while no other takes a step can come to its end
  -- with the table that `conn_handler` makes of its message, and leaves the lock free.
  pub alone-handles :
      (i : ℕ) (m : Message) (s : Table) (users' : List User)
      → s.pc i ≡ before
      → s.lock ≡ false
      → (job i).id ≡ m.from
      → (job i).name ≡ m.fname
      → conn_handler c stack m (job i).connfd s.users ≡ some users'
      → (t : Table) × Reach c stack job s t
        × (t.users ≡ users')
        × (t.lock ≡ false)
        × (t.pc i ≡ done)
        × ((k : ℕ) → k ≢ i → t.pc k ≡ s.pc k)
  unfolding conn_handler
  alone-handles i m s users' at free same_id same_name handled =
      let id = (job i).id in
      let temp = get_users c stack s.users in
      let f1 : User → User = λ u. record u { id = id } in
      let f2 : User → User = λ u. record u { connfd = (job i).connfd } in
      let f3 : User → User = λ u. record u { name = take max_user_name_len (job i).name } in
      let l1 = modify temp id f1 in
      let l2 = modify l1 id f2 in
      let l3 = modify l2 id f3 in
      let s1 = moved c stack job s i attached temp in
      let s2 = moved c stack job s1 i wrote_id l1 in
      let s3 = moved c stack job s2 i wrote_connfd l2 in
      let s4 = moved c stack job s3 i wrote_name l3 in
      let (t, r, users, lock, over, others) = put_on i s4 (ground arith) free in
      (
        t,
        Reach-append
            (next
              (next (next (next here (attach i at free)) (set_id i (ground arith)))
                (set_connfd i (ground arith)))
              (set_name i (ground arith)))
            r,
        users ∙ writes-handled c stack (job i) m s.users users' same_id same_name handled,
        lock,
        over,
        λ k n. others k n ∙ ground arith,
      )
