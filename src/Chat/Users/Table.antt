-- ===== src/Chat/Users/Table.antt =====
-- The table of users refines a map from ids to connections.
use aip_pkussm.Prelude.{
  ℕ, zero, suc, ◌≤◌, ◌<◌, ◌≡◌, ◌≢◌, ◌⊎◌, lt_or_le, inl, inr, refl, ◌∙◌, Option, none, some, List,
  [], ◌∷◌, ◌==◌, length, take, set, if◌then◌else◌, ℤ, arith, length-set, get_elem?_of_lt,
  get_elem?_of_le,
}
use aip_pkussm.Chat.{Message}
use aip_pkussm.Chat.Users.{
  User, Cmsg, ControlMsg, max_user_name_len, get_users, put_users, conn_handler,
}

abbrev pub connfd_of : User → ℤ
connfd_of u = u.connfd

-- The connection that the table has for an id.
unfoldable pub fd_of : List User → ℕ → Option ℤ
fd_of [] i = none
fd_of (u ∷ users) zero = some u.connfd
fd_of (u ∷ users) (suc i) = fd_of users i

-- The control block on the stack does not look like a passed descriptor.
abbrev pub IsStray : Cmsg → ControlMsg → Type 0
IsStray c stack = stack.cmsg_len ≢ c.len_of_int

pub fd_of-put_users :
    (c : Cmsg) (users : List User) (i : ℕ) → fd_of (put_users c users) i ≡ fd_of users i
unfolding fd_of put_users
fd_of-put_users c [] i = refl
fd_of-put_users c (u ∷ users) zero = refl
fd_of-put_users c (u ∷ users) (suc i) = refl

pub get_users-stray :
    (c : Cmsg) (stack : ControlMsg) (users : List User)
    → IsStray c stack
    → get_users c stack users ≡ users
unfolding get_users
get_users-stray c stack [] h = refl
get_users-stray c stack (u ∷ users) h = ground arith

pub fd_of-set :
    (users : List User) (i j : ℕ) (u : User)
    → i < length users
    → fd_of (set users i u) j ≡ (if i == j then some u.connfd else fd_of users j)
unfolding fd_of
fd_of-set [] i j u h = elim h [ ]
fd_of-set (x ∷ users) zero zero u h = refl
fd_of-set (x ∷ users) zero (suc j) u h = ground arith
fd_of-set (x ∷ users) (suc i) zero u h = ground arith
fd_of-set (x ∷ users) (suc i) (suc j) u h = ground (arith, fd_of-set users i j u)

pub length-put_users : (c : Cmsg) (users : List User) → length (put_users c users) ≡ length users
unfolding put_users
length-put_users c [] = refl
length-put_users c (u ∷ users) = refl

length-get_users :
    (c : Cmsg) (stack : ControlMsg) (users : List User)
    → length (get_users c stack users) ≡ length users
unfolding get_users
length-get_users c stack [] = refl
length-get_users c stack (u ∷ users) = ground arith

module _ (c : Cmsg) (stack : ControlMsg) (m : Message) (connfd : ℤ) (users : List User) where
  -- `conn_handler` with an id of the table succeeds, keeps the table's size, and has the table map
  -- that id to the new connection and every other id to the connection that it had, if the control
  -- block on the stack does not look like one with a descriptor.
  pub conn_handler-updates :
      IsStray c stack
      → m.from < length users
      → (users' : List User) × (conn_handler c stack m connfd users ≡ some users')
        × (length users' ≡ length users)
        × ((j : ℕ) → fd_of users' j ≡ (if m.from == j then some connfd else fd_of users j))
  unfolding conn_handler
  conn_handler-updates stray inside =
      let (u, e) = get_elem?_of_lt users m.from inside in
      let entry : User = record u {
        id = m.from;
        connfd = connfd;
        name = take max_user_name_len m.fname;
      } in
      (
        put_users c (set users m.from entry),
        ground (arith, e, get_users-stray c stack users stray),
        length-put_users c (set users m.from entry) ∙ length-set users m.from entry,
        λ j. fd_of-put_users c (set users m.from entry) j ∙ fd_of-set users m.from j entry inside,
      )

  conn_handler-fault : length users ≤ m.from → conn_handler c stack m connfd users ≡ none
  unfolding conn_handler
  conn_handler-fault outside =
      ground
        (arith, get_elem?_of_le (get_users c stack users) m.from, length-get_users c stack users)

  -- If the control block on the stack does not look like one with a descriptor: `conn_handler` with
  -- an id of the table keeps the table's size and has the table map that id to the new connection
  -- and every other id to the connection that it had; with any other id it writes outside of the
  -- segment.
  pub conn_handler-refines :
      IsStray c stack
      → ((m.from < length users)
          × (users' : List User) × (conn_handler c stack m connfd users ≡ some users')
          × (length users' ≡ length users)
          × ((j : ℕ) → fd_of users' j ≡ (if m.from == j then some connfd else fd_of users j)))
        ⊎ ((length users ≤ m.from) × (conn_handler c stack m connfd users ≡ none))
  conn_handler-refines stray = elim (lt_or_le m.from (length users)) [
    | inl inside ↦
        let (users', e, size, fds) = conn_handler-updates stray inside in
        inl (inside, users', e, size, fds)
    | inr outside ↦ inr (outside, conn_handler-fault outside)
  ]
