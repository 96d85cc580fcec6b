-- ===== src/Chat/Dispatch/Delivery.antt =====
-- Where `loop_dispatch` sends a message.
use aip_pkussm.Prelude.{
  ℕ, ◌+◌, ◌<◌, ◌||◌, ◌&&◌, Bool, some_inj, if◌then◌else◌, zero, suc, ◌≡◌, ◌≢◌, refl, ◌∙◌, ap, ◌==◌,
  ==_iff, Bool-cases, Option-cases, inl, inr, none, some, List, [], ◌∷◌, ◌++◌, length, get_elem?,
  map, ℤ, pos, arith, to_size, take-length,
}
use aip_pkussm.Chat.{Message, Layout, block, copy_from}
use aip_pkussm.Chat.Users.{User}
use aip_pkussm.Chat.Users.Table.{fd_of, connfd_of}
use aip_pkussm.Chat.Dispatch.{Send, dispatch}

get_elem?_of_fd :
    (users : List User) (i : ℕ) (fd : ℤ)
    → fd_of users i ≡ some fd
    → (u : User) × (get_elem? users i ≡ some u) × (u.connfd ≡ fd)
unfolding fd_of
get_elem?_of_fd [] i fd h = cc
get_elem?_of_fd (u ∷ users) zero fd h = (u, refl, cc)
get_elem?_of_fd (u ∷ users) (suc i) fd h = get_elem?_of_fd users i fd h

module _ (w : Layout) (m : Message) (text : List ℕ) (users : List User)
    (size : m.data_size ≡ pos (length text)) (body : m.data_ptr ≡ block text) where
  copied : copy_from m.data_ptr (to_size m.data_size) ≡ some text
  copied = ground (arith, take-length (length text) text refl)

  -- A message to one user is sent once: to the connection that the table has for that user.
  pub dispatch-one :
      (fd : ℤ)
      → m.to ≢ 0
      → fd_of users m.to ≡ some fd
      → dispatch w m users ≡ some (record { connfd = fd; buff = w.bytes m ++ text } ∷ [])
  unfolding dispatch
  dispatch-one fd addressed there =
      let (u, e, f) = get_elem?_of_fd users m.to fd there in ground (arith, copied, e, f)

  -- A broadcast of a user other than 0 is sent once to each entry of the table, in order.
  pub dispatch-all :
      m.to ≡ 0
      → m.from ≢ 0
      → dispatch w m users
        ≡ some (map (λ (u : User). record { connfd = u.connfd; buff = w.bytes m ++ text }) users)
  unfolding dispatch
  dispatch-all broadcast known = ground (arith, copied)

  -- A broadcast of user 0 is dropped.
  pub dispatch-dropped : m.to ≡ 0 → m.from ≡ 0 → dispatch w m users ≡ some []
  unfolding dispatch
  dispatch-dropped broadcast zero_id = ground arith

-- Whether a message is for the user of an entry of the table.
abbrev pub is_for : Message → ℕ → Bool
is_for m i = m.to == 0 || m.to == i

-- The connections of the entries that a message is for, where the first entry has the index `i`.
unfoldable pub addressees : Message → ℕ → List User → List ℤ
addressees m i [] = []
addressees m i (u ∷ users) =
    let rest = addressees m (i + 1) users in if is_for m i then u.connfd ∷ rest else rest

addressees_all :
    (m : Message) (i : ℕ) (users : List User)
    → m.to ≡ 0
    → addressees m i users ≡ map connfd_of users
unfolding addressees
addressees_all m i [] all = refl
addressees_all m i (u ∷ users) all = ground (arith, addressees_all m (i + 1) users all)

addressees_behind :
    (m : Message) (i : ℕ) (users : List User) → m.to ≢ 0 → m.to < i → addressees m i users ≡ []
unfolding addressees
addressees_behind m i [] one before = refl
addressees_behind m i (u ∷ users) one before =
    ground (arith, addressees_behind m (i + 1) users one (omega arith))

addressees_one :
    (m : Message) (i n : ℕ) (users : List User) (fd : ℤ)
    → m.to ≢ 0
    → m.to ≡ i + n
    → fd_of users n ≡ some fd
    → addressees m i users ≡ fd ∷ []
unfolding addressees fd_of
addressees_one m i n [] fd one at there = absurd cc
addressees_one m i zero (u ∷ users) fd one at there =
    let same : u.connfd ≡ fd = some_inj there in
    ground (arith, addressees_behind m (i + 1) users one (omega arith))
addressees_one m i (suc n) (u ∷ users) fd one at there =
    ground (arith, addressees_one m (i + 1) n users fd one (omega arith) there)

abbrev pub send_to : List ℕ → ℤ → Send
send_to buff fd = record { connfd = fd; buff = buff }

map-send_to :
    (buff : List ℕ) (users : List User)
    → map (λ (u : User). record { connfd = u.connfd; buff = buff }) users
      ≡ map (send_to buff) (map connfd_of users)
map-send_to buff [] = refl
map-send_to buff (u ∷ users) = ap (λ xs. send_to buff u.connfd ∷ xs) (map-send_to buff users)

-- A message whose data has the size that it says, to an id of the table, is sent once, as its struct
-- and its data, to the connection of each entry that it is for, in the table's order, be it one
-- that no user has entered, and to no other. A message from user 0 to all is not sent at all.
pub dispatch-addressees :
    (w : Layout) (m : Message) (text : List ℕ) (users : List User)
    → m.data_size ≡ pos (length text)
    → m.data_ptr ≡ block text
    → fd_of users m.to ≢ none
    → dispatch w m users
      ≡ some (
          if m.to == 0 && m.from == 0
          then []
          else map (send_to (w.bytes m ++ text)) (addressees m 0 users))
dispatch-addressees w m text users size body known = elim (Bool-cases (m.to == 0)) [
  | inl e ↦ elim (Bool-cases (m.from == 0)) [
    | inl f ↦
        dispatch-dropped w m text users size body ((==_iff m.to 0).0 e) ((==_iff m.from 0).0 f)
        ∙ ground (arith, e, f)
    | inr f ↦
        dispatch-all w m text users size body ((==_iff m.to 0).0 e) (λ z. ground (arith, z, f))
        ∙ rw (addressees_all m 0 users ((==_iff m.to 0).0 e))
            (ground (arith, e, f, map-send_to (w.bytes m ++ text) users))
  ]
  | inr e ↦ elim (Option-cases (fd_of users m.to)) [
    | inl n ↦ absurd (known n)
    | inr (fd, there) ↦
        let one : m.to ≢ 0 = λ z. ground (arith, z, e) in
        dispatch-one w m text users size body fd one there
        ∙ rw (addressees_one m 0 m.to users fd one (omega arith) there) (ground (arith, e))
  ]
]
