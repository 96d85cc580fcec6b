-- ===== src/Chat/Tests/Threads.antt =====
-- The theorems about threads at the table of users and its segment, at concrete inputs.
use aip_pkussm.Chat.Tests.{headers}
use aip_pkussm.Prelude.{ℕ, suc, ◌+◌, ◌≡◌, ◌≢◌, refl, false, List, set, take, pos, arith}
use aip_pkussm.Chat.Users.{
  User, conn_handler, get_users, put_users, fresh_users, no_user, max_user_name_len,
}
use aip_pkussm.Chat.Users.Table.{fd_of}
use aip_pkussm.Chat.Users.Race.{Job, before, done, Table, Reach}
use aip_pkussm.Chat.Users.Race.Alone.{alone-handles}
use aip_pkussm.Chat.Users.Race.Lost.{lost_update}
use aip_pkussm.Chat.Client.{conn_message}
use aip_pkussm.Chat.Tests.{headers, blank, jack}

-- Thread `n` has a connection of user `n + 1`.
abbrev jobs : ℕ → Job
jobs n = record { id = suc n; connfd = pos (n + 4); name = jack.my_name }

abbrev start : Table
start = record { users = fresh_users; lock = false; pc = λ n. before }

blank-IsStray : blank.cmsg_len ≢ headers.len_of_int
blank-IsStray = omega arith

abbrev entered : List User
entered = put_users headers (
    set (get_users headers blank fresh_users) 1
      (record no_user { id = 1; connfd = pos 4; name = take max_user_name_len jack.my_name }))

alone-handles_example :
    (t : Table) × Reach headers blank jobs start t
    × (t.users ≡ entered)
    × (t.lock ≡ false)
    × (t.pc 0 ≡ done)
    × ((k : ℕ) → k ≢ 0 → t.pc k ≡ before)
unfolding conn_handler get_users put_users
alone-handles_example =
    alone-handles headers blank jobs 0 (conn_message jack) start entered refl refl refl refl refl

lost_update_example :
    (t : Table) × Reach headers blank jobs start t
    × (t.pc 0 ≡ done)
    × (t.pc 1 ≡ done)
    × (fd_of t.users 1 ≡ fd_of fresh_users 1)
lost_update_example =
    lost_update headers blank jobs 0 1 start (omega arith) blank-IsStray refl refl refl
      (omega arith) (omega arith)
