-- ===== src/Listener/Rounds.antt =====
-- What the arguments and the accept loop come to.
use aip_pkussm.Prelude.{
  ◌≡◌, refl, Bool, true, false, List, [], ◌∷◌, ◌++◌, CString, codes, str_eq, str_eq_refl, ℤ, arith,
  ℕ,
}
use aip_pkussm.Listener.{port_of_args, Accept, connected, interrupted, broken, accept_loop}

-- No argument is "-p".
abbrev pub ArePlain : List CString → Type 0
ArePlain [] = Unit
ArePlain (arg ∷ args) = (str_eq (codes "-p") arg ≡ false) × ArePlain args

-- The port is the number behind the first "-p", unless a later one changes it.
pub port_of_args-first :
    (atoi : CString → ℤ) (args : List CString) (value : CString) (rest : List CString) (port : ℤ)
    → ArePlain args
    → port_of_args atoi (args ++ (codes "-p" ∷ value ∷ rest)) port
      ≡ port_of_args atoi rest (atoi value)
unfolding port_of_args
port_of_args-first atoi [] value rest port h = ground (arith, str_eq_refl (codes "-p"))
port_of_args-first atoi (arg ∷ []) value rest port h = ground (arith, h.0, str_eq_refl (codes "-p"))
port_of_args-first atoi (arg ∷ next ∷ args) value rest port h =
    ground (arith, h.0, port_of_args-first atoi (next ∷ args) value rest port h.1)

-- A round in which the loop goes on: a connection that got its thread, or an interrupted `accept`.
abbrev pub GoesOn : Accept × Bool → Type 0
GoesOn (connected connfd, created) = created ≡ true
GoesOn (interrupted, created) = Unit
GoesOn (broken, created) = ⊥

abbrev pub AllGoOn : List (Accept × Bool) → Type 0
AllGoOn [] = Unit
AllGoOn (round ∷ rounds) = GoesOn round × AllGoOn rounds

-- The connections of the rounds, in order.
abbrev pub connections : List (Accept × Bool) → List ℕ
connections [] = []
connections ((connected connfd, created) ∷ rounds) = connfd ∷ connections rounds
connections ((interrupted, created) ∷ rounds) = connections rounds
connections ((broken, created) ∷ rounds) = connections rounds

-- After rounds in each of which a connection got its thread or `accept` was interrupted, every
-- connection has been given to a thread, once and in order, and the loop goes on with the rounds
-- that follow.
pub accept_loop-append :
    (rounds more : List (Accept × Bool))
    → AllGoOn rounds
    → accept_loop (rounds ++ more)
      ≡ (connections rounds ++ (accept_loop more).0, (accept_loop more).1)
unfolding accept_loop
accept_loop-append [] more h = refl
accept_loop-append ((connected connfd, created) ∷ rounds) more h =
    ground (arith, h.0, accept_loop-append rounds more h.1)
accept_loop-append ((interrupted, created) ∷ rounds) more h = accept_loop-append rounds more h.1
accept_loop-append ((broken, created) ∷ rounds) more h = absurd h.0
