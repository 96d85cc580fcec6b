-- ===== src/Net.antt =====
-- The socket calls that the programs make, and code that stops at a failed call.
-- The kernel is no part of the repository: `Socket` is a parameter of every definition that sends
-- or receives, and `Delivers` and `Feeds` name what a theorem may rely on.
pub mod Loopback
use aip_pkussm.Prelude.{
  ℕ, ◌≤◌, ◌≡◌, ◌⊎◌, inl, inr, refl, Bool, true, Option, none, some, List, ◌++◌, take, drop, length,
  if◌then◌else◌,
}

-- `send` answers false for -1. `recv` answers `none` for -1, and the bytes it wrote otherwise.
pub record Socket : Type 1 where
  pub State : Type 0
  pub send : State → List ℕ → Bool × State
  pub recv : State → ℕ → Option (List ℕ) × State

-- What code over a state returns: its value, the error branch that it took after a call that
-- answered -1, or a fault: an access outside of the object that it means to use.
pub data Io (S A : Type 0) : Type 0 where
  ok : A → S → Io S A
  failed : S → Io S A
  fault : Io S A

-- The parts of an `ok` result.
pub ok_value : {S A : Type 0} {a b : A} {s t : S} → ◌≡◌ {A = Io S A} (ok a s) (ok b t) → a ≡ b
ok_value e = cc

pub ok_state : {S A : Type 0} {a b : A} {s t : S} → ◌≡◌ {A = Io S A} (ok a s) (ok b t) → s ≡ t
ok_state e = cc

abbrev pub Exec : Type 0 → Type 0 → Type 0
Exec S A = S → Io S A

infixl 5 ◌>>=◌ ◌>>◌
abbrev pub ◌>>=◌ : {S A B : Type 0} → Exec S A → (A → Exec S B) → Exec S B
◌>>=◌ m f s = elim (m s) [ ok a s' ↦ f a s' | failed s' ↦ failed s' | fault ↦ fault ]

abbrev pub ◌>>◌ : {S B : Type 0} → Exec S (Unit {0}) → Exec S B → Exec S B
m >> n = m >>= λ _. n

abbrev pub pure : {S A : Type 0} → A → Exec S A
pure a s = ok a s

-- The value of an access that `none` marks as out of range.
abbrev pub access : {S A : Type 0} → Option A → Exec S A
access none s = fault
access (some a) s = ok a s

module _ (k : Socket) where
  unfoldable pub send : List ℕ → Exec k.State (Unit {0})
  send bytes s = let (good, s') = k.send s bytes in if good then ok tt s' else failed s'

  unfoldable pub recv : ℕ → Exec k.State (List ℕ)
  recv n s = let (r, s') = k.recv s n in elim r [ none ↦ failed s' | some bytes ↦ ok bytes s' ]

-- The peer takes every byte: `sent s` is what has gone out so far.
pub record Delivers (k : Socket) : Type 0 where
  pub sent : k.State → List ℕ
  pub good : (s : k.State) (b : List ℕ) → (k.send s b).0 ≡ true
  pub grows : (s : k.State) (b : List ℕ) → sent (k.send s b).1 ≡ sent s ++ b

-- Bytes that have arrived are handed out in order, as many as `recv` asks for.
pub record Feeds (k : Socket) : Type 0 where
  pub pending : k.State → List ℕ
  pub takes :
      (s : k.State) (n : ℕ) → n ≤ length (pending s) → (k.recv s n).0 ≡ some (take n (pending s))
  pub leaves :
      (s : k.State) (n : ℕ) → n ≤ length (pending s) → pending (k.recv s n).1 ≡ drop n (pending s)

-- A connection that does both, where sending takes nothing away from what has arrived.
pub record Link (k : Socket) : Type 0 where
  pub delivers : Delivers k
  pub open delivers use *
  pub feeds : Feeds k
  pub open feeds use *
  pub send_keeps : (s : k.State) (b : List ℕ) → pending (k.send s b).1 ≡ pending s
  pub recv_keeps : (s : k.State) (n : ℕ) → sent (k.recv s n).1 ≡ sent s

-- What a stream promises: a read hands out some of the bytes that have arrived, in order, at most as
-- many as it asks for.
pub record Streams (k : Socket) : Type 0 where
  pub arrived : k.State → List ℕ
  pub hands_out :
      (s : k.State) (n : ℕ)
      → (bytes : List ℕ) × (length bytes ≤ n)
        × ((k.recv s n).0 ≡ some bytes)
        × (arrived s ≡ bytes ++ arrived (k.recv s n).1)

-- Whatever it answers, a read puts at most as many bytes as it is asked for.
abbrev pub IsBounded : Socket → Type 0
IsBounded k =
    (s : k.State) (n : ℕ) (bytes : List ℕ) → (k.recv s n).0 ≡ some bytes → length bytes ≤ n

pub Io-cases :
    {S A : Type 0} (m : Io S A)
    → ((a : A) × (s : S) × (m ≡ ok a s)) ⊎ ((s : S) × (m ≡ failed s)) ⊎ (m ≡ fault)
Io-cases (ok a s) = inl (a, s, refl)
Io-cases (failed s) = inr (inl (s, refl))
Io-cases fault = inr (inr refl)
