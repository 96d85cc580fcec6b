-- ===== src/Chat/Poll.antt =====
-- A5/Chatroom/include/MessagePoll.h: the interface between the threads that put messages and the one
-- that gets them, and what its implementation keeps of it: a queue of which a `getMessage`
-- returns the first message and drops the others.
pub mod Runs
use aip_pkussm.Prelude.{◌≡◌, Option, none, some, List, [], ◌∷◌, ◌++◌}

-- The two virtual methods, over what an implementation keeps. `put_message` answers `none` for an
-- access out of range, `get_message` where it would wait for a message.
pub record MessagePoll (A : Type 0) : Type 1 where
  pub State : Type 0
  pub put_message : A → State → Option State
  pub get_message : State → Option (A × State)

-- What a state holds, for values that the implementation can carry.
pub record IsMailbox {A : Type 0} (p : MessagePoll A) : Type 1 where
  pub Fits : A → Type 0
  pub Holds : p.State → List A → Type 0
  pub put_holds :
      (s : p.State) (q : List A) (a : A)
      → Holds s q
      → Fits a
      → (t : p.State) × (p.put_message a s ≡ some t) × Holds t (q ++ (a ∷ []))
  pub get_holds :
      (s : p.State) (q : List A) (a : A)
      → Holds s (a ∷ q)
      → (t : p.State) × (p.get_message s ≡ some (a, t)) × Holds t []
  pub get_empty : (s : p.State) → Holds s [] → p.get_message s ≡ none

-- A call of one of the methods.
pub data Call (A : Type 0) : Type 0 where
  puts : A → Call A
  gets : Call A

-- Calls in a row: what each `get` returns, with `none` where it would wait.
module _ {A : Type 0} (p : MessagePoll A) where
  unfoldable pub run : List (Call A) → p.State → Option (List (Option A) × p.State)
  run [] s = some ([], s)
  run (puts a ∷ calls) s = elim (p.put_message a s) [ none ↦ none | some t ↦ run calls t ]
  run (gets ∷ calls) s = elim (p.get_message s) [
    | none ↦ elim (run calls s) [ none ↦ none | some (got, last) ↦ some (none ∷ got, last) ]
    | some (a, t) ↦ elim (run calls t) [
      | none ↦ none
      | some (got, last) ↦ some (some a ∷ got, last)
    ]
  ]

-- The same calls on a list, of which `gets` takes the first and drops the others.
unfoldable pub replay : {A : Type 0} → List (Call A) → List A → List (Option A) × List A
replay [] q = ([], q)
replay (puts a ∷ calls) q = replay calls (q ++ (a ∷ []))
replay (gets ∷ calls) [] = let (got, last) = replay calls [] in (none ∷ got, last)
replay (gets ∷ calls) (a ∷ q) = let (got, last) = replay calls [] in (some a ∷ got, last)
