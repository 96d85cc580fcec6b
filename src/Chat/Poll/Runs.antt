-- ===== src/Chat/Poll/Runs.antt =====
-- What a client of the interface can observe over any sequence of calls.
use aip_pkussm.Prelude.{◌≡◌, refl, some, List, [], ◌∷◌, ◌++◌, arith}
use aip_pkussm.Chat.Poll.{MessagePoll, IsMailbox, Call, puts, gets, run, replay}

module _ {A : Type 0} (p : MessagePoll A) (i : IsMailbox p) where
  open i use {Fits, Holds, put_holds, get_holds, get_empty}

  abbrev pub AllFit : List (Call A) → Type 0
  AllFit [] = Unit
  AllFit (puts a ∷ calls) = Fits a × AllFit calls
  AllFit (gets ∷ calls) = AllFit calls

  -- From a state that holds a queue, the calls return what they return on the list, and end in a
  -- state that holds what is left of the list.
  pub run_refines :
      (calls : List (Call A)) (s : p.State) (q : List A)
      → Holds s q
      → AllFit calls
      → (last : p.State) × (run p calls s ≡ some ((replay calls q).0, last))
        × Holds last (replay calls q).1
  unfolding run replay
  run_refines [] s q h fit = (s, refl, h)
  run_refines (puts a ∷ calls) s q h (fits, fit) =
      let (t, e, held) = put_holds s q a h fits in
      let (last, r, kept) = run_refines calls t (q ++ (a ∷ [])) held fit in
      (last, ground (arith, e, r), kept)
  run_refines (gets ∷ calls) s [] h fit =
      let e = get_empty s h in
      let (last, r, kept) = run_refines calls s [] h fit in (last, ground (arith, e, r), kept)
  run_refines (gets ∷ calls) s (a ∷ q) h fit =
      let (t, e, held) = get_holds s q a h in
      let (last, r, kept) = run_refines calls t [] held fit in (last, ground (arith, e, r), kept)
