-- ===== src/Chat/Console/Ends.antt =====
-- How the loop of the console goes on every input.
use aip_pkussm.Prelude.{List, [], ◌∷◌}
use aip_pkussm.Chat.Console.{Action, run_quit, run_put, run_get, run_send, overflow, spinning}

-- The actions end with a `break`, an overflow, or `cin` that has failed, and not because there are no
-- rounds left.
abbrev pub AreDecided : List Action → Type 0
AreDecided [] = ⊥
AreDecided (run_quit ∷ rest) = Unit
AreDecided (overflow ∷ rest) = Unit
AreDecided (spinning ∷ rest) = Unit
AreDecided (run_put name ∷ rest) = AreDecided rest
AreDecided (run_get name ∷ rest) = AreDecided rest
AreDecided (run_send toid content ∷ rest) = AreDecided rest
