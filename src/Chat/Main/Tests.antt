-- ===== src/Chat/Main/Tests.antt =====
-- The start of the chatroom's server at a concrete input.
use aip_pkussm.Prelude.{◌≡◌, refl, true, false, some, [], ◌∷◌, ◌++◌, codes, ℤ, pos, CString, length}
use aip_pkussm.Listener.{connected, interrupted, waiting}
use aip_pkussm.Chat.Main.{main, all_good, main-serves}

abbrev size_of : CString → ℤ
size_of s = pos (length s)

main-serves_example :
    main size_of true
      (λ port. all_good)
      ([] ++ (codes "-p" ∷ codes "8080" ∷ []))
      ((connected 4, true) ∷ (interrupted, false) ∷ (connected 5, true) ∷ [])
    ≡ some (4 ∷ 5 ∷ [], waiting)
main-serves_example =
    main-serves size_of (λ port. all_good) [] (codes "8080")
      ((connected 4, true) ∷ (interrupted, false) ∷ (connected 5, true) ∷ []) tt refl
      (refl, (tt, (refl, tt)))
