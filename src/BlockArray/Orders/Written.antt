-- ===== src/BlockArray/Orders/Written.antt =====
-- The loop of Operating-systems/lab1/zad3a/main.c on orders that are written out.
use agh_ust_projects.Prelude.{ℕ, zero, suc, ◌≤◌, ◌<◌, ◌≡◌, refl, List, [], ◌∷◌, length, arith}
use agh_ust_projects.Prelude.Int.{ℤ, pos}
use agh_ust_projects.CLibrary.{str_eq, print_ℤ, atoi}
use agh_ust_projects.CLibrary.Numerals.{atoi-print_ℤ}
use agh_ust_projects.BlockArray.Orders.{
  State, done, no_room, search_word, remove_word, add_word, remove_and_add_word, removed, added,
  replaced, operation, main_loop,
}

-- What the words of the command line ask for.
pub data Order : Type 0 where
  search replace : ℤ → Order
  remove add : ℤ → ℤ → Order

pub written : List Order → List (List ℕ)
written [] = []
written (search how ∷ os) = search_word ∷ print_ℤ how ∷ written os
written (replace how ∷ os) = remove_and_add_word ∷ print_ℤ how ∷ written os
written (remove how from ∷ os) = remove_word ∷ print_ℤ how ∷ print_ℤ from ∷ written os
written (add how from ∷ os) = add_word ∷ print_ℤ how ∷ print_ℤ from ∷ written os

module _ (rand : ℕ → ℕ) (len : ℕ) where
  abbrev pub perform : Order → State → State
  perform (search how) s = s
  perform (replace how) s = replaced rand len how s
  perform (remove how from) s = removed rand len how from s
  perform (add how from) s = added rand len how from s

  pub perform_all : List Order → State → State
  perform_all [] s = s
  perform_all (o ∷ os) s = perform_all os (perform o s)

  -- Up to as many orders as there is room for, written out, are carried out one after the other.
  pub main_loop-written :
      (places : ℕ) (os : List Order) (s : State)
      → length os ≤ places
      → main_loop rand len places (written os) s ≡ done (perform_all os s)
  unfolding main_loop written perform_all operation str_eq
  main_loop-written places [] s h = refl
  main_loop-written zero (o ∷ os) s h = absurd (omega arith)
  main_loop-written (suc places) (remove how from ∷ os) s h =
      rw (atoi-print_ℤ how, atoi-print_ℤ from)
        (main_loop-written places os (removed rand len how from s) (omega arith))
  main_loop-written (suc places) (add how from ∷ os) s h =
      rw (atoi-print_ℤ how, atoi-print_ℤ from)
        (main_loop-written places os (added rand len how from s) (omega arith))
  main_loop-written (suc places) (search how ∷ os) s h = main_loop-written places os s (omega arith)
  main_loop-written (suc places) (replace how ∷ os) s h =
      rw (atoi-print_ℤ how) (main_loop-written places os (replaced rand len how s) (omega arith))

  -- With one order more, the loop writes behind the times.
  pub main_loop-no_room :
      (places : ℕ) (os : List Order) (s : State)
      → places < length os
      → main_loop rand len places (written os) s ≡ no_room
  unfolding main_loop written operation str_eq
  main_loop-no_room places [] s h = absurd (omega arith)
  main_loop-no_room zero (remove how from ∷ os) s h = refl
  main_loop-no_room zero (add how from ∷ os) s h = refl
  main_loop-no_room zero (search how ∷ os) s h = refl
  main_loop-no_room zero (replace how ∷ os) s h = refl
  main_loop-no_room (suc places) (remove how from ∷ os) s h =
      main_loop-no_room places os
        (operation rand len remove_word (atoi (print_ℤ how)) (atoi (print_ℤ from)) s) (omega arith)
  main_loop-no_room (suc places) (add how from ∷ os) s h =
      main_loop-no_room places os
        (operation rand len add_word (atoi (print_ℤ how)) (atoi (print_ℤ from)) s) (omega arith)
  main_loop-no_room (suc places) (search how ∷ os) s h = main_loop-no_room places os s (omega arith)
  main_loop-no_room (suc places) (replace how ∷ os) s h =
      main_loop-no_room places os
        (operation rand len remove_and_add_word (atoi (print_ℤ how)) (pos 0) s) (omega arith)
