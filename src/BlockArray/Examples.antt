-- ===== src/BlockArray/Examples.antt =====
-- The theorems on Operating-systems/lab1/zad3a at a small array.
use agh_ust_projects.Prelude.{◌≡◌, ℕ, zero, suc, true, [], ◌∷◌, some, none, arith}
use mathlib.Core.Path.{subst}
use agh_ust_projects.Prelude.Int.{pos}
use agh_ust_projects.BlockArray.{Block, ArrayOfBlocks, sum_of_ascii, find_closest}
use agh_ust_projects.BlockArray.Orders.{State}
use agh_ust_projects.BlockArray.Closest.{Fits, InRange, Found, find_closest-Best}

abbrev three : ArrayOfBlocks
three = record {
  array = some (97 ∷ 98 ∷ []) ∷ none ∷ some (65 ∷ []) ∷ [];
  size = 3;
  is_dynamic = true;
}

three-InRange : InRange three (pos 100)
unfolding sum_of_ascii
three-InRange zero c e =
    let same : 97 ∷ 98 ∷ [] ≡ c = cc in
    subst (λ (v : Block). Fits v (pos 100)) same ((ground arith), omega arith, omega arith)
three-InRange (suc zero) c e = absurd (ground (arith, e))
three-InRange (suc (suc zero)) c e =
    let same : 65 ∷ [] ≡ c = cc in
    subst (λ (v : Block). Fits v (pos 100)) same ((ground arith), omega arith, omega arith)
three-InRange (suc (suc (suc j))) c e = absurd (ground (arith, e))

find_closest-Best_example : Found three (pos 100) 3 (find_closest three (pos 100))
find_closest-Best_example = find_closest-Best three (pos 100) three-InRange

-- In place of `rand`.
abbrev count_up : ℕ → ℕ
count_up k = k

abbrev start_state : State
start_state = record { array = some three; calls = 0 }
