-- ===== src/RecordFile/Examples.antt =====
-- The theorems on Operating-systems/lab2/zad1/main.c at concrete files.
use agh_ust_projects.Prelude.{arith, List, [], ◌∷◌}
use agh_ust_projects.RecordFile.{Record, sort_sys, sort_lib}
use agh_ust_projects.RecordFile.Sorting.{Sorts, sort-Sorts}

abbrev three : List Record
three = (67 ∷ 10 ∷ []) ∷ (65 ∷ 10 ∷ []) ∷ (66 ∷ 10 ∷ []) ∷ []

sort-Sorts_example : Sorts 2 three (sort_sys 2 three) × Sorts 2 three (sort_lib 2 three)
sort-Sorts_example = sort-Sorts 2 three (omega arith)
