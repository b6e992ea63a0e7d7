-- ===== src/BlockArray/Orders.antt =====
-- The orders of Operating-systems/lab1/zad3a/main.c: `operation` and the loop of main over the words of
-- the command line behind the first four.
pub mod Written
use agh_ust_projects.Prelude.{
  ℕ, zero, suc, ◌+◌, Bool, true, false, List, [], ◌∷◌, Option, none, some, ◌||◌, leb, if◌then◌else◌,
}
use agh_ust_projects.Prelude.Int.{ℤ, pos, negsuc}
use agh_ust_projects.CLibrary.{str_eq, atoi}
use agh_ust_projects.BlockArray.{ArrayOfBlocks, remove_x_blocks, add_x_blocks, repeat_remove_add}

abbrev pub search_word : List ℕ
search_word =
    b's' ∷ b'e' ∷ b'a' ∷ b'r' ∷ b'c' ∷ b'h' ∷ b'_' ∷ b'e' ∷ b'l' ∷ b'e' ∷ b'm' ∷ b'e' ∷ b'n' ∷ b't'
    ∷ []

abbrev pub remove_word : List ℕ
remove_word = b'r' ∷ b'e' ∷ b'm' ∷ b'o' ∷ b'v' ∷ b'e' ∷ []

abbrev pub add_word : List ℕ
add_word = b'a' ∷ b'd' ∷ b'd' ∷ []

abbrev pub remove_and_add_word : List ℕ
remove_and_add_word =
    b'r' ∷ b'e' ∷ b'm' ∷ b'o' ∷ b'v' ∷ b'e' ∷ b'_' ∷ b'a' ∷ b'n' ∷ b'd' ∷ b'_' ∷ b'a' ∷ b'd' ∷ b'd'
    ∷ []

-- The array, and the strings that were made so far.
pub record State : Type 0 where
  pub array : Option ArrayOfBlocks
  pub calls : ℕ

-- How the loop of main ends: at the end of the words, at a number that is missing, which `atoi` reads
-- through a null pointer, or at an order for whose times `realTime` has no room.
pub data Run : Type 0 where
  done : State → Run
  no_number no_room : Run

-- The rounds of a loop up to `how`.
abbrev pub rounds : ℤ → ℕ
rounds (pos n) = n
rounds (negsuc n) = 0

module _ (rand : ℕ → ℕ) (len : ℕ) where
  abbrev pub removed : ℤ → ℤ → State → State
  removed how from s = record s { array = remove_x_blocks (rounds how) s.array from }

  abbrev pub added : ℤ → ℤ → State → State
  added how from s = record {
    array = add_x_blocks rand (rounds how) len s.calls s.array from;
    calls = s.calls + rounds how;
  }

  abbrev pub replaced : ℤ → State → State
  replaced how s = record {
    array = repeat_remove_add rand (rounds how) len s.calls s.array (pos 0);
    calls = s.calls + rounds how;
  }

  -- A search prints nothing and changes nothing; `len` is `blockSize - 1`.
  unfoldable pub operation : List ℕ → ℤ → ℤ → State → State
  operation to_do how from s =
      if str_eq to_do search_word
      then s
      else if str_eq to_do remove_word
      then removed how from s
      else if str_eq to_do add_word
      then added how from s
      else if str_eq to_do remove_and_add_word
      then replaced how s
      else s

  abbrev pub has_from : List ℕ → Bool
  has_from order = str_eq order add_word || str_eq order remove_word

  -- The loop of main, with the orders left for whose times `realTime`, which has 20 places, has room:
  -- `rem` starts at 4, so these are 8. `from` keeps the value of the order before, which is read by no
  -- order without one of its own.
  unfoldable pub main_loop : ℕ → List (List ℕ) → State → Run
  main_loop places [] s = done s
  main_loop places (order ∷ []) s = no_number
  main_loop zero (order ∷ how ∷ rest) s = elim (has_from order) [
    | false ↦ no_room
    | true ↦ elim rest [ [] ↦ no_number | from ∷ more ↦ no_room ]
  ]
  main_loop (suc places) (order ∷ how ∷ rest) s = elim (has_from order) [
    | false ↦ main_loop places rest (operation order (atoi how) (pos 0) s)
    | true ↦ elim rest [
      | [] ↦ no_number
      | from ∷ more ↦ main_loop places more (operation order (atoi how) (atoi from) s)
    ]
  ]
