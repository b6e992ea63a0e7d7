-- ===== src/BlockArray.antt =====
-- The array of blocks of Operating-systems/lab1/zad3a: blockManagement.c, and the loops of
-- main.c. A string is the list of its characters before the terminator.
pub mod Slots
pub mod Filling
pub mod Closest
pub mod Orders
mod Examples
use agh_ust_projects.Prelude.{
  ℕ, zero, suc, ◌+◌, ◌-◌, Bool, true, false, List, [], ◌∷◌, Option, none, some, length, replicate,
  set, get_or, ◌%◌, ◌*◌, ltb, leb, if◌then◌else◌, ◌&&◌,
}
use agh_ust_projects.Prelude.Int.{ℤ, pos, negsuc, ltb_ℤ, ◌+ℤ◌}

abbrev pub Block : Type 0
Block = List ℕ

-- `struct arrayOfBlocks`; a slot is NULL or points to a block.
pub record ArrayOfBlocks : Type 0 where
  pub array : List (Option Block)
  pub size : ℕ
  pub is_dynamic : Bool

abbrev pub static_array_size : ℕ
static_array_size = 500000

abbrev pub static_array_block_size : ℕ
static_array_block_size = 1000

-- The contents of `staticArray` before the call are the last argument.
unfoldable pub create_array : ℤ → Bool → List (Option Block) → Option ArrayOfBlocks
create_array (negsuc k) is_dynamic static_array = none
create_array (pos zero) is_dynamic static_array = none
create_array (pos (suc k)) is_dynamic static_array =
    if is_dynamic
    then some (record { array = replicate (suc k) none; size = suc k; is_dynamic = is_dynamic })
    else some (record { array = static_array; size = suc k; is_dynamic = is_dynamic })

-- The guard of `addBlock` and `deleteBlock`: the index that passes it.
abbrev pub checked : ArrayOfBlocks → ℤ → Option ℕ
checked a (negsuc k) = none
checked a (pos i) = if ltb i a.size then some i else none

abbrev pub store : ArrayOfBlocks → ℕ → Option Block → ArrayOfBlocks
store a i v = record a { array = set a.array i v }

abbrev pub add_checked : ArrayOfBlocks → Block → Option ℕ → ArrayOfBlocks
add_checked a block none = a
add_checked a block (some i) =
    if a.is_dynamic
    then store a i (some block)
    else if ltb static_array_block_size (length block)
    then a
    else store a i (some block)

unfoldable pub add_block : Option ArrayOfBlocks → Block → ℤ → Option ArrayOfBlocks
add_block none block index = none
add_block (some a) block index = some (add_checked a block (checked a index))

abbrev pub slot : ArrayOfBlocks → ℕ → Option Block
slot a i = get_or a.array i none

abbrev pub is_null : Option Block → Bool
is_null none = true
is_null (some b) = false

abbrev pub delete_checked : ArrayOfBlocks → Option ℕ → ArrayOfBlocks
delete_checked a none = a
delete_checked a (some i) =
    if a.is_dynamic then if is_null (slot a i) then a else store a i none else store a i (some [])

unfoldable pub delete_block : Option ArrayOfBlocks → ℤ → Option ArrayOfBlocks
delete_block none index = none
delete_block (some a) index = some (delete_checked a (checked a index))

-- The loop of `removeXBlocks`, with the rounds left.
unfoldable pub remove_x_blocks : ℕ → Option ArrayOfBlocks → ℤ → Option ArrayOfBlocks
remove_x_blocks zero a i = a
remove_x_blocks (suc x) a i = remove_x_blocks x (delete_block a i) (i +ℤ pos 1)

-- The operation of C for characters below 128, which a `char` holds as they are, where the sum is at
-- most `int_max`.
unfoldable pub sum_of_ascii : Block → ℕ
sum_of_ascii [] = 0
sum_of_ascii (c ∷ block) = c + sum_of_ascii block

-- `abs(sum - val)`, where the subtraction does not overflow, which is where the result is at most
-- `int_max`.
abbrev pub difference : ℕ → ℤ → ℕ
difference s (pos v) = if ltb s v then v - s else s - v
difference s (negsuc v) = s + suc v

abbrev pub int_max : ℕ
int_max = 2147483647

-- One round of `findElemOfTheClosestASCIISum`: `minDifference` and `result`.
abbrev pub consider : ℤ → Option Block → ℕ → Option Block → ℕ × Option Block
consider val none min_difference result = (min_difference, result)
consider val (some b) min_difference result =
    if ltb (difference (sum_of_ascii b) val) min_difference
    then (difference (sum_of_ascii b) val, some b)
    else (min_difference, result)

-- The loop from slot `i` on, with the rounds left.
unfoldable pub find_from : ℕ → ℕ → ArrayOfBlocks → ℤ → ℕ → Option Block → Option Block
find_from zero i a val min_difference result = result
find_from (suc n) i a val min_difference result =
    let next = consider val (slot a i) min_difference result in
    find_from n (i + 1) a val next.0 next.1

unfoldable pub find_closest : ArrayOfBlocks → ℤ → Option Block
find_closest a val = find_from a.size 0 a val int_max none

-- The characters of `range` in `randomizeString`.
abbrev pub range : List ℕ
range =
    65 ∷ 66 ∷ 67 ∷ 68 ∷ 69 ∷ 70 ∷ 71 ∷ 72 ∷ 73 ∷ 74 ∷ 75 ∷ 76 ∷ 77 ∷ 78 ∷ 79 ∷ 80 ∷ 82 ∷ 83 ∷ 84
    ∷ 85 ∷ 87 ∷ 86 ∷ 88 ∷ 89 ∷ 90 ∷ 97 ∷ 98 ∷ 99 ∷ 100 ∷ 101 ∷ 102 ∷ 103 ∷ 104 ∷ 105 ∷ 106 ∷ 107
    ∷ 108 ∷ 109 ∷ 110 ∷ 111 ∷ 112 ∷ 114 ∷ 115 ∷ 116 ∷ 117 ∷ 119 ∷ 118 ∷ 120 ∷ 121 ∷ 122 ∷ 48 ∷ 49
    ∷ 50 ∷ 51 ∷ 52 ∷ 53 ∷ 54 ∷ 55 ∷ 56 ∷ 57 ∷ 33 ∷ 64 ∷ 35 ∷ 36 ∷ 37 ∷ 94 ∷ 38 ∷ 42 ∷ []

module _ (rand : ℕ → ℕ) where
  -- The loop of `randomizeString`, with the rounds left and the calls of `rand` so far.
  pub random_from : ℕ → ℕ → Block
  random_from zero calls = []
  random_from (suc k) calls = get_or range (rand calls % length range) 0 ∷ random_from k (calls + 1)

  -- `randomizeString(len + 1)` in its `call`-th call, since all calls of a run have the same length;
  -- a length below 1 gives NULL, on which the program fails, and is left out.
  unfoldable pub randomize_string : ℕ → ℕ → Block
  randomize_string len call = random_from len (call * len)

  -- The loop of `addXBlocks`, with the rounds left and the strings made so far.
  pub add_x_blocks : ℕ → ℕ → ℕ → Option ArrayOfBlocks → ℤ → Option ArrayOfBlocks
  add_x_blocks zero len call a i = a
  add_x_blocks (suc x) len call a i =
      add_x_blocks x len (call + 1) (add_block a (randomize_string len call) i) (i +ℤ pos 1)

  unfoldable pub fill_array : ℕ → ℕ → ArrayOfBlocks → Option ArrayOfBlocks
  fill_array len call a = add_x_blocks a.size len call (some a) (pos 0)

  -- The loop of `repeatRemove_AddXTimes`.
  pub repeat_remove_add : ℕ → ℕ → ℕ → Option ArrayOfBlocks → ℤ → Option ArrayOfBlocks
  repeat_remove_add zero len call a i = a
  repeat_remove_add (suc x) len call a i =
      repeat_remove_add x len (call + 1)
        (add_block (delete_block a i) (randomize_string len call) i) (i +ℤ pos 1)
