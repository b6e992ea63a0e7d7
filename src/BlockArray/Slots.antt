-- ===== src/BlockArray/Slots.antt =====
-- What addBlock and deleteBlock of Operating-systems/lab1/zad3a/blockManagement.c do to the slots.
use agh_ust_projects.Prelude.{
  ℕ, zero, suc, ◌+◌, ◌≤◌, ◌≡◌, refl, ap, ◌∙◌, true, List, [], Option, none, some, length, set,
  get_or, length-set, ltb, leb, ◌==◌, ◌∷◌, if◌then◌else◌, ◌&&◌, arith,
}
use agh_ust_projects.Prelude.Int.{pos, ◌+ℤ◌}
use agh_ust_projects.BlockArray.{
  Block, ArrayOfBlocks, slot, checked, delete_block, remove_x_blocks, is_null, delete_checked,
}

-- The array holds at least as many slots as its `size`.
abbrev pub HasRoom : ArrayOfBlocks → Type 0
HasRoom a = a.size ≤ length a.array

-- What `deleteBlock` leaves in a slot: NULL in a dynamic array, an empty block in a static one.
abbrev pub removed : ArrayOfBlocks → Option Block
removed a = if a.is_dynamic then none else some []

-- `b` is `a` with the slots from `from` to before `to` removed, where they exist.
abbrev pub Removed : ℕ → ℕ → ArrayOfBlocks → ArrayOfBlocks → Type 0
Removed from to a b =
    (b.size ≡ a.size)
    × (b.is_dynamic ≡ a.is_dynamic)
    × (length b.array ≡ length a.array)
    × ((k : ℕ)
        → slot b k ≡ (if leb from k && (ltb k to && ltb k a.size) then removed a else slot a k))

pub get_or-set :
    (xs : List (Option Block)) (i k : ℕ) (v : Option Block)
    → get_or (set xs i v) k none ≡ (if i == k && ltb i (length xs) then v else get_or xs k none)
get_or-set [] i k v = ground arith
get_or-set (x ∷ xs) zero zero v = ground arith
get_or-set (x ∷ xs) zero (suc k) v = ground arith
get_or-set (x ∷ xs) (suc i) zero v = ground arith
get_or-set (x ∷ xs) (suc i) (suc k) v = ground (arith, get_or-set xs i k v)

is_null-eq : (s : Option Block) → is_null s ≡ true → s ≡ none
is_null-eq none h = refl
is_null-eq (some b) h = cc

delete_slot :
    (a : ArrayOfBlocks) (i k : ℕ)
    → HasRoom a
    → slot (delete_checked a (checked a (pos i))) k
      ≡ (if leb i k && (ltb k (i + 1) && ltb k a.size) then removed a else slot a k)
delete_slot a i k h = ground (
  arith,
  get_or-set a.array i k none,
  get_or-set a.array i k (some []),
  is_null-eq (slot a i),
  ap (slot a),
)

pub delete_lem :
    (a : ArrayOfBlocks) (i : ℕ)
    → HasRoom a
    → Removed i (i + 1) a (delete_checked a (checked a (pos i)))
delete_lem a i h = (
  ground arith,
  ground arith,
  ground (arith, length-set a.array i none, length-set a.array i (some [])),
  λ k. delete_slot a i k h,
)

Removed-append :
    (i x : ℕ) (a b c : ArrayOfBlocks)
    → Removed i (i + 1) a b
    → Removed (i + 1) (i + 1 + x) b c
    → Removed i (i + suc x) a c
Removed-append i x a b c p q = (q.0 ∙ p.0, q.1 ∙ p.1, q.2 ∙ p.2, λ k. ground (arith, p.3 k, q.3 k))

pub pos-add_one : (i : ℕ) → pos i +ℤ pos 1 ≡ pos (i + 1)
unfolding ◌+ℤ◌
pos-add_one i = ground arith

-- From a slot that is not negative on, in an array with a slot for each index below its size, `x`
-- rounds of `removeXBlocks` keep the array's size and kind, empty exactly the existing slots among
-- the next `x`, and leave the other slots as they were.
pub remove_x_blocks_lem :
    (x i : ℕ) (a : ArrayOfBlocks)
    → HasRoom a
    → (b : ArrayOfBlocks) × (remove_x_blocks x (some a) (pos i) ≡ some b) × Removed i (i + x) a b
unfolding remove_x_blocks delete_block
remove_x_blocks_lem zero i a h = (a, refl, (refl, refl, refl, λ k. ground arith))
remove_x_blocks_lem (suc x) i a h =
    let once : ArrayOfBlocks = delete_checked a (checked a (pos i)) in
    let first : Removed i (i + 1) a once = delete_lem a i h in
    let rest = remove_x_blocks_lem x (i + 1) once (omega (arith, first.0, first.2)) in
    (
      rest.0,
      ap (remove_x_blocks x (some once)) (pos-add_one i) ∙ rest.1,
      Removed-append i x a once rest.0 first rest.2,
    )
