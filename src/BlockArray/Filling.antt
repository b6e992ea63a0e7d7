-- ===== src/BlockArray/Filling.antt =====
-- What addXBlocks, fillArray and repeatRemove_AddXTimes of Operating-systems/lab1/zad3a/main.c leave in
-- a dynamic array.
use agh_ust_projects.Prelude.{
  ℕ, zero, suc, ◌+◌, ◌-◌, ◌≡◌, refl, ap, ◌∙◌, true, Bool-cases, inl, inr, some, length, length-set,
  ltb, leb, ◌==◌, if◌then◌else◌, ◌&&◌, arith,
}
use agh_ust_projects.Prelude.Int.{pos}
use agh_ust_projects.BlockArray.{
  ArrayOfBlocks, slot, checked, add_block, add_checked, delete_block, delete_checked,
  randomize_string, add_x_blocks, repeat_remove_add,
}
use agh_ust_projects.BlockArray.Slots.{Removed, HasRoom, get_or-set, delete_lem, pos-add_one}

module _ (rand : ℕ → ℕ) (len : ℕ) where
  -- `b` is `a` with a random block, from the call `call` on, in each existing slot from `i` to before
  -- `to`.
  abbrev pub Filled : ℕ → ℕ → ℕ → ArrayOfBlocks → ArrayOfBlocks → Type 0
  Filled call i to a b =
      (b.size ≡ a.size)
      × (b.is_dynamic ≡ a.is_dynamic)
      × (length b.array ≡ length a.array)
      × ((j : ℕ)
          → slot b j ≡ (
              if leb i j && (ltb j to && ltb j a.size)
              then some (randomize_string rand len (call + (j - i)))
              else slot a j))

  add_slot :
      (call i j : ℕ) (a : ArrayOfBlocks)
      → HasRoom a
      → a.is_dynamic ≡ true
      → slot (add_checked a (randomize_string rand len call) (checked a (pos i))) j ≡ (
          if leb i j && (ltb j (i + 1) && ltb j a.size)
          then some (randomize_string rand len (call + (j - i)))
          else slot a j)
  add_slot call i j a h d = elim (Bool-cases (i == j)) [
    | inl e ↦
        let same : call + (j - i) ≡ call = ground (arith, e) in
        ground (
          arith,
          ap (randomize_string rand len) same,
          get_or-set a.array i j (some (randomize_string rand len call)),
        )
    | inr e ↦ ground (arith, get_or-set a.array i j (some (randomize_string rand len call)))
  ]

  add_lem :
      (call i : ℕ) (a : ArrayOfBlocks)
      → HasRoom a
      → a.is_dynamic ≡ true
      → Filled call i (i + 1) a (add_checked a (randomize_string rand len call) (checked a (pos i)))
  add_lem call i a h d = (
    ground arith,
    ground arith,
    ground (arith, length-set a.array i (some (randomize_string rand len call))),
    λ j. add_slot call i j a h d,
  )

  Filled-append :
      (call i x : ℕ) (a b c : ArrayOfBlocks)
      → Filled call i (i + 1) a b
      → Filled (call + 1) (i + 1) (i + 1 + x) b c
      → Filled call i (i + suc x) a c
  Filled-append call i x a b c p q = (
    q.0 ∙ p.0,
    q.1 ∙ p.1,
    q.2 ∙ p.2,
    λ j. elim (Bool-cases (ltb i j)) [
      | inl e ↦
          let same : call + 1 + (j - (i + 1)) ≡ call + (j - i) = ground (arith, e) in
          ground (arith, p.3 j, q.3 j, ap (randomize_string rand len) same)
      | inr e ↦ ground (arith, p.3 j, q.3 j)
    ],
  )

  -- In a dynamic array with a slot for each index below its size, `x` rounds of `addXBlocks` from a
  -- slot that is not negative keep the size, put the next `x` random strings into the existing slots
  -- among the next `x`, one each and in order, and leave the other slots as they were.
  pub add_x_blocks_lem :
      (x call i : ℕ) (a : ArrayOfBlocks)
      → HasRoom a
      → a.is_dynamic ≡ true
      → (b : ArrayOfBlocks) × (add_x_blocks rand x len call (some a) (pos i) ≡ some b)
        × Filled call i (i + x) a b
  unfolding add_x_blocks add_block
  add_x_blocks_lem zero call i a h d = (a, refl, (refl, refl, refl, λ j. ground arith))
  add_x_blocks_lem (suc x) call i a h d =
      let once : ArrayOfBlocks =
        add_checked a (randomize_string rand len call) (checked a (pos i)) in
      let first : Filled call i (i + 1) a once = add_lem call i a h d in
      let rest =
        add_x_blocks_lem x (call + 1) (i + 1) once (omega (arith, first.0, first.2))
          (first.1 ∙ d) in
      (
        rest.0,
        ap (add_x_blocks rand x len (call + 1) (some once)) (pos-add_one i) ∙ rest.1,
        Filled-append call i x a once rest.0 first rest.2,
      )

  Filled-over :
      (call i : ℕ) (a b c : ArrayOfBlocks)
      → Removed i (i + 1) a b
      → Filled call i (i + 1) b c
      → Filled call i (i + 1) a c
  Filled-over call i a b c p q =
      (q.0 ∙ p.0, q.1 ∙ p.1, q.2 ∙ p.2, λ j. ground (arith, p.3 j, q.3 j, p.0))

  -- In a dynamic array with a slot for each index below its size, `x` rounds of
  -- `repeatRemove_AddXTimes` from a slot that is not negative come to the same: the next `x` random
  -- strings stand in the existing slots among the next `x`, and the size and the other slots stay.
  pub repeat_remove_add_lem :
      (x call i : ℕ) (a : ArrayOfBlocks)
      → HasRoom a
      → a.is_dynamic ≡ true
      → (b : ArrayOfBlocks) × (repeat_remove_add rand x len call (some a) (pos i) ≡ some b)
        × Filled call i (i + x) a b
  unfolding repeat_remove_add add_block delete_block
  repeat_remove_add_lem zero call i a h d = (a, refl, (refl, refl, refl, λ j. ground arith))
  repeat_remove_add_lem (suc x) call i a h d =
      let cleared : ArrayOfBlocks = delete_checked a (checked a (pos i)) in
      let out : Removed i (i + 1) a cleared = delete_lem a i h in
      let once : ArrayOfBlocks =
        add_checked cleared (randomize_string rand len call) (checked cleared (pos i)) in
      let first : Filled call i (i + 1) a once =
        Filled-over call i a cleared once out
          (add_lem call i cleared (omega (arith, out.0, out.2)) (out.1 ∙ d)) in
      let rest =
        repeat_remove_add_lem x (call + 1) (i + 1) once (omega (arith, first.0, first.2))
          (first.1 ∙ d) in
      (
        rest.0,
        ap (repeat_remove_add rand x len (call + 1) (some once)) (pos-add_one i) ∙ rest.1,
        Filled-append call i x a once rest.0 first rest.2,
      )
