-- ===== src/Prelude/Window.antt =====
-- A run of slots of an array that is used round and round, as circular buffers do.
use agh_ust_projects.Prelude.{
  ℕ, zero, suc, ◌+◌, ◌-◌, ◌%◌, ◌≤◌, ◌<◌, ◌≡◌, ◌≢◌, ap, ◌∙◌, List, [], ◌∷◌, ◌++◌, arith, length,
  get_or, set, dec_lt, get_or-set_self, get_or-set_ne,
}
use native.Mathlib.Nat.{mod-add-mod, mod-eq_of_lt, mod-eq-sub-mod, add-zero}
use mathlib.Core.Path.{ap₂}

-- Fewer than `size` steps round the array do not come back to the first slot.
pub round_ne : {size h k : ℕ} → h < size → suc k < size → (h + suc k) % size ≢ h
round_ne {size} {h} {k} hh hk = elim (dec_lt (h + suc k) size) [
  | yes p ↦ omega (arith, mod-eq_of_lt p)
  | no p ↦ omega (
    arith,
    mod-eq-sub-mod {n = h + suc k} {m = size} (omega arith),
    mod-eq_of_lt {n = h + suc k - size} {m = size} (omega arith),
  )
]

pub round_suc : (h k size : ℕ) → (h + suc k) % size ≡ ((h + 1) % size + k) % size
round_suc h k size = rw mod-add-mod (ap (λ j. j % size) (omega arith))

module _ {ℓ} {A : Type ℓ} (d : A) where
  -- The `k` elements from slot `h` on.
  abbrev pub window : List A → ℕ → ℕ → ℕ → List A
  window xs size h zero = []
  window xs size h (suc k) = get_or xs h d ∷ window xs size ((h + 1) % size) k

  -- Writing the slot behind a window extends it.
  pub window-set :
      (xs : List A) (size : ℕ) (c : A) (k h i : ℕ)
      → size ≤ length xs
      → h < size
      → k < size
      → i ≡ (h + k) % size
      → window (set xs i c) size h (suc k) ≡ window xs size h k ++ (c ∷ [])
  window-set xs size c zero h i r hh hk e =
      rw (e, add-zero, mod-eq_of_lt hh, get_or-set_self xs h c d (omega arith))
  window-set xs size c (suc k) h i r hh hk e =
      ap₂ ◌∷◌ (get_or-set_ne xs c d (rw e (round_ne hh hk))) (
        window-set xs size c k ((h + 1) % size) i r (omega arith) (omega arith)
          (e ∙ round_suc h k size))
