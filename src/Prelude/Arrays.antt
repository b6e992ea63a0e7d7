-- ===== src/Prelude/Arrays.antt =====
-- An array whose first slots are in use, as the list of these: what writing a slot and moving the
-- later slots down come to.
use Prim.Native.Nat.{ℕ, zero, suc, ◌+◌, ◌≤◌, ◌<◌}
use mathlib.Core.Path.{◌≡◌, refl, ap, ◌∙◌}
use mathlib.Core.List.{List, [], ◌∷◌, ◌++◌}
use native.Mathlib.Omega.{arith}
use agh_ust_projects.Prelude.Lists.{length, set, get_or, take, length-set}

abbrev pub remove_at {ℓ} : {A : Type ℓ} → ℕ → List A → List A
remove_at i [] = []
remove_at zero (x ∷ xs) = xs
remove_at (suc i) (x ∷ xs) = x ∷ remove_at i xs

take-set {ℓ} :
    {A : Type ℓ} (k : ℕ) (xs : List A) (v : A)
    → k < length xs
    → take (suc k) (set xs k v) ≡ take k xs ++ v ∷ []
take-set k [] v h = elim h [ ]
take-set zero (x ∷ xs) v h = refl
take-set (suc k) (x ∷ xs) v h = ap (λ l. x ∷ l) (take-set k xs v (omega arith))

pub take-set_add_one {ℓ} :
    {A : Type ℓ} (k : ℕ) (xs : List A) (v : A)
    → k < length xs
    → take (k + 1) (set xs k v) ≡ take k xs ++ v ∷ []
take-set_add_one k xs v h = let e : k + 1 ≡ suc k = omega arith in rw e (take-set k xs v h)

-- `for (j = i; j < n; ++j) a[j] = a[j + 1];` with the rounds left, where `d` stands for what is read
-- behind the array.
pub move_down {ℓ} : {A : Type ℓ} → A → ℕ → ℕ → List A → List A
move_down d zero j slots = slots
move_down d (suc k) j slots = move_down d k (j + 1) (set slots j (get_or slots (j + 1) d))

module _ {ℓ} {A : Type ℓ} (d : A) where
  move_down_cons :
      (f j : ℕ) (x : A) (xs : List A) → move_down d f (suc j) (x ∷ xs) ≡ x ∷ move_down d f j xs
  unfolding move_down
  move_down_cons zero j x xs = refl
  move_down_cons (suc f) j x xs =
      let e : suc j + 1 ≡ suc (j + 1) = omega arith in
      rw (e, move_down_cons f (j + 1) x (set xs j (get_or xs (j + 1) d)))

  move_down_step :
      (f : ℕ) (x y : A) (zs : List A)
      → move_down d (suc f) 0 (x ∷ y ∷ zs) ≡ move_down d f 1 (y ∷ y ∷ zs)
  unfolding move_down
  move_down_step f x y zs = refl

  move_down_front :
      (f : ℕ) (x : A) (ys : List A) → f ≤ length ys → take f (move_down d f 0 (x ∷ ys)) ≡ take f ys
  move_down_front zero x ys h = refl
  move_down_front (suc f) x [] h = elim h [ ]
  move_down_front (suc f) x (y ∷ zs) h =
      ap (take (suc f)) start ∙ ap (λ l. y ∷ l) (move_down_front f y zs (omega arith))
    where
      start : move_down d (suc f) 0 (x ∷ y ∷ zs) ≡ y ∷ move_down d f 0 (y ∷ zs)
      start = move_down_step f x y zs ∙ move_down_cons f 0 y (y ∷ zs)

  -- The shifting loop takes one slot out of the table, and keeps the order of the others.
  pub take-move_down :
      (f j m : ℕ) (xs : List A)
      → m ≡ j + f
      → m < length xs
      → take m (move_down d f j xs) ≡ remove_at j (take (suc m) xs)
  take-move_down f zero m [] e h = elim h [ ]
  take-move_down f zero m (x ∷ xs) e h =
      let e' : m ≡ f = omega arith in rw e' (move_down_front f x xs (omega arith))
  take-move_down f (suc j) m [] e h = elim h [ ]
  take-move_down f (suc j) zero (x ∷ xs) e h = absurd (omega arith)
  take-move_down f (suc j) (suc m) (x ∷ xs) e h =
      rw (move_down_cons f j x xs)
        (ap (λ l. x ∷ l) (take-move_down f j m xs (omega arith) (omega arith)))

  pub length-move_down : (f j : ℕ) (xs : List A) → length (move_down d f j xs) ≡ length xs
  unfolding move_down
  length-move_down zero j xs = refl
  length-move_down (suc f) j xs =
      length-move_down f (j + 1) (set xs j (get_or xs (j + 1) d)) ∙ length-set xs j _

module _ {ℓ} {A : Type ℓ} where
  pub take-set_lt :
      (k j : ℕ) (xs : List A) (v : A) → j < k → take k (set xs j v) ≡ set (take k xs) j v
  take-set_lt zero j xs v h = elim h [ ]
  take-set_lt (suc k) j [] v h = refl
  take-set_lt (suc k) zero (x ∷ xs) v h = refl
  take-set_lt (suc k) (suc j) (x ∷ xs) v h = ap (λ l. x ∷ l) (take-set_lt k j xs v (omega arith))

  pub get_or-take : (k j : ℕ) (xs : List A) (d : A) → j < k → get_or (take k xs) j d ≡ get_or xs j d
  get_or-take zero j xs d h = elim h [ ]
  get_or-take (suc k) j [] d h = refl
  get_or-take (suc k) zero (x ∷ xs) d h = refl
  get_or-take (suc k) (suc j) (x ∷ xs) d h = get_or-take k j xs d (omega arith)

  pub set-append : (ps rs : List A) (c v : A) → set (ps ++ c ∷ rs) (length ps) v ≡ ps ++ v ∷ rs
  set-append [] rs c v = refl
  set-append (p ∷ ps) rs c v = ap (λ l. p ∷ l) (set-append ps rs c v)

  pub remove_at-append : (ps rs : List A) (c : A) → remove_at (length ps) (ps ++ c ∷ rs) ≡ ps ++ rs
  remove_at-append [] rs c = refl
  remove_at-append (p ∷ ps) rs c = ap (λ l. p ∷ l) (remove_at-append ps rs c)

abbrev pub All {ℓ} : {A : Type ℓ} → (A → Type 0) → List A → Type 0
All P [] = Unit {0}
All P (x ∷ xs) = P x × All P xs

pub All-set {ℓ} :
    {A : Type ℓ} (P : A → Type 0) (xs : List A) (i : ℕ) (v : A)
    → All P xs
    → P v
    → All P (set xs i v)
All-set P [] i v a p = tt
All-set P (x ∷ xs) zero v a p = (p, a.1)
All-set P (x ∷ xs) (suc i) v a p = (a.0, All-set P xs i v a.1 p)

pub All-get_or {ℓ} :
    {A : Type ℓ} (P : A → Type 0) (xs : List A) (i : ℕ) (d : A) → All P xs → P d → P (get_or xs i d)
All-get_or P [] i d a p = p
All-get_or P (x ∷ xs) zero d a p = a.0
All-get_or P (x ∷ xs) (suc i) d a p = All-get_or P xs i d a.1 p

pub All-append {ℓ} :
    {A : Type ℓ} (P : A → Type 0) (xs : List A) (x : A) → All P xs → P x → All P (xs ++ x ∷ [])
All-append P [] x a p = (p, tt)
All-append P (y ∷ xs) x a p = (a.0, All-append P xs x a.1 p)

pub All-move_down {ℓ} :
    {A : Type ℓ} (P : A → Type 0) (d : A) (k j : ℕ) (xs : List A)
    → P d
    → All P xs
    → All P (move_down d k j xs)
unfolding move_down
All-move_down P d zero j xs p a = a
All-move_down P d (suc k) j xs p a =
    All-move_down P d k (j + 1) (set xs j (get_or xs (j + 1) d)) p
      (All-set P xs j (get_or xs (j + 1) d) a (All-get_or P xs (j + 1) d a p))
