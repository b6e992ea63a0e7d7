-- ===== src/BlockArray/Closest.antt =====
-- What findElemOfTheClosestASCIISum of Operating-systems/lab1/zad3a/blockManagement.c finds.
use agh_ust_projects.Prelude.{
  ℕ, zero, suc, ◌+◌, ◌≤◌, ◌<◌, ◌≡◌, refl, sym, ap, ◌∙◌, Option, none, some, ltb, if◌then◌else◌,
  arith, Bool, Bool-cases, inl, inr, All,
}
use mathlib.Core.Path.{subst}
use agh_ust_projects.Prelude.Int.{ℤ}
use agh_ust_projects.BlockArray.{
  Block, ArrayOfBlocks, slot, sum_of_ascii, difference, int_max, consider, find_from, find_closest,
}

abbrev pub distance : Block → ℤ → ℕ
distance b val = difference (sum_of_ascii b) val

-- The characters of the block are a `char` each, and its sum and the difference from `val` an `int`.
abbrev pub Fits : Block → ℤ → Type 0
Fits b val = All (λ x. x < 128) b × (sum_of_ascii b ≤ int_max) × (distance b val ≤ int_max)

abbrev pub InRange : ArrayOfBlocks → ℤ → Type 0
InRange a val = (j : ℕ) (c : Block) → slot a j ≡ some c → Fits c val

-- Every block in the first `i` slots is at least `m` away.
abbrev pub AllFrom : ArrayOfBlocks → ℤ → ℕ → ℕ → Type 0
AllFrom a val i m = (j : ℕ) → (c : Block) → j < i → slot a j ≡ some c → m ≤ distance c val

-- Among the first `i` slots, either no block is nearer than `int_max` and `r` is NULL, or `r` is the
-- first of the nearest blocks, at the distance `m`.
pub data Best (a : ArrayOfBlocks) (val : ℤ) (i m : ℕ) (r : Option Block) : Type 0 where
  nothing_near : r ≡ none → m ≡ int_max → AllFrom a val i int_max → Best a val i m r
  nearest :
      (b : Block) (k : ℕ)
      → r ≡ some b
      → k < i
      → slot a k ≡ some b
      → distance b val ≡ m
      → m < int_max
      → AllFrom a val i m
      → AllFrom a val k (suc m)
      → Best a val i m r

AllFrom-suc :
    (a : ArrayOfBlocks) (val : ℤ) (i m : ℕ)
    → AllFrom a val i m
    → ((c : Block) → slot a i ≡ some c → m ≤ distance c val)
    → AllFrom a val (i + 1) m
AllFrom-suc a val i m below at j c h e = elim (Bool-cases (ltb j i)) [
  | inl l ↦ below j c (ground arith) e
  | inr l ↦ let same : j ≡ i = ground arith in at c (subst (λ (v : ℕ). slot a v ≡ some c) same e)
]

AllFrom-le :
    (a : ArrayOfBlocks) (val : ℤ) (i m n : ℕ) → n ≤ m → AllFrom a val i m → AllFrom a val i n
AllFrom-le a val i m n h all j c l e = omega (arith, all j c l e)

Best-keep :
    (a : ArrayOfBlocks) (val : ℤ) (i m : ℕ) (r : Option Block)
    → ((c : Block) → slot a i ≡ some c → m ≤ distance c val)
    → Best a val i m r
    → Best a val (i + 1) m r
Best-keep a val i m r at (nothing_near e s all) =
    nothing_near e s
      (AllFrom-suc a val i int_max all (λ c p. subst (λ (v : ℕ). v ≤ distance c val) s (at c p)))
Best-keep a val i m r at (nearest b k e l s d h all before) =
    nearest b k e (omega arith) s d h (AllFrom-suc a val i m all at) before

Best-bound :
    (a : ArrayOfBlocks) (val : ℤ) (i m : ℕ) (r : Option Block)
    → Best a val i m r
    → (m ≤ int_max) × AllFrom a val i m
Best-bound a val i m r (nothing_near e s all) =
    (omega arith, AllFrom-le a val i int_max m (omega arith) all)
Best-bound a val i m r (nearest b k e l s d h all before) = (omega arith, all)

Best-take :
    (a : ArrayOfBlocks) (val : ℤ) (i m : ℕ) (r : Option Block) (b : Block)
    → slot a i ≡ some b
    → distance b val < m
    → Best a val i m r
    → Best a val (i + 1) (distance b val) (some b)
Best-take a val i m r b s h best =
    let bound : (m ≤ int_max) × AllFrom a val i m = Best-bound a val i m r best in
    let before : AllFrom a val i (suc (distance b val)) =
      AllFrom-le a val i m (suc (distance b val)) h bound.1 in
    nearest b i refl (omega arith) s refl (omega (arith, bound.0))
      (AllFrom-suc a val i (distance b val)
        (AllFrom-le a val i m (distance b val) (omega arith) bound.1)
        (λ c e. let same : b ≡ c = cc in omega (arith, ap (λ (v : Block). distance v val) same)))
      before

-- `Best` after the round of `b`, by the outcome of its test.
abbrev BestAfter : ArrayOfBlocks → ℤ → ℕ → ℕ → Option Block → Block → Bool → Type 0
BestAfter a val i m r b t =
    let next : ℕ × Option Block = if t then (distance b val, some b) else (m, r) in
    Best a val (i + 1) next.0 next.1

Best-consider :
    (a : ArrayOfBlocks) (val : ℤ) (i m : ℕ) (r : Option Block) (s : Option Block)
    → slot a i ≡ s
    → Best a val i m r
    → Best a val (i + 1) (consider val s m r).0 (consider val s m r).1
Best-consider a val i m r none e best =
    Best-keep a val i m r (λ c p. let no : none ≡ some c = sym e ∙ p in cc) best
Best-consider a val i m r (some b) e best = elim (Bool-cases (ltb (distance b val) m)) [
  | inl d ↦
      subst (λ (t : Bool). BestAfter a val i m r b t) (sym d)
        (Best-take a val i m r b e (ground arith) best)
  | inr d ↦
      subst (λ (t : Bool). BestAfter a val i m r b t) (sym d)
        (Best-keep a val i m r
          (λ c p. let same : b ≡ c = cc in ground (arith, ap (λ (v : Block). distance v val) same))
          best)
]

-- The least distance that the loop ends with.
abbrev pub Found : ArrayOfBlocks → ℤ → ℕ → Option Block → Type 0
Found a val i r = (m : ℕ) × Best a val i m r

Best-find_from :
    (a : ArrayOfBlocks) (val : ℤ) (n i m : ℕ) (r : Option Block)
    → Best a val i m r
    → Found a val (i + n) (find_from n i a val m r)
unfolding find_from
Best-find_from a val zero i m r best =
    let e : i ≡ i + 0 = omega arith in (m, subst (λ (v : ℕ). Best a val v m r) e best)
Best-find_from a val (suc n) i m r best =
    let next : ℕ × Option Block = consider val (slot a i) m r in
    let e : i + 1 + n ≡ i + suc n = omega arith in
    subst (λ (v : ℕ). Found a val v (find_from n (i + 1) a val next.0 next.1)) e
      (Best-find_from a val n (i + 1) next.0 next.1
        (Best-consider a val i m r (slot a i) refl best))

-- Where every character is below 128, and no sum and no difference overflows an `int`: `find_closest`
-- returns NULL when every block of the array is `int_max` away, and otherwise the first of the blocks
-- whose character sums are nearest to `val`.
pub find_closest-Best :
    (a : ArrayOfBlocks) (val : ℤ) → InRange a val → Found a val a.size (find_closest a val)
unfolding find_closest
find_closest-Best a val fits =
    let e : 0 + a.size ≡ a.size = omega arith in
    subst (λ (v : ℕ). Found a val v (find_from a.size 0 a val int_max none)) e
      (Best-find_from a val a.size 0 int_max none (nothing_near refl refl (λ j c h e. elim h [ ])))
