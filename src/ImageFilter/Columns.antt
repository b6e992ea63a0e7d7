-- ===== src/ImageFilter/Columns.antt =====
-- Which pixels the threads of Operating-systems/lab8/zad1/main.c compute, and from which.
use agh_ust_projects.Prelude.{
  ℕ, zero, suc, ◌+◌, ◌*◌, ◌/◌, ◌≤◌, ◌<◌, ◌≡◌, sym, ap, ◌∙◌, Bool, true, false, List, [], ◌∷◌, ltb,
  leb, ◌==◌, ◌&&◌, if◌then◌else◌, arith, Bool-cases, inl, inr,
}
use native.Mathlib.Nat.{div-mul-le_self, div-lt_iff_lt-mul, lt-div-mul-add, mul-div-le}
use agh_ust_projects.ImageFilter.{
  Image, Doubles, calculated, write, Job, pixel, filter_column, filter_columns, filter_procedure,
  run_threads,
}

-- Every row or column index that the filter reads is below its limit, if the limit is not 0.
pub calculated-lt : (c limit x i : ℕ) → 0 < limit → calculated c limit x i < limit
unfolding calculated
calculated-lt c limit x i h = ground arith

module _ (d : Doubles) (g : Job d) where
  open g use {width, height}

  -- A column loop writes its column, from the row on, and nothing else.
  filter_column_lem :
      (n row column r k : ℕ) (out : Image)
      → filter_column d g n row column out r k
        ≡ (if k == column && (leb row r && ltb r (row + n)) then pixel d g r k else out r k)
  unfolding filter_column
  filter_column_lem zero row column r k out = ground arith
  filter_column_lem (suc n) row column r k out = ground (
    arith,
    filter_column_lem n (row + 1) column r k (write out row column (pixel d g row column)),
  )

  -- The columns of one thread, while they lie in the image.
  filter_columns_lem :
      (n x plus r k : ℕ) (out : Image)
      → x + plus + n ≤ width
      → filter_columns d g n x plus out r k ≡ (
          if ltb r height && (leb (x + plus) k && ltb k (x + plus + n))
          then pixel d g r k
          else out r k)
  unfolding filter_columns
  filter_columns_lem zero x plus r k out h = ground arith
  filter_columns_lem (suc n) x plus r k out h = ground (
    arith,
    filter_columns_lem n x (plus + 1) r k (filter_column d g height 0 (x + plus) out),
    filter_column_lem height 0 (x + plus) r k out,
  )

-- Whether one of the threads has the column.
abbrev pub is_taken : ℕ → List ℕ → ℕ → Bool
is_taken every [] k = false
is_taken every (t ∷ ts) k =
    if leb (t * every) k && ltb k (t * every + every) then true else is_taken every ts k

abbrev pub ran : List ℕ → ℕ → Bool
ran [] t = false
ran (u ∷ us) t = if u == t then true else ran us t

abbrev pub AllBelow : ℕ → List ℕ → Type 0
AllBelow n [] = Unit {0}
AllBelow n (t ∷ ts) = (t < n) × AllBelow n ts

abbrev pub AllRan : ℕ → List ℕ → Type 0
AllRan n ts = (t : ℕ) → t < n → ran ts t ≡ true

thread_fits : (t n every : ℕ) → t < n → t * every + every ≤ n * every
thread_fits t n every h = grind arith

ran-is_taken :
    (ts : List ℕ) (t every k : ℕ)
    → ran ts t ≡ true
    → t * every ≤ k
    → k < t * every + every
    → is_taken every ts k ≡ true
ran-is_taken [] t every k r p q = cc
ran-is_taken (u ∷ us) t every k r p q = elim (Bool-cases (u == t)) [
  | inl e ↦ let e' : u ≡ t = ground arith in ground (arith, ap (λ v. v * every) e')
  | inr e ↦ ground (arith, ran-is_taken us t every k)
]

is_taken-lt :
    (n every : ℕ) (ts : List ℕ) (k : ℕ) → AllBelow n ts → is_taken every ts k ≡ true → k < n * every
is_taken-lt n every [] k a h = cc
is_taken-lt n every (t ∷ ts) k a h =
    ground (arith, is_taken-lt n every ts k a.1, thread_fits t n every a.0)

taken_columns :
    (n every : ℕ) (ts : List ℕ) (k : ℕ)
    → AllBelow n ts
    → AllRan n ts
    → is_taken every ts k ≡ ltb k (n * every)
taken_columns n zero ts k a c =
    let none : is_taken 0 ts k ≡ true → k < n * 0 = is_taken-lt n 0 ts k a in ground (arith)
taken_columns n (suc e) ts k a c = elim (Bool-cases (ltb k (n * suc e))) [
  | inl h ↦
      let lt : k < n * suc e = ground arith in
      let below : k / suc e < n = (div-lt_iff_lt-mul (ground arith)).1 lt in
      ran-is_taken ts (k / suc e) (suc e) k (c (k / suc e) below) (div-mul-le_self k (suc e))
        (lt-div-mul-add (ground arith))
      ∙ sym h
  | inr h ↦
      let none : is_taken (suc e) ts k ≡ true → k < n * suc e = is_taken-lt n (suc e) ts k a in
      ground (arith)
]

module _ (d : Doubles) (g : Job d) where
  open g use {width, height}

  run_threads_lem :
      (n every : ℕ) (ts : List ℕ) (r k : ℕ) (out : Image)
      → n * every ≤ width
      → AllBelow n ts
      → run_threads d g every ts out r k
        ≡ (if ltb r height && is_taken every ts k then pixel d g r k else out r k)
  unfolding run_threads filter_procedure
  run_threads_lem n every [] r k out h a = ground arith
  run_threads_lem n every (t ∷ ts) r k out h a = ground (
    arith,
    run_threads_lem n every ts r k (filter_columns d g every (t * every) 0 out) h a.1,
    filter_columns_lem d g every (t * every) 0 r k out,
    thread_fits t n every a.0,
  )

  -- In whatever order `n` threads, at least one, do their work, and if each of them does it: the
  -- output holds the filtered pixel in each of the first `n * (width / n)` columns of the rows of
  -- the image, and everything else in it stays as it was.
  pub threads_fill_columns :
      (n : ℕ) (ts : List ℕ) (r k : ℕ) (out : Image)
      → 0 < n
      → AllBelow n ts
      → AllRan n ts
      → run_threads d g (width / n) ts out r k
        ≡ (if ltb r height && ltb k (n * (width / n)) then pixel d g r k else out r k)
  threads_fill_columns n ts r k out p a c =
      run_threads_lem n (width / n) ts r k out (mul-div-le width n) a
      ∙ ap (λ (b : Bool). if ltb r height && b then pixel d g r k else out r k)
          (taken_columns n (width / n) ts k a c)
