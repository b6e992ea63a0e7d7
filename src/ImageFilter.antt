-- ===== src/ImageFilter.antt =====
-- Operating-systems/lab8/zad1/main.c: filtering an image by threads that take columns.
-- Floating point is a parameter; the image and the output are functions of row and column.
pub mod Columns
pub mod Files
mod Examples
use agh_ust_projects.Prelude.{
  ℕ, zero, suc, ◌+◌, ◌-◌, ◌*◌, ◌/◌, Bool, List, [], ◌∷◌, ltb, leb, ◌==◌, ◌&&◌, if◌then◌else◌,
}

abbrev pub Image : Type 0
Image = ℕ → ℕ → ℕ

-- What the program uses of `double`: 0, `s + pixel * weight`, and `(int)round(s)`.
pub record Doubles : Type 1 where
  pub Double : Type 0
  pub zero_double : Double
  pub add_product : Double → ℕ → Double → Double
  pub round_to_int : Double → ℕ

-- The pixel index for position `x` and offset `i`: `MAX(1, x - (int)ceil(c/2) + i)`, and then at most
-- `limit - 1`. Where the C difference is negative the truncated one is 0, and MAX takes 1 in both.
unfoldable pub calculated : ℕ → ℕ → ℕ → ℕ → ℕ
calculated c limit x i =
    let moved = x + i - c / 2 in
    let at_least = if ltb moved 1 then 1 else moved in
    if ltb (limit - 1) at_least then limit - 1 else at_least

-- `output[row][column] = value`
abbrev pub write : Image → ℕ → ℕ → ℕ → Image
write out row column value r k = if r == row && k == column then value else out r k

module _ (d : Doubles) where
  open d use {Double, zero_double, add_product, round_to_int}

  -- The globals that the threads read.
  pub record Job : Type 0 where
    pub c : ℕ
    pub width : ℕ
    pub height : ℕ
    pub image : Image
    pub filter : ℕ → Double

  module _ (g : Job) where
    open g use {c, width, height, image, filter}

    -- The inner loop of `j`, with the rounds left.
    pub sum_row : ℕ → ℕ → ℕ → ℕ → ℕ → Double → Double
    sum_row zero x y i j s = s
    sum_row (suc n) x y i j s = sum_row n x y i (j + 1) (
        add_product s (image (calculated c height x i) (calculated c width y j))
          (filter (i * c + j)))

    pub sum_rows : ℕ → ℕ → ℕ → ℕ → Double → Double
    sum_rows zero x y i s = s
    sum_rows (suc n) x y i s = sum_rows n x y (i + 1) (sum_row c x y i 0 s)

    -- The function `j` of the source.
    pub pixel : ℕ → ℕ → ℕ
    pixel x y = round_to_int (sum_rows c x y 0 zero_double)

    -- The loop over the rows of one column, with the rounds left.
    pub filter_column : ℕ → ℕ → ℕ → Image → Image
    filter_column zero row column out = out
    filter_column (suc n) row column out =
        filter_column n (row + 1) column (write out row column (pixel row column))

    -- The loop of `filter_procedure` from `plus` on, with the rounds left to `every_thread_does_n`.
    pub filter_columns : ℕ → ℕ → ℕ → Image → Image
    filter_columns zero x plus out = out
    filter_columns (suc n) x plus out = elim (leb (x + plus) width) [
      | Bool.true ↦ filter_columns n x (plus + 1) (filter_column height 0 (x + plus) out)
      | Bool.false ↦ out
    ]

    unfoldable pub filter_procedure : ℕ → ℕ → Image → Image
    filter_procedure every x out = filter_columns every x 0 out

    -- The threads of `main`, in the order of the list in which they get their work done; thread `t`
    -- starts at the column `t * every`.
    pub run_threads : ℕ → List ℕ → Image → Image
    run_threads every [] out = out
    run_threads every (t ∷ ts) out = run_threads every ts (filter_procedure every (t * every) out)
