-- ===== src/ImageFilter/Examples.antt =====
-- The theorems on Operating-systems/lab8/zad1/main.c at a small image.
use agh_ust_projects.Prelude.{
  ℕ, ◌+◌, ◌*◌, ◌/◌, ◌≡◌, arith, ◌<◌, ◌==◌, some, [], ◌∷◌, ltb, ◌&&◌, if◌then◌else◌,
}
use agh_ust_projects.Prelude.Int.{ℤ, pos}
use agh_ust_projects.CLibrary.{lines}
use agh_ust_projects.ImageFilter.Files.{image_to_arr, write_output}
use agh_ust_projects.ImageFilter.Files.RoundTrip.{image_to_arr-write_output}
use agh_ust_projects.ImageFilter.{Image, Doubles, Job, pixel, run_threads}
use agh_ust_projects.ImageFilter.Columns.{AllRan, threads_fill_columns}

-- Whole numbers in place of doubles.
abbrev numbers : Doubles
numbers = record {
  Double = ℕ;
  zero_double = 0;
  add_product = λ s p w. s + p * w;
  round_to_int = λ s. s;
}

-- Five columns for two threads: the last column is nobody's.
abbrev job : Job numbers
job = record { c = 1; width = 5; height = 3; image = λ r k. r + k; filter = λ i. 1 }

abbrev black : Image
black r k = 0

both : AllRan 2 (1 ∷ 0 ∷ [])
both t h = ground arith

threads_fill_columns_example :
    run_threads numbers job (5 / 2) (1 ∷ 0 ∷ []) black 1 2
    ≡ (if ltb 1 3 && ltb 2 (2 * (5 / 2)) then pixel numbers job 1 2 else black 1 2)
threads_fill_columns_example =
    threads_fill_columns numbers job 2 (1 ∷ 0 ∷ []) 1 2 black (omega arith)
      (omega arith, (omega arith, tt)) both

-- Every pixel of the second row is 7.
abbrev picture : ℕ → ℕ → ℕ
picture row column = if row == 1 then 7 else column

image_to_arr-write_output_example :
    (image : ℕ → ℕ → ℤ) × (image_to_arr (lines [] (write_output 3 2 picture)) ≡ some (3, 2, image))
    × ((r k : ℕ) → r < 2 → k < 3 → image r k ≡ pos (picture r k))
image_to_arr-write_output_example =
    image_to_arr-write_output 3 2 picture (ground arith) (ground arith)
