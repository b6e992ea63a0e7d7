-- ===== src/ImageFilter/Files.antt =====
-- The image files of Operating-systems/lab8/zad1/main.c. A file is read as the list of its lines;
-- `none` stands for a program that ends with an error or crashes.
pub mod Values
pub mod Copy
pub mod RoundTrip
use agh_ust_projects.Prelude.{
  ℕ, zero, suc, ◌+◌, ◌%◌, Bool, true, false, List, [], ◌∷◌, ◌++◌, Option, none, some, ltb, leb,
  ◌==◌, ◌||◌, ◌&&◌, not, if◌then◌else◌,
}
use agh_ust_projects.Prelude.Int.{ℤ, pos, negsuc}
use agh_ust_projects.CLibrary.{tokens, atoi, print_ℕ}
use agh_ust_projects.ImageFilter.{Image}

-- The delimiters of `strtok`.
abbrev pub is_separator : ℕ → Bool
is_separator c = c == 32 || (c == b'\n' || c == 9)

-- `row_count`, `col_count` and `image`.
pub record Progress : Type 0 where
  pub row : ℕ
  pub col : ℕ
  pub image : ℕ → ℕ → ℤ

abbrev pub with_pixel : (ℕ → ℕ → ℤ) → ℕ → ℕ → ℤ → ℕ → ℕ → ℤ
with_pixel image row col v r c = if r == row && c == col then v else image r c

-- The body of the inner loop of `image_to_arr`, without its `break`.
abbrev pub placed : ℕ → ℤ → Progress → Progress
placed width v p =
    if p.col + 1 == width
    then record { row = p.row + 1; col = 0; image = with_pixel p.image p.row p.col v }
    else record { row = p.row; col = p.col + 1; image = with_pixel p.image p.row p.col v }

-- The inner loop on the words of a line.
unfoldable pub store : ℕ → ℕ → List (List ℕ) → Progress → Progress
store width height [] p = p
store width height (w ∷ ws) p =
    elim (p.col + 1 == width && leb height (placed width (atoi w) p).row) [
      | true ↦ placed width (atoi w) p
      | false ↦ store width height ws (placed width (atoi w) p)
    ]

-- The outer loop on the lines that are left.
unfoldable pub read_values : ℕ → ℕ → List (List ℕ) → Progress → Option (ℕ → ℕ → ℤ)
read_values width height [] p = if ltb p.row height then none else some p.image
read_values width height (l ∷ ls) p = elim (ltb p.row height) [
  | true ↦ read_values width height ls (store width height (tokens is_separator [] l) p)
  | false ↦ some p.image
]

abbrev pub no_progress : Progress
no_progress = record { row = 0; col = 0; image = λ r c. pos 0 }

-- The width, the height and the image; sizes below 0 are left out.
abbrev pub sized : ℕ → ℕ → Option (ℕ → ℕ → ℤ) → Option (ℕ × ℕ × (ℕ → ℕ → ℤ))
sized width height none = none
sized width height (some image) = some (width, height, image)

abbrev pub read_sized : ℤ → ℤ → List (List ℕ) → Option (ℕ × ℕ × (ℕ → ℕ → ℤ))
read_sized (pos width) (pos height) ls =
    sized width height (read_values width height ls no_progress)
read_sized (pos width) (negsuc h) ls = none
read_sized (negsuc w) height ls = none

abbrev pub is_above : ℤ → ℕ → Bool
is_above (pos n) m = ltb m n
is_above (negsuc n) m = false

abbrev pub read_image : List (List ℕ) → List ℕ → List (List ℕ) → Option (ℕ × ℕ × (ℕ → ℕ → ℤ))
read_image [] m_str ls = none
read_image (w ∷ []) m_str ls = none
read_image (w ∷ h ∷ more) m_str ls =
    if is_above (atoi m_str) 255 then none else read_sized (atoi w) (atoi h) ls

unfoldable pub image_to_arr : List (List ℕ) → Option (ℕ × ℕ × (ℕ → ℕ → ℤ))
image_to_arr [] = none
image_to_arr (p2 ∷ []) = none
image_to_arr (p2 ∷ sizes ∷ []) = none
image_to_arr (p2 ∷ sizes ∷ m_str ∷ ls) = read_image (tokens is_separator [] sizes) m_str ls

-- The loops of `write_output` with the rounds left; a newline stands before each twentieth number.
abbrev pub write_number : ℕ → ℕ → List ℕ
write_number nbrs_count v =
    (if nbrs_count % 20 == 0 && not (nbrs_count == 0) then b'\n' ∷ [] else [])
    ++ (print_ℕ v ++ 32 ∷ [])

pub write_columns : ℕ → ℕ → ℕ → ℕ → Image → List ℕ
write_columns zero row column nbrs_count output = []
write_columns (suc n) row column nbrs_count output =
    write_number nbrs_count (output row column)
    ++ write_columns n row (column + 1) (nbrs_count + 1) output

pub write_rows : ℕ → ℕ → ℕ → ℕ → Image → List ℕ
write_rows width zero row nbrs_count output = []
write_rows width (suc n) row nbrs_count output =
    write_columns width row 0 nbrs_count output
    ++ write_rows width n (row + 1) (nbrs_count + width) output

unfoldable pub write_output : ℕ → ℕ → Image → List ℕ
write_output width height output =
    (b'P' ∷ b'2' ∷ b'\n' ∷ [])
    ++ ((print_ℕ width ++ 32 ∷ print_ℕ height ++ b'\n' ∷ [])
        ++ ((b'2' ∷ b'5' ∷ b'5' ∷ b'\n' ∷ []) ++ write_rows width height 0 0 output))
