-- ===== src/ImageFilter/Files/RoundTrip.antt =====
-- A whole image file of Operating-systems/lab8/zad1/main.c, written and read.
use agh_ust_projects.Prelude.{
  ℕ, zero, suc, ◌+◌, ◌<◌, ◌≡◌, refl, ap, ◌∙◌, false, List, [], ◌∷◌, ◌++◌, none, some, if◌then◌else◌,
  arith,
}
use mathlib.Core.List.{append_assoc}
use agh_ust_projects.Prelude.Int.{ℤ, pos}
use agh_ust_projects.CLibrary.{tokens, lines, atoi, digits_value, print_ℕ}
use agh_ust_projects.CLibrary.Numerals.{atoi-print_ℕ}
use agh_ust_projects.CLibrary.Tokens.{NoDelim-append, tokens_word, print_ℕ-NoDelim, flush-print_ℕ}
use agh_ust_projects.CLibrary.Lines.{is_newline, lines_plain, lines_newline}
use agh_ust_projects.ImageFilter.{Image}
use agh_ust_projects.ImageFilter.Files.{
  no_progress, sized, read_sized, read_image, read_values, is_above, image_to_arr, write_rows,
  write_output, is_separator,
}
use agh_ust_projects.ImageFilter.Files.Values.{
  all_values, write_rows-flat, place, At, place_all, Fits-all,
}
use agh_ust_projects.ImageFilter.Files.Copy.{digit-newline, digit-separator, read-written}

abbrev size_line : ℕ → ℕ → List ℕ
size_line width height = print_ℕ width ++ 32 ∷ print_ℕ height ++ b'\n' ∷ []

abbrev maximum_line : List ℕ
maximum_line = b'2' ∷ b'5' ∷ b'5' ∷ b'\n' ∷ []

sizes :
    (width height : ℕ)
    → tokens is_separator [] (size_line width height) ≡ print_ℕ width ∷ print_ℕ height ∷ []
unfolding tokens
sizes width height =
    ap (tokens is_separator []) (append_assoc (print_ℕ width) (32 ∷ print_ℕ height) (b'\n' ∷ []))
    ∙ tokens_word is_separator [] (print_ℕ width) (print_ℕ height ++ b'\n' ∷ []) 32
        (print_ℕ-NoDelim is_separator width digit-separator) refl
    ∙ λ i. flush-print_ℕ width i ++ height_word i
  where
    height_word : tokens is_separator [] (print_ℕ height ++ b'\n' ∷ []) ≡ print_ℕ height ∷ []
    height_word =
        tokens_word is_separator [] (print_ℕ height) [] b'\n'
          (print_ℕ-NoDelim is_separator height digit-separator) refl
        ∙ ap (λ l. l ++ []) (flush-print_ℕ height)

maximum : is_above (atoi maximum_line) 255 ≡ false
unfolding atoi digits_value
maximum = refl

size_line-lines :
    (width height : ℕ) (rest : List ℕ)
    → lines [] (size_line width height ++ rest) ≡ size_line width height ∷ lines [] rest
size_line-lines width height rest =
    let plain : List ℕ = print_ℕ width ++ 32 ∷ print_ℕ height in
    ap (lines []) (append_assoc plain (b'\n' ∷ []) rest)
    ∙ lines_plain [] plain (b'\n' ∷ rest) (
        NoDelim-append is_newline (print_ℕ width) (32 ∷ print_ℕ height)
          (print_ℕ-NoDelim is_newline width digit-newline)
          (refl, print_ℕ-NoDelim is_newline height digit-newline))
    ∙ lines_newline plain rest

lines-write_output :
    (width height : ℕ) (output : Image)
    → lines [] (write_output width height output)
      ≡ (b'P' ∷ b'2' ∷ b'\n' ∷ [])
        ∷ size_line width height
        ∷ maximum_line
        ∷ lines [] (write_rows width height 0 0 output)
unfolding write_output lines
lines-write_output width height output =
    ap (λ l. (b'P' ∷ b'2' ∷ b'\n' ∷ []) ∷ l)
      (size_line-lines width height (maximum_line ++ write_rows width height 0 0 output))

At-start : (m : ℕ) (output : Image) → At (suc m) output 0 0 no_progress
At-start m output = record {
  at_row = refl;
  at_col = refl;
  above = λ i k l h. absurd (ground (arith, l));
  before = λ k l. absurd (ground (arith, l));
}

all_placed :
    (m n : ℕ) (output : Image)
    → At
        (suc m)
        output
        (0 + suc n)
        0
        (place (suc m) (all_values (suc m) (suc n) 0 output) no_progress)
all_placed m n output = place_all m output (suc n) 0 no_progress (At-start m output)

read_rows :
    (m n : ℕ) (output : Image)
    → read_values (suc m) (suc n) (lines [] (write_rows (suc m) (suc n) 0 0 output)) no_progress
      ≡ some ((place (suc m) (all_values (suc m) (suc n) 0 output) no_progress).image)
read_rows m n output =
    ap (λ t. read_values (suc m) (suc n) (lines [] t) no_progress)
      (write_rows-flat (suc m) (suc n) 0 0 output)
    ∙ read-written (suc m) (suc n) (all_values (suc m) (suc n) 0 output) 0 [] no_progress
        (Fits-all m output (suc n) (suc n) 0 no_progress (omega arith) (At-start m output))
        (omega arith) (omega (arith, (all_placed m n output).at_row)) (λ e. cc)

-- An image that has at least one row and one column, and that is written, is read back: the sizes are
-- the same, and every pixel has the number that was written for it.
pub image_to_arr-write_output :
    (width height : ℕ) (output : Image)
    → 0 < width
    → 0 < height
    → (image : ℕ → ℕ → ℤ) × (image_to_arr (lines [] (write_output width height output))
        ≡ some (width, height, image))
      × ((r k : ℕ) → r < height → k < width → image r k ≡ pos (output r k))
unfolding image_to_arr
image_to_arr-write_output zero height output h l = absurd (ground (arith, h))
image_to_arr-write_output (suc m) zero output h l = absurd (ground (arith, l))
image_to_arr-write_output (suc m) (suc n) output h l = (
  (place (suc m) (all_values (suc m) (suc n) 0 output) no_progress).image,
  ap image_to_arr (lines-write_output (suc m) (suc n) output)
      ∙ ap (λ t. read_image t maximum_line rows) (sizes (suc m) (suc n))
      ∙ ap
          (λ b.
            if b then none else read_sized (atoi (print_ℕ (suc m))) (atoi (print_ℕ (suc n))) rows)
          maximum
      ∙ (λ i. read_sized (atoi-print_ℕ (suc m) i) (atoi-print_ℕ (suc n) i) rows)
      ∙ ap (sized (suc m) (suc n)) (read_rows m n output),
  λ r k i j. (all_placed m n output).above r k (omega (arith, i)) j,
)
  where
    rows : List (List ℕ)
    rows = lines [] (write_rows (suc m) (suc n) 0 0 output)
