-- ===== src/ImageFilter/Files/Values.antt =====
-- The numbers of an image in the order of Operating-systems/lab8/zad1/main.c: what it writes for them,
-- and where it puts them when it reads them one by one.
use agh_ust_projects.Prelude.{
  ℕ, zero, suc, ◌+◌, ◌<◌, ◌≡◌, refl, sym, ap, ◌∙◌, false, Bool-cases, List, [], ◌∷◌, ◌++◌, inl, inr,
  length, ◌==◌, ◌&&◌, arith,
}
use mathlib.Core.Path.{subst}
use mathlib.Core.List.{append_assoc}
use agh_ust_projects.Prelude.Int.{ℤ, pos}
use agh_ust_projects.ImageFilter.{Image}
use agh_ust_projects.ImageFilter.Files.{Progress, placed, write_number, write_columns, write_rows}

abbrev pub row_values : ℕ → ℕ → ℕ → Image → List ℕ
row_values zero row column output = []
row_values (suc n) row column output = output row column ∷ row_values n row (column + 1) output

abbrev pub all_values : ℕ → ℕ → ℕ → Image → List ℕ
all_values width zero row output = []
all_values width (suc n) row output =
    row_values width row 0 output ++ all_values width n (row + 1) output

abbrev pub write_flat : ℕ → List ℕ → List ℕ
write_flat count [] = []
write_flat count (v ∷ vs) = write_number count v ++ write_flat (count + 1) vs

length-row_values :
    (n row column : ℕ) (output : Image) → length (row_values n row column output) ≡ n
length-row_values zero row column output = refl
length-row_values (suc n) row column output = ap suc (length-row_values n row (column + 1) output)

write_flat-append :
    (count : ℕ) (vs us : List ℕ)
    → write_flat count (vs ++ us) ≡ write_flat count vs ++ write_flat (count + length vs) us
write_flat-append count [] us = ap (λ k. write_flat k us) (omega arith)
write_flat-append count (v ∷ vs) us =
    ap (λ t. write_number count v ++ t)
      (write_flat-append (count + 1) vs us
        ∙ ap (λ k. write_flat (count + 1) vs ++ write_flat k us) (omega arith))
    ∙ sym (append_assoc (write_number count v) (write_flat (count + 1) vs) _)

write_columns-flat :
    (n row column count : ℕ) (output : Image)
    → write_columns n row column count output ≡ write_flat count (row_values n row column output)
unfolding write_columns
write_columns-flat zero row column count output = refl
write_columns-flat (suc n) row column count output =
    ap (λ t. write_number count (output row column) ++ t)
      (write_columns-flat n row (column + 1) (count + 1) output)

pub write_rows-flat :
    (width n row count : ℕ) (output : Image)
    → write_rows width n row count output ≡ write_flat count (all_values width n row output)
unfolding write_rows
write_rows-flat width zero row count output = refl
write_rows-flat width (suc n) row count output =
    (λ i.
      write_columns-flat width row 0 count output i
      ++ write_rows-flat width n (row + 1) (count + width) output i)
    ∙ ap
        (λ k.
          write_flat count (row_values width row 0 output)
          ++ write_flat (count + k) (all_values width n (row + 1) output))
        (sym (length-row_values width row 0 output))
    ∙ sym (write_flat-append count (row_values width row 0 output) _)

module _ (width : ℕ) where
  -- Reading numbers one by one.
  abbrev pub place : List ℕ → Progress → Progress
  place [] q = q
  place (v ∷ vs) q = place vs (placed width (pos v) q)

  -- No number comes behind the last row.
  abbrev pub Fits : ℕ → List ℕ → Progress → Type 0
  Fits height [] q = Unit {0}
  Fits height (v ∷ vs) q = (q.row < height) × Fits height vs (placed width (pos v) q)

  pub place-append : (vs us : List ℕ) (q : Progress) → place (vs ++ us) q ≡ place us (place vs q)
  place-append [] us q = refl
  place-append (v ∷ vs) us q = place-append vs us (placed width (pos v) q)

  Fits-append :
      (height : ℕ) (vs us : List ℕ) (q : Progress)
      → Fits height vs q
      → Fits height us (place vs q)
      → Fits height (vs ++ us) q
  Fits-append height [] us q f g = g
  Fits-append height (v ∷ vs) us q f g =
      (f.0, Fits-append height vs us (placed width (pos v) q) f.1 g)

  -- The image agrees with `output` before row `r` and column `c`, where the next number goes.
  pub record At (output : Image) (r c : ℕ) (q : Progress) : Type 0 where
    pub at_row : q.row ≡ r
    pub at_col : q.col ≡ c
    pub above : (i k : ℕ) → i < r → k < width → q.image i k ≡ pos (output i k)
    pub before : (k : ℕ) → k < c → q.image r k ≡ pos (output r k)

  placed_here :
      (v : ℤ) (q : Progress) (i k : ℕ) → i ≡ q.row → k ≡ q.col → (placed width v q).image i k ≡ v
  placed_here v q i k e f = ground (arith, e, f)

  placed_else :
      (v : ℤ) (q : Progress) (i k : ℕ)
      → (i == q.row && k == q.col) ≡ false
      → (placed width v q).image i k ≡ q.image i k
  placed_else v q i k e = ground (arith, e)

  At-placed :
      (output : Image) (r c : ℕ) (q : Progress)
      → c + 1 < width
      → At output r c q
      → At output r (c + 1) (placed width (pos (output r c)) q)
  At-placed output r c q h a = record {
    at_row = ground (arith, a.at_row, a.at_col, h);
    at_col = ground (arith, a.at_row, a.at_col, h);
    above = λ i k l m. ground (arith, a.at_row, a.at_col, h, a.above i k l m);
    before = λ k l. elim (Bool-cases (k == c)) [
      | inl e ↦
          let same : k ≡ c = ground (arith, e) in
          placed_here (pos (output r c)) q r k (sym a.at_row) (same ∙ sym a.at_col)
          ∙ ap (λ j. pos (output r j)) (sym same)
      | inr e ↦
          placed_else (pos (output r c)) q r k (ground (arith, a.at_col, a.at_row, e))
          ∙ a.before k (ground (arith, e, l))
    ];
  }

  At-placed_last :
      (output : Image) (r c : ℕ) (q : Progress)
      → c + 1 ≡ width
      → At output r c q
      → At output (r + 1) 0 (placed width (pos (output r c)) q)
  At-placed_last output r c q h a = record {
    at_row = ground (arith, a.at_row, a.at_col, h);
    at_col = ground (arith, a.at_row, a.at_col, h);
    above = λ i k l m. elim (Bool-cases (i == r)) [
      | inl e ↦
          let row : i ≡ r = ground (arith, e) in
          elim (Bool-cases (k == c)) [
            | inl f ↦
                let same : k ≡ c = ground (arith, f) in
                placed_here (pos (output r c)) q i k (row ∙ sym a.at_row) (same ∙ sym a.at_col)
                ∙ λ j. pos (output (sym row j) (sym same j))
            | inr f ↦
                placed_else (pos (output r c)) q i k (ground (arith, a.at_col, a.at_row, f))
                ∙ ap (λ j. q.image j k) row
                ∙ a.before k (ground (arith, f, m, h))
                ∙ ap (λ j. pos (output j k)) (sym row)
          ]
      | inr e ↦
          placed_else (pos (output r c)) q i k (ground (arith, a.at_row, e))
          ∙ a.above i k (ground (arith, e, l)) m
    ];
    before = λ k l. absurd (ground (arith, l));
  }

  place_row :
      (output : Image) (n r c : ℕ) (q : Progress)
      → c + suc n ≡ width
      → At output r c q
      → At output (r + 1) 0 (place (row_values (suc n) r c output) q)
  place_row output zero r c q e a = At-placed_last output r c q (omega (arith, e)) a
  place_row output (suc n) r c q e a =
      place_row output n r (c + 1) (placed width (pos (output r c)) q) (omega (arith, e))
        (At-placed output r c q (omega (arith, e)) a)

  Fits-row :
      (output : Image) (height n r c : ℕ) (q : Progress)
      → c + suc n ≡ width
      → r < height
      → At output r c q
      → Fits height (row_values (suc n) r c output) q
  Fits-row output height zero r c q e h a = (omega (arith, a.at_row, h), tt)
  Fits-row output height (suc n) r c q e h a = (
    omega (arith, a.at_row, h),
    Fits-row output height n r (c + 1) (placed width (pos (output r c)) q) (omega (arith, e)) h
        (At-placed output r c q (omega (arith, e)) a),
  )

module _ (m : ℕ) (output : Image) where
  pub place_all :
      (n r : ℕ) (q : Progress)
      → At (suc m) output r 0 q
      → At (suc m) output (r + n) 0 (place (suc m) (all_values (suc m) n r output) q)
  place_all zero r q a = subst (λ k. At (suc m) output k 0 q) (omega arith) a
  place_all (suc n) r q a =
      let first : Progress = place (suc m) (row_values (suc m) r 0 output) q in
      let done : At (suc m) output (r + 1 + n) 0
          (place (suc m) (all_values (suc m) n (r + 1) output) first) =
        place_all n (r + 1) first (place_row (suc m) output m r 0 q (omega arith) a) in
      subst (λ k. At (suc m) output k 0 (place (suc m) (all_values (suc m) (suc n) r output) q))
        (omega arith)
        (subst (At (suc m) output (r + 1 + n) 0)
          (sym (
            place-append (suc m) (row_values (suc m) r 0 output)
              (all_values (suc m) n (r + 1) output) q))
          done)

  pub Fits-all :
      (height n r : ℕ) (q : Progress)
      → r + n ≡ height
      → At (suc m) output r 0 q
      → Fits (suc m) height (all_values (suc m) n r output) q
  Fits-all height zero r q e a = tt
  Fits-all height (suc n) r q e a =
      Fits-append (suc m) height (row_values (suc m) r 0 output)
        (all_values (suc m) n (r + 1) output) q
        (Fits-row (suc m) output height m r 0 q (omega arith) (omega (arith, e)) a)
        (Fits-all height n (r + 1) (place (suc m) (row_values (suc m) r 0 output) q)
          (omega (arith, e)) (place_row (suc m) output m r 0 q (omega arith) a))
