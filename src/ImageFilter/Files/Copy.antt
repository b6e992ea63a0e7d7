-- ===== src/ImageFilter/Files/Copy.antt =====
-- What Operating-systems/lab8/zad1/main.c writes, it reads back.
use agh_ust_projects.Prelude.{
  ℕ, ◌+◌, ◌%◌, ◌≤◌, ◌<◌, ◌≡◌, ◌≢◌, append_cons_ne, refl, sym, ap, ◌∙◌, Bool, true, false,
  Bool-cases, List, [], ◌∷◌, ◌++◌, map, inl, inr, some, leb, ◌==◌, ◌&&◌, not, if◌then◌else◌, arith,
}
use mathlib.Core.Path.{subst}
use mathlib.Core.List.{append-nil, append_assoc}
use agh_ust_projects.Prelude.Int.{pos}
use agh_ust_projects.CLibrary.{tokens, lines, atoi, print_ℕ, is_digit}
use agh_ust_projects.CLibrary.Numerals.{atoi-print_ℕ}
use agh_ust_projects.CLibrary.Tokens.{
  NoDelim, NoDelim-append, tokens_word, print_ℕ-NoDelim, flush-print_ℕ,
}
use agh_ust_projects.CLibrary.Lines.{is_newline, lines_plain, lines_newline, lines_end}
use agh_ust_projects.ImageFilter.Files.{Progress, placed, store, read_values, is_separator}
use agh_ust_projects.ImageFilter.Files.Values.{write_flat, place, Fits, place-append}

pub digit-newline : (c : ℕ) → is_digit c ≡ true → is_newline c ≡ false
digit-newline c h = ground arith

pub digit-separator : (c : ℕ) → is_digit c ≡ true → is_separator c ≡ false
digit-separator c h = ground arith

-- Numbers with a blank behind each.
abbrev pub blanked : List ℕ → List ℕ
blanked [] = []
blanked (v ∷ vs) = print_ℕ v ++ 32 ∷ blanked vs

blanked-append : (vs us : List ℕ) → blanked (vs ++ us) ≡ blanked vs ++ blanked us
blanked-append [] us = refl
blanked-append (v ∷ vs) us =
    ap (λ t. print_ℕ v ++ 32 ∷ t) (blanked-append vs us)
    ∙ sym (append_assoc (print_ℕ v) (32 ∷ blanked vs) (blanked us))

-- The words of a line, with a newline behind them or without.
tokens-blanked :
    (vs rest : List ℕ)
    → tokens is_separator [] rest ≡ []
    → tokens is_separator [] (blanked vs ++ rest) ≡ map print_ℕ vs
tokens-blanked [] rest e = e
tokens-blanked (v ∷ vs) rest e =
    ap (tokens is_separator []) (append_assoc (print_ℕ v) (32 ∷ blanked vs) rest)
    ∙ tokens_word is_separator [] (print_ℕ v) (blanked vs ++ rest) 32
        (print_ℕ-NoDelim is_separator v digit-separator) refl
    ∙ λ i. flush-print_ℕ v i ++ tokens-blanked vs rest e i

no_words : tokens is_separator [] [] ≡ []
unfolding tokens
no_words = refl

newline_no_words : tokens is_separator [] (b'\n' ∷ []) ≡ []
unfolding tokens
newline_no_words = refl

number-newline : (v : ℕ) → NoDelim is_newline (print_ℕ v ++ 32 ∷ [])
number-newline v =
    NoDelim-append is_newline (print_ℕ v) (32 ∷ []) (print_ℕ-NoDelim is_newline v digit-newline)
      (refl, tt)

module _ (width height : ℕ) where
  store_next :
      (w : List ℕ) (ws : List (List ℕ)) (p : Progress) (v : ℕ)
      → atoi w ≡ pos v
      → (placed width (pos v) p).row < height
      → store width height (w ∷ ws) p ≡ store width height ws (placed width (pos v) p)
  unfolding store
  store_next w ws p v e h =
      keeps (p.col + 1 == width) (placed width (atoi w) p)
        (subst (λ z. (placed width z p).row < height) (sym e) h)
      ∙ ap (λ z. store width height ws (placed width z p)) e
    where
      keeps :
          (b : Bool) (q : Progress)
          → q.row < height
          → elim (b && leb height q.row) [ true ↦ q | false ↦ store width height ws q ]
            ≡ store width height ws q
      keeps true q l = ground (arith, l)
      keeps false q l = refl

  store_last :
      (w : List ℕ) (p : Progress) (v : ℕ)
      → atoi w ≡ pos v
      → store width height (w ∷ []) p ≡ placed width (pos v) p
  unfolding store
  store_last w p v e =
      either (p.col + 1 == width && leb height (placed width (atoi w) p).row)
        (placed width (atoi w) p)
      ∙ ap (λ z. placed width z p) e
    where
      either : (b : Bool) (q : Progress) → elim b [ true ↦ q | false ↦ q ] ≡ q
      either true q = refl
      either false q = refl

  store-place :
      (vs : List ℕ) (p : Progress)
      → Fits width height vs p
      → store width height (map print_ℕ vs) p ≡ place width vs p
  unfolding store
  store-place [] p f = refl
  store-place (v ∷ []) p f = store_last (print_ℕ v) p v (atoi-print_ℕ v)
  store-place (v ∷ u ∷ us) p f =
      store_next (print_ℕ v) (map print_ℕ (u ∷ us)) p v (atoi-print_ℕ v) f.1.0
      ∙ store-place (u ∷ us) (placed width (pos v) p) f.1

  Fits-first :
      (vs us : List ℕ) (p : Progress) → Fits width height (vs ++ us) p → Fits width height vs p
  Fits-first [] us p f = tt
  Fits-first (v ∷ vs) us p f = (f.0, Fits-first vs us (placed width (pos v) p) f.1)

  Fits-last :
      (vs us : List ℕ) (p : Progress)
      → Fits width height (vs ++ us) p
      → Fits width height us (place width vs p)
  Fits-last [] us p f = f
  Fits-last (v ∷ vs) us p f = Fits-last vs us (placed width (pos v) p) f.1

  read_line :
      (l : List ℕ) (ls : List (List ℕ)) (p : Progress)
      → p.row < height
      → read_values width height (l ∷ ls) p
        ≡ read_values width height ls (store width height (tokens is_separator [] l) p)
  unfolding read_values
  read_line l ls p h = ground (arith, h)

  read_end : (p : Progress) → height ≤ p.row → read_values width height [] p ≡ some p.image
  unfolding read_values
  read_end p h = ground (arith, h)

  -- The line in progress is the last one.
  read_rest :
      (ws : List ℕ) (p : Progress)
      → ws ≢ []
      → Fits width height ws p
      → p.row < height
      → height ≤ (place width ws p).row
      → read_values width height (lines (blanked ws) []) p ≡ some ((place width ws p).image)
  read_rest [] p n f h l = absurd (n refl)
  read_rest (w ∷ ws) p n f h l =
      ap (λ ls. read_values width height ls p)
        (lines_end (blanked (w ∷ ws)) (append_cons_ne (print_ℕ w) (blanked ws) 32))
      ∙ read_line (blanked (w ∷ ws)) [] p h
      ∙ ap (λ t. read_values width height [] (store width height t p))
          (ap (tokens is_separator []) (sym (append-nil (blanked (w ∷ ws))))
            ∙ tokens-blanked (w ∷ ws) [] no_words)
      ∙ ap (read_values width height []) (store-place (w ∷ ws) p f)
      ∙ read_end (place width (w ∷ ws) p) l

  -- The line in progress ends.
  read_next :
      (ws text : List ℕ) (p : Progress)
      → Fits width height ws p
      → p.row < height
      → read_values width height (lines (blanked ws) (b'\n' ∷ text)) p
        ≡ read_values width height (lines [] text) (place width ws p)
  read_next ws text p f h =
      ap (λ ls. read_values width height ls p) (lines_newline (blanked ws) text)
      ∙ read_line (blanked ws ++ b'\n' ∷ []) (lines [] text) p h
      ∙ ap (λ t. read_values width height (lines [] text) (store width height t p))
          (tokens-blanked ws (b'\n' ∷ []) newline_no_words)
      ∙ ap (read_values width height (lines [] text)) (store-place ws p f)

  read_number :
      (ws text : List ℕ) (v : ℕ) (p : Progress)
      → read_values width height (lines (blanked ws) ((print_ℕ v ++ 32 ∷ []) ++ text)) p
        ≡ read_values width height (lines (blanked (ws ++ v ∷ [])) text) p
  read_number ws text v p =
      ap (λ ls. read_values width height ls p)
        (lines_plain (blanked ws) (print_ℕ v ++ 32 ∷ []) text (number-newline v)
          ∙ ap (λ t. lines t text) (sym (blanked-append ws (v ∷ []))))

  -- The loop reads what is left of the file, where `ws` stands in the line in progress.
  pub read-written :
      (vs : List ℕ) (count : ℕ) (ws : List ℕ) (p : Progress)
      → Fits width height (ws ++ vs) p
      → p.row < height
      → height ≤ (place width (ws ++ vs) p).row
      → ws ++ vs ≢ []
      → read_values width height (lines (blanked ws) (write_flat count vs)) p
        ≡ some ((place width (ws ++ vs) p).image)
  read-written [] count ws p f h l n =
      let e : ws ++ [] ≡ ws = append-nil ws in
      read_rest ws p (subst (λ t. t ≢ []) e n) (subst (λ t. Fits width height t p) e f) h
        (subst (λ t. height ≤ (place width t p).row) e l)
      ∙ ap (λ t. some ((place width t p).image)) (sym e)
  read-written (v ∷ us) count ws p f h l n =
      elim (Bool-cases (count % 20 == 0 && not (count == 0))) [
        | inl e ↦
            let q : Progress = place width ws p in
            let g : Fits width height (v ∷ us) q = Fits-last ws (v ∷ us) p f in
            let joined : place width (ws ++ v ∷ us) p ≡ place width (v ∷ us) q =
              place-append width ws (v ∷ us) p in
            ap (λ b. read_values width height (lines (blanked ws) (text b)) p) e
            ∙ read_next ws ((print_ℕ v ++ 32 ∷ []) ++ write_flat (count + 1) us) p
                (Fits-first ws (v ∷ us) p f) h
            ∙ read_number [] (write_flat (count + 1) us) v q
            ∙ read-written us (count + 1) (v ∷ []) q g g.0 (subst (λ r. height ≤ r.row) joined l)
                (append_cons_ne [] us v)
            ∙ ap (λ r. some (r.image)) (sym joined)
        | inr e ↦
            let same : (ws ++ v ∷ []) ++ us ≡ ws ++ v ∷ us = append_assoc ws (v ∷ []) us in
            ap (λ b. read_values width height (lines (blanked ws) (text b)) p) e
            ∙ read_number ws (write_flat (count + 1) us) v p
            ∙ read-written us (count + 1) (ws ++ v ∷ []) p
                (subst (λ t. Fits width height t p) (sym same) f) h
                (subst (λ t. height ≤ (place width t p).row) (sym same) l)
                (subst (λ t. t ≢ []) (sym same) n)
            ∙ ap (λ t. some ((place width t p).image)) same
      ]
    where
      text : Bool → List ℕ
      text b =
          ((if b then b'\n' ∷ [] else []) ++ (print_ℕ v ++ 32 ∷ [])) ++ write_flat (count + 1) us
