-- ===== src/CLibrary/Tokens.antt =====
-- How `strtok` splits a text that is built from words and single delimiters.
use agh_ust_projects.Prelude.{
  ℕ, zero, suc, ◌+◌, ◌/◌, ◌%◌, ◌≡◌, sym, ap, ◌∙◌, Bool, true, false, Bool-cases, inl, inr, List, [],
  ◌∷◌, ◌++◌, ltb, if◌then◌else◌, arith,
}
use mathlib.Core.Path.{subst}
use mathlib.Core.List.{append_assoc, append-nil}
use agh_ust_projects.CLibrary.{digits, print_ℕ, is_digit, flush, tokens}
use agh_ust_projects.CLibrary.Numerals.{print_ℕ-first}

abbrev pub NoDelim : (ℕ → Bool) → List ℕ → Type 0
NoDelim delim [] = Unit {0}
NoDelim delim (c ∷ cs) = (delim c ≡ false) × NoDelim delim cs

pub NoDelim-append :
    (p : ℕ → Bool) (xs ys : List ℕ) → NoDelim p xs → NoDelim p ys → NoDelim p (xs ++ ys)
NoDelim-append p [] ys n m = m
NoDelim-append p (x ∷ xs) ys n m = (n.0, NoDelim-append p xs ys n.1 m)

pub NoDelim-weaken :
    (p q : ℕ → Bool) (w : List ℕ)
    → ((c : ℕ) → p c ≡ false → q c ≡ false)
    → NoDelim p w
    → NoDelim q w
NoDelim-weaken p q [] h n = tt
NoDelim-weaken p q (c ∷ w) h n = (h c n.0, NoDelim-weaken p q w h n.1)

module _ (delim : ℕ → Bool) where
  tokens_delim :
      (current cs : List ℕ) (c : ℕ)
      → delim c ≡ true
      → tokens delim current (c ∷ cs) ≡ flush current ++ tokens delim [] cs
  unfolding tokens
  tokens_delim current cs c e = ground (arith, e)

  tokens_other :
      (current cs : List ℕ) (c : ℕ)
      → delim c ≡ false
      → tokens delim current (c ∷ cs) ≡ tokens delim (current ++ c ∷ []) cs
  unfolding tokens
  tokens_other current cs c e = ground (arith, e)

  -- A word, a delimiter and the rest.
  pub tokens_word :
      (current w rest : List ℕ) (c : ℕ)
      → NoDelim delim w
      → delim c ≡ true
      → tokens delim current (w ++ c ∷ rest) ≡ flush (current ++ w) ++ tokens delim [] rest
  tokens_word current [] rest c n e =
      tokens_delim current rest c e
      ∙ ap (λ l. flush l ++ tokens delim [] rest) (sym (append-nil current))
  tokens_word current (x ∷ w) rest c n e =
      tokens_other current (w ++ c ∷ rest) x n.0
      ∙ (tokens_word (current ++ x ∷ []) w rest c n.1 e
          ∙ ap (λ l. flush l ++ tokens delim [] rest) (append_assoc current (x ∷ []) w))

  pub tokens_end :
      (current w : List ℕ) → NoDelim delim w → tokens delim current w ≡ flush (current ++ w)
  unfolding tokens
  tokens_end current [] n = ap flush (sym (append-nil current))
  tokens_end current (x ∷ w) n =
      tokens_other current w x n.0
      ∙ (tokens_end (current ++ x ∷ []) w n.1 ∙ ap flush (append_assoc current (x ∷ []) w))

  digits-NoDelim :
      (fuel n : ℕ) (rest : List ℕ)
      → ((c : ℕ) → is_digit c ≡ true → delim c ≡ false)
      → NoDelim delim rest
      → NoDelim delim (digits fuel n rest)
  digits-NoDelim zero n rest h r = r
  digits-NoDelim (suc fuel) n rest h r = elim (Bool-cases (ltb n 10)) [
    | inl e ↦
        subst (λ (b : Bool). NoDelim delim (if b then (b'0' + n) ∷ rest else more)) (sym e)
          (h (b'0' + n) (ground arith), r)
    | inr e ↦
        subst (λ (b : Bool). NoDelim delim (if b then (b'0' + n) ∷ rest else more)) (sym e)
          (digits-NoDelim fuel (n / 10) ((b'0' + n % 10) ∷ rest) h
            (h (b'0' + n % 10) (ground arith), r))
  ]
    where
      more : List ℕ
      more = digits fuel (n / 10) ((b'0' + n % 10) ∷ rest)

  -- A printed number holds no delimiter that is not a digit, so it is one token.
  pub print_ℕ-NoDelim :
      (n : ℕ) → ((c : ℕ) → is_digit c ≡ true → delim c ≡ false) → NoDelim delim (print_ℕ n)
  unfolding print_ℕ
  print_ℕ-NoDelim n h = digits-NoDelim (suc n) n [] h tt

pub flush-print_ℕ : (n : ℕ) → flush (print_ℕ n) ≡ print_ℕ n ∷ []
flush-print_ℕ n = let (c, cs, h, e) = print_ℕ-first n in ap flush e ∙ ap (λ l. l ∷ []) (sym e)
