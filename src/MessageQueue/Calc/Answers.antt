-- ===== src/MessageQueue/Calc/Answers.antt =====
-- What `calc` of Operating-systems/lab6/zad1/server.c answers to well-formed and to broken statements.
use agh_ust_projects.Prelude.{
  ℕ, zero, suc, ◌+◌, ◌*◌, ◌/◌, ◌≤◌, ◌<◌, Bool, ◌≡◌, refl, ap, ◌∙◌, true, false, List, [], ◌∷◌, ◌++◌,
  Option, none, some, length, ltb, if◌then◌else◌, arith,
}
use agh_ust_projects.Prelude.Int.{ℤ, pos, sub_ℕ, ◌+ℤ◌, ◌-ℤ◌, ◌*ℤ◌}
use agh_ust_projects.CLibrary.{print_ℕ, print_ℤ, str_eq, tokens, is_digit, flush}
use agh_ust_projects.CLibrary.Numerals.{atoi-print_ℕ}
use agh_ust_projects.CLibrary.Tokens.{
  NoDelim, NoDelim-append, tokens_word, tokens_end, print_ℕ-NoDelim, flush-print_ℕ,
}
use agh_ust_projects.MessageQueue.Calc.{
  Answer, replied, refused, crashed, word_calc, word_add, word_sub, word_mul, word_div, is_operator,
  is_blank, splits_expression, quotient, divided, computed, first_operator, with_operator,
  expression, named, statement, calc_answer, too_many_elems, msg_maxsize, int_max, fits_int,
  answered, on_ints,
}

digit-not_blank : (c : ℕ) → is_digit c ≡ true → is_blank c ≡ false
digit-not_blank c h = ground arith

digit-not_operator : (c : ℕ) → is_digit c ≡ true → splits_expression c ≡ false
digit-not_operator c h = ground arith

-- The statement of an expression, and that of a named operation.
abbrev pub expression_text : ℕ → ℕ → ℕ → List ℕ
expression_text a op b = print_ℕ a ++ op ∷ print_ℕ b

expression-parts :
    (a op b : ℕ)
    → is_operator op ≡ true
    → tokens splits_expression [] (expression_text a op b) ≡ print_ℕ a ∷ print_ℕ b ∷ []
expression-parts a op b h =
    tokens_word splits_expression [] (print_ℕ a) (print_ℕ b) op
      (print_ℕ-NoDelim splits_expression a digit-not_operator) (ground (arith, h))
    ∙ (ap (λ l. flush (print_ℕ a) ++ l)
          (tokens_end splits_expression [] (print_ℕ b)
            (print_ℕ-NoDelim splits_expression b digit-not_operator))
        ∙ (ap (λ l. l ++ flush (print_ℕ b)) (flush-print_ℕ a)
            ∙ ap (λ l. print_ℕ a ∷ l) (flush-print_ℕ b)))

first_operator-text :
    (w rest : List ℕ) (op : ℕ)
    → NoDelim splits_expression w
    → is_operator op ≡ true
    → first_operator (w ++ op ∷ rest) ≡ some op
unfolding first_operator
first_operator-text [] rest op n h = ground (arith, h)
first_operator-text (c ∷ w) rest op n h = ground (arith, n.0, first_operator-text w rest op n.1 h)

-- An operation of two numbers, as it is meant.
pub data Op : Type 0 where
  add sub mul div : Op

abbrev pub symbol : Op → ℕ
symbol add = b'+'
symbol sub = b'-'
symbol mul = b'*'
symbol div = b'/'

abbrev pub name : Op → List ℕ
name add = word_add
name sub = word_sub
name mul = word_mul
name div = word_div

-- The value of the operation; division by 0 has none.
abbrev pub value : Op → ℕ → ℕ → Option ℤ
value add a b = some (pos (a + b))
value sub a b = some (sub_ℕ a b)
value mul a b = some (pos (a * b))
value div a zero = none
value div a (suc b) = some (pos (a / suc b))

abbrev pub answer_of : Option ℤ → Answer
answer_of none = crashed
answer_of (some z) = replied (print_ℤ z)

pos-add : (a b : ℕ) → pos a +ℤ pos b ≡ pos (a + b)
unfolding ◌+ℤ◌
pos-add a b = ground arith

pos-sub : (a b : ℕ) → pos a -ℤ pos b ≡ sub_ℕ a b
unfolding ◌-ℤ◌
pos-sub a b = ground arith

pos-mul : (a b : ℕ) → pos a *ℤ pos b ≡ pos (a * b)
unfolding ◌*ℤ◌
pos-mul a b = ground arith

-- The operation has no value, or one that fits an `int`.
abbrev pub value_fits : Option ℤ → Bool
value_fits none = true
value_fits (some z) = fits_int z

answered-fits : (z : ℤ) → fits_int z ≡ true → answered z ≡ replied (print_ℤ z)
unfolding answered
answered-fits z h = rw h refl

on_ints-fit :
    (a b : ℕ) (answer : Answer)
    → a ≤ int_max
    → b ≤ int_max
    → on_ints (pos a) (pos b) answer ≡ answer
on_ints-fit a b answer small_a small_b = ground arith

computed-value :
    (o : Op) (a b : ℕ)
    → value_fits (value o a b) ≡ true
    → computed (symbol o) (pos a) (pos b) ≡ answer_of (value o a b)
unfolding computed divided quotient
computed-value add a b h = ap answered (pos-add a b) ∙ answered-fits _ h
computed-value sub a b h = ap answered (pos-sub a b) ∙ answered-fits _ h
computed-value mul a b h = ap answered (pos-mul a b) ∙ answered-fits _ h
computed-value div a zero h = refl
computed-value div a (suc b) h = answered-fits _ h

named-value :
    (o : Op) (a b : ℕ)
    → a ≤ int_max
    → b ≤ int_max
    → value_fits (value o a b) ≡ true
    → named (name o) (pos a) (pos b) ≡ answer_of (value o a b)
unfolding named computed str_eq
named-value add a b small_a small_b h = on_ints-fit a b _ small_a small_b ∙ computed-value add a b h
named-value sub a b small_a small_b h = on_ints-fit a b _ small_a small_b ∙ computed-value sub a b h
named-value mul a b small_a small_b h = on_ints-fit a b _ small_a small_b ∙ computed-value mul a b h
named-value div a b small_a small_b h = on_ints-fit a b _ small_a small_b ∙ computed-value div a b h

symbol-is_operator : (o : Op) → is_operator (symbol o) ≡ true
symbol-is_operator add = refl
symbol-is_operator sub = refl
symbol-is_operator mul = refl
symbol-is_operator div = refl

expression-computed :
    (a op b : ℕ)
    → is_operator op ≡ true
    → a ≤ int_max
    → b ≤ int_max
    → expression (expression_text a op b) ≡ computed op (pos a) (pos b)
unfolding expression
expression-computed a op b h small_a small_b =
    ap
      (λ l.
        if ltb 3 (length l)
        then refused too_many_elems
        else with_operator (first_operator (expression_text a op b)) l)
      (expression-parts a op b h)
    ∙ (ap (λ o. with_operator o (print_ℕ a ∷ print_ℕ b ∷ []))
          (first_operator-text (print_ℕ a) (print_ℕ b) op
            (print_ℕ-NoDelim splits_expression a digit-not_operator) h)
        ∙ ((λ i.
              on_ints (atoi-print_ℕ a i) (atoi-print_ℕ b i)
                (computed op (atoi-print_ℕ a i) (atoi-print_ℕ b i)))
            ∙ on_ints-fit a b _ small_a small_b))

-- One blank, then a word that is not empty.
two_words :
    (v w : List ℕ)
    → NoDelim is_blank v
    → NoDelim is_blank w
    → tokens is_blank [] (v ++ 32 ∷ w) ≡ flush v ++ flush w
two_words v w n m =
    tokens_word is_blank [] v w 32 n refl ∙ ap (λ l. flush v ++ l) (tokens_end is_blank [] w m)

text-NoDelim : (a op b : ℕ) → is_operator op ≡ true → NoDelim is_blank (expression_text a op b)
text-NoDelim a op b h =
    NoDelim-append is_blank (print_ℕ a) (op ∷ print_ℕ b)
      (print_ℕ-NoDelim is_blank a digit-not_blank)
      (ground (arith, h), print_ℕ-NoDelim is_blank b digit-not_blank)

flush-append : (v w : List ℕ) (c : ℕ) → flush (v ++ c ∷ w) ≡ (v ++ c ∷ w) ∷ []
flush-append [] w c = refl
flush-append (x ∷ v) w c = refl

-- The statement `CALC 2+3`, for the numbers and the operation.
abbrev pub short_statement : Op → ℕ → ℕ → List ℕ
short_statement o a b = word_calc ++ 32 ∷ expression_text a (symbol o) b

-- The statement `CALC ADD 2 3`, likewise.
abbrev pub long_statement : Op → ℕ → ℕ → List ℕ
long_statement o a b = word_calc ++ 32 ∷ (name o ++ 32 ∷ (print_ℕ a ++ 32 ∷ print_ℕ b))

pub calc_NoDelim : NoDelim is_blank word_calc
calc_NoDelim = (refl, (refl, (refl, (refl, tt))))

name-NoDelim : (o : Op) → NoDelim is_blank (name o)
name-NoDelim add = (refl, (refl, (refl, tt)))
name-NoDelim sub = (refl, (refl, (refl, tt)))
name-NoDelim mul = (refl, (refl, (refl, tt)))
name-NoDelim div = (refl, (refl, (refl, tt)))

flush-name : (o : Op) → flush (name o) ≡ name o ∷ []
flush-name add = refl
flush-name sub = refl
flush-name mul = refl
flush-name div = refl

short-value :
    (o : Op) (a b : ℕ)
    → a ≤ int_max
    → b ≤ int_max
    → value_fits (value o a b) ≡ true
    → calc_answer (short_statement o a b) ≡ answer_of (value o a b)
unfolding calc_answer str_eq
short-value o a b small_a small_b h =
    ap statement (
      two_words word_calc (expression_text a (symbol o) b) calc_NoDelim
        (text-NoDelim a (symbol o) b (symbol-is_operator o))
      ∙ ap (λ l. word_calc ∷ l) (flush-append (print_ℕ a) (print_ℕ b) (symbol o)))
    ∙ (expression-computed a (symbol o) b (symbol-is_operator o) small_a small_b
        ∙ computed-value o a b h)

long-tokens :
    (o : Op) (a b : ℕ)
    → tokens is_blank [] (long_statement o a b) ≡ word_calc ∷ name o ∷ print_ℕ a ∷ print_ℕ b ∷ []
long-tokens o a b =
    tokens_word is_blank [] word_calc (name o ++ 32 ∷ (print_ℕ a ++ 32 ∷ print_ℕ b)) 32 calc_NoDelim
      refl
    ∙ ap (λ l. word_calc ∷ l)
        (tokens_word is_blank [] (name o) (print_ℕ a ++ 32 ∷ print_ℕ b) 32 (name-NoDelim o) refl
          ∙ ((λ i. flush-name o i ++ last i)))
  where
    last : tokens is_blank [] (print_ℕ a ++ 32 ∷ print_ℕ b) ≡ print_ℕ a ∷ print_ℕ b ∷ []
    last =
        two_words (print_ℕ a) (print_ℕ b) (print_ℕ-NoDelim is_blank a digit-not_blank)
          (print_ℕ-NoDelim is_blank b digit-not_blank)
        ∙ (λ i. flush-print_ℕ a i ++ flush-print_ℕ b i)

-- For two numbers without a sign and one of the four operations, where both numbers and the value, if
-- there is one, fit an `int`, and the longer statement fits `mtext`: the statements `CALC 2+3` and
-- `CALC ADD 2 3` are both answered by the value of the operation, except for a division by 0, on which the server crashes.
pub calc_answer_lem :
    (o : Op) (a b : ℕ)
    → a ≤ int_max
    → b ≤ int_max
    → value_fits (value o a b) ≡ true
    → length (long_statement o a b) < msg_maxsize
    → (calc_answer (short_statement o a b) ≡ answer_of (value o a b))
      × (calc_answer (long_statement o a b) ≡ answer_of (value o a b))
unfolding calc_answer
calc_answer_lem o a b small_a small_b h short = (
  short-value o a b small_a small_b h,
  ap statement (long-tokens o a b)
      ∙ ((λ i. named (name o) (atoi-print_ℕ a i) (atoi-print_ℕ b i))
          ∙ named-value o a b small_a small_b h),
)

-- The server crashes on a statement of at most one word, such as `CALC`.
pub calc_answer_crashed : (w : List ℕ) → NoDelim is_blank w → calc_answer w ≡ crashed
unfolding calc_answer
calc_answer_crashed [] n = ap statement (tokens_end is_blank [] [] n)
calc_answer_crashed (c ∷ w) n = ap statement (tokens_end is_blank [] (c ∷ w) n)
