-- ===== src/MessageQueue/Calc.antt =====
-- What `calc` of Operating-systems/lab6/zad1/server.c answers to a text; zad2 has the same function.
-- An `int` is an integer; where it would overflow, the C program is undefined and the model crashes.
pub mod Answers
use agh_ust_projects.Prelude.{
  ℕ, zero, suc, ◌+◌, ◌*◌, ◌/◌, Bool, true, false, List, [], ◌∷◌, ◌++◌, Option, none, some, length,
  ltb, leb, ◌==◌, ◌||◌, ◌&&◌, if◌then◌else◌, map,
}
use agh_ust_projects.Prelude.Int.{ℤ, pos, negsuc, ◌+ℤ◌, ◌-ℤ◌, ◌*ℤ◌}
use agh_ust_projects.CLibrary.{atoi, print_ℤ, str_eq, tokens, negated}

-- `crashed`: a null pointer goes to `strcmp` or `atoi`, a number is divided by 0, or a number does not
-- fit an `int`.
pub data Answer : Type 0 where
  replied : List ℕ → Answer
  refused : List ℕ → Answer
  crashed : Answer

abbrev pub word_calc : List ℕ
word_calc = b'C' ∷ b'A' ∷ b'L' ∷ b'C' ∷ []

abbrev pub word_add : List ℕ
word_add = b'A' ∷ b'D' ∷ b'D' ∷ []

abbrev pub word_sub : List ℕ
word_sub = b'S' ∷ b'U' ∷ b'B' ∷ []

abbrev pub word_mul : List ℕ
word_mul = b'M' ∷ b'U' ∷ b'L' ∷ []

abbrev pub word_div : List ℕ
word_div = b'D' ∷ b'I' ∷ b'V' ∷ []

-- The texts of the errors.
abbrev pub incorrect : List ℕ
incorrect =
    b'I' ∷ b'n' ∷ b'c' ∷ b'o' ∷ b'r' ∷ b'r' ∷ b'e' ∷ b'c' ∷ b't' ∷ b' ' ∷ b'c' ∷ b'a' ∷ b'l' ∷ b'c'
    ∷ b' ' ∷ b's' ∷ b't' ∷ b'a' ∷ b't' ∷ b'e' ∷ b'm' ∷ b'e' ∷ b'n' ∷ b't' ∷ []

abbrev pub too_many_tokens : List ℕ
too_many_tokens =
    incorrect
    ++ b' ' ∷ b't' ∷ b'o' ∷ b'o' ∷ b' ' ∷ b'm' ∷ b'a' ∷ b'n' ∷ b'y' ∷ b' ' ∷ b't' ∷ b'o' ∷ b'k'
      ∷ b'e' ∷ b'n' ∷ b's' ∷ []

abbrev pub too_many_elems : List ℕ
too_many_elems =
    incorrect
    ++ b' ' ∷ b'-' ∷ b' ' ∷ b't' ∷ b'o' ∷ b'o' ∷ b' ' ∷ b'm' ∷ b'a' ∷ b'n' ∷ b'y' ∷ b' ' ∷ b'e'
      ∷ b'l' ∷ b'e' ∷ b'm' ∷ b's' ∷ []

abbrev pub operator_error : List ℕ
operator_error =
    incorrect
    ++ b' ' ∷ b'-' ∷ b' ' ∷ b'o' ∷ b'p' ∷ b'e' ∷ b'r' ∷ b'a' ∷ b't' ∷ b'o' ∷ b'r' ∷ b' ' ∷ b'e'
      ∷ b'r' ∷ b'r' ∷ b'o' ∷ b'r' ∷ []

abbrev pub is_operator : ℕ → Bool
is_operator c = c == b'+' || c == b'-' || c == b'*' || c == b'/'

-- The delimiters of the two uses of `strtok`.
abbrev pub is_blank : ℕ → Bool
is_blank c = c == 32 || c == 10

abbrev pub splits_expression : ℕ → Bool
splits_expression c = is_operator c || c == 10

-- `a / b` of C, which rounds towards 0.
unfoldable pub quotient : ℤ → ℤ → ℤ
quotient (pos a) (pos b) = pos (a / b)
quotient (pos a) (negsuc b) = negated (a / suc b)
quotient (negsuc a) (pos b) = negated (suc a / b)
quotient (negsuc a) (negsuc b) = pos (suc a / suc b)

-- MSG_MAXSIZE, the size of `mtext` with its terminator.
abbrev pub msg_maxsize : ℕ
msg_maxsize = 30

abbrev pub int_max : ℕ
int_max = 2147483647

abbrev pub fits_int : ℤ → Bool
fits_int (pos n) = leb n int_max
fits_int (negsuc n) = leb n int_max

-- `sprintf` of a result that has to be an `int`.
unfoldable pub answered : ℤ → Answer
answered z = if fits_int z then replied (print_ℤ z) else crashed

-- What is done with two results of `atoi`, which have to be an `int` each.
abbrev pub on_ints : ℤ → ℤ → Answer → Answer
on_ints a b answer = if fits_int a && fits_int b then answer else crashed

unfoldable pub divided : ℤ → ℤ → Answer
divided a (pos zero) = crashed
divided a b = answered (quotient a b)

-- The `switch` on `op[0]`.
unfoldable pub computed : ℕ → ℤ → ℤ → Answer
computed op a b =
    if op == b'+'
    then answered (a +ℤ b)
    else if op == b'-'
    then answered (a -ℤ b)
    else if op == b'*'
    then answered (a *ℤ b)
    else divided a b

-- The `for` loop over `theExpression`.
unfoldable pub first_operator : List ℕ → Option ℕ
first_operator [] = none
first_operator (c ∷ cs) = if is_operator c then some c else first_operator cs

abbrev pub operands : ℕ → List (List ℕ) → Answer
operands op [] = crashed
operands op (a ∷ []) = crashed
operands op (a ∷ b ∷ more) = on_ints (atoi a) (atoi b) (computed op (atoi a) (atoi b))

abbrev pub with_operator : Option ℕ → List (List ℕ) → Answer
with_operator none parts = refused operator_error
with_operator (some op) parts = operands op parts

-- The branch of an expression such as `2+3`.
unfoldable pub expression : List ℕ → Answer
expression text =
    let parts = tokens splits_expression [] text in
    if ltb 3 (length parts)
    then refused too_many_elems
    else with_operator (first_operator text) parts

-- The branches of `ADD`, `SUB`, `MUL` and `DIV`.
unfoldable pub named : List ℕ → ℤ → ℤ → Answer
named name a b =
    if str_eq name word_add
    then on_ints a b (answered (a +ℤ b))
    else if str_eq name word_sub
    then on_ints a b (answered (a -ℤ b))
    else if str_eq name word_mul
    then on_ints a b (answered (a *ℤ b))
    else if str_eq name word_div
    then on_ints a b (divided a b)
    else refused incorrect

-- The tests on the number of tokens.
abbrev pub statement : List (List ℕ) → Answer
statement [] = crashed
statement (t0 ∷ []) = crashed
statement (t0 ∷ t1 ∷ []) = if str_eq t0 word_calc then expression t1 else refused incorrect
statement (t0 ∷ t1 ∷ t2 ∷ []) = refused incorrect
statement (t0 ∷ t1 ∷ t2 ∷ t3 ∷ []) = named t1 (atoi t2) (atoi t3)
statement (t0 ∷ t1 ∷ t2 ∷ t3 ∷ t4 ∷ more) = refused too_many_tokens

unfoldable pub calc_answer : List ℕ → Answer
calc_answer text = statement (tokens is_blank [] text)
