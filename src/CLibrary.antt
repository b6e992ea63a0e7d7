-- ===== src/CLibrary.antt =====
-- What the programs use of the C library's functions on strings: `strcmp`, `strtok`, `atoi`, and `%i`
-- of `sprintf`. A string is the list of its characters before the terminator.
pub mod Numerals
pub mod Tokens
pub mod Lines
use agh_ust_projects.Prelude.{
  ℕ, zero, suc, ◌+◌, ◌-◌, ◌*◌, ◌/◌, ◌%◌, Bool, true, false, List, [], ◌∷◌, ◌++◌, ltb, leb, ◌==◌,
  ◌&&◌, ◌||◌, if◌then◌else◌,
}
use agh_ust_projects.Prelude.Int.{ℤ, pos, negsuc}

-- The C string at the start of a buffer.
unfoldable pub c_string : List ℕ → List ℕ
c_string [] = []
c_string (b ∷ bs) = if b == 0 then [] else b ∷ c_string bs

unfoldable pub str_eq : List ℕ → List ℕ → Bool
str_eq [] [] = Bool.true
str_eq [] (b ∷ bs) = Bool.false
str_eq (a ∷ as') [] = Bool.false
str_eq (a ∷ as') (b ∷ bs) = if a == b then str_eq as' bs else Bool.false

-- `sprintf` of a number that is not negative: its decimal digits, in front of `rest`.
abbrev pub digits : ℕ → ℕ → List ℕ → List ℕ
digits zero n rest = rest
digits (suc fuel) n rest =
    let more = digits fuel (n / 10) ((b'0' + n % 10) ∷ rest) in
    if ltb n 10 then (b'0' + n) ∷ rest else more

unfoldable pub print_ℕ : ℕ → List ℕ
print_ℕ n = digits (suc n) n []

abbrev pub is_digit : ℕ → Bool
is_digit c = leb b'0' c && leb c b'9'

unfoldable pub digits_value : ℕ → List ℕ → ℕ
digits_value n [] = n
digits_value n (c ∷ cs) = if is_digit c then digits_value (n * 10 + (c - b'0')) cs else n

abbrev pub negated : ℕ → ℤ
negated zero = pos 0
negated (suc n) = negsuc n

-- White space, a sign, and the digits up to the first other character; no digits give 0.
unfoldable pub atoi : List ℕ → ℤ
atoi [] = pos 0
atoi (c ∷ cs) =
    let later = atoi cs in
    if c == 32 || (leb 9 c && leb c 13)
    then later
    else if c == b'-'
    then negated (digits_value 0 cs)
    else if c == b'+'
    then pos (digits_value 0 cs)
    else pos (digits_value 0 (c ∷ cs))

-- `%i` of any number.
unfoldable pub print_ℤ : ℤ → List ℕ
print_ℤ (pos n) = print_ℕ n
print_ℤ (negsuc n) = b'-' ∷ print_ℕ (suc n)

-- The token read so far, unless it is empty.
abbrev pub flush : List ℕ → List (List ℕ)
flush [] = []
flush (c ∷ cs) = (c ∷ cs) ∷ []

-- All tokens that `strtok` yields in turn, where `current` is the token read so far.
unfoldable pub tokens : (ℕ → Bool) → List ℕ → List ℕ → List (List ℕ)
tokens delim current [] = flush current
tokens delim current (c ∷ cs) = elim (delim c) [
  | true ↦ flush current ++ tokens delim [] cs
  | false ↦ tokens delim (current ++ c ∷ []) cs
]

-- The line that `fgets` reads, of at most `n` characters, its newline included, and what is left of
-- the file.
unfoldable pub fgets : ℕ → List ℕ → List ℕ × List ℕ
fgets zero file = ([], file)
fgets (suc n) [] = ([], [])
fgets (suc n) (c ∷ cs) =
    let (line, rest) = fgets n cs in if c == b'\n' then (c ∷ [], cs) else (c ∷ line, rest)

-- The lines that `getline` yields in turn, their newlines included, where `current` is read already.
unfoldable pub lines : List ℕ → List ℕ → List (List ℕ)
lines [] [] = []
lines (b ∷ current) [] = (b ∷ current) ∷ []
lines current (c ∷ cs) = elim (c == b'\n') [
  | true ↦ (current ++ c ∷ []) ∷ lines [] cs
  | false ↦ lines (current ++ c ∷ []) cs
]
