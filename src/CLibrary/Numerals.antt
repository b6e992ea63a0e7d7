-- ===== src/CLibrary/Numerals.antt =====
-- What `atoi` reads is what `%i` printed.
use agh_ust_projects.Prelude.{
  ℕ, zero, suc, ◌+◌, ◌/◌, ◌%◌, ◌<◌, ◌≤◌, ◌≡◌, sym, ap, ◌∙◌, Bool-cases, inl, inr, List, [], ◌∷◌,
  ltb, arith,
}
use agh_ust_projects.Prelude.Int.{ℤ, pos, negsuc}
use agh_ust_projects.CLibrary.{digits, print_ℕ, print_ℤ, digits_value, atoi, negated}

digits_value-digits :
    (fuel n : ℕ) (rest : List ℕ)
    → n < fuel
    → digits_value 0 (digits fuel n rest) ≡ digits_value n rest
unfolding digits_value
digits_value-digits zero n rest h = elim h [ ]
digits_value-digits (suc fuel) n rest h =
    ground (arith, digits_value-digits fuel (n / 10) ((b'0' + n % 10) ∷ rest))

atoi-digit : (c : ℕ) (cs : List ℕ) → b'0' ≤ c → atoi (c ∷ cs) ≡ pos (digits_value 0 (c ∷ cs))
unfolding atoi
atoi-digit c cs h = ground arith

-- A printed number starts with a digit.
digits-first :
    (fuel n : ℕ) (rest : List ℕ)
    → n < fuel
    → (c : ℕ) × (cs : List ℕ) × (b'0' ≤ c) × (digits fuel n rest ≡ c ∷ cs)
digits-first zero n rest h = elim h [ ]
digits-first (suc fuel) n rest h = elim (Bool-cases (ltb n 10)) [
  | inl e ↦ (b'0' + n, rest, omega arith, ground arith)
  | inr e ↦
      let (c, cs, l, p) = digits-first fuel (n / 10) ((b'0' + n % 10) ∷ rest) (ground (arith, e)) in
      (c, cs, l, ground (arith, p))
]

-- `atoi` gives back every number that `%i` printed.
pub atoi-print_ℕ : (n : ℕ) → atoi (print_ℕ n) ≡ pos n
unfolding print_ℕ digits_value
atoi-print_ℕ n =
    let (c, cs, h, e) = digits-first (suc n) n [] (omega arith) in
    ap atoi e
    ∙ (atoi-digit c cs h
        ∙ ap (λ l. pos (digits_value 0 l)) (sym e)
        ∙ ap pos (digits_value-digits (suc n) n [] (omega arith)))

pub print_ℕ-first : (n : ℕ) → (c : ℕ) × (cs : List ℕ) × (b'0' ≤ c) × (print_ℕ n ≡ c ∷ cs)
unfolding print_ℕ
print_ℕ-first n = digits-first (suc n) n [] (omega arith)

digits_value-print_ℕ : (n : ℕ) → digits_value 0 (print_ℕ n) ≡ n
unfolding print_ℕ digits_value
digits_value-print_ℕ n = digits_value-digits (suc n) n [] (omega arith)

-- `atoi` gives back every number that `%i` printed.
pub atoi-print_ℤ : (z : ℤ) → atoi (print_ℤ z) ≡ z
unfolding print_ℤ atoi
atoi-print_ℤ (pos n) = atoi-print_ℕ n
atoi-print_ℤ (negsuc n) = ap negated (digits_value-print_ℕ (suc n))
