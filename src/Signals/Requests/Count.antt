-- ===== src/Signals/Requests/Count.antt =====
-- The count `n` of Operating-systems/lab4/zad2/main.c against the children that it should count.
use agh_ust_projects.Prelude.Int.{ℤ, pos, negsuc}
use agh_ust_projects.Prelude.{
  ℕ, zero, suc, Bool, ◌+◌, ◌≡◌, ◌↔◌, true, false, if◌then◌else◌, arith, ==_iff,
}
use mathlib.Core.Path.{subst}
use agh_ust_projects.Signals.Requests.{decremented, incremented, is_zero}
use agh_ust_projects.Signals.Requests.Tally.{counted_down}
use agh_ust_projects.Signals.Requests.System.{Round, before_fork, returned, assigned, stored}

-- A child that has been forked, and that `n` and `i` do not count yet.
abbrev pub in_window : Round → ℕ
in_window before_fork = 0
in_window (returned p) = 1
in_window (assigned p) = 1
in_window stored = 1

-- `n` and `window` make `children`, where `n` may be negative.
abbrev pub Counted : ℤ → ℕ → ℕ → Type 0
Counted (pos m) window children = m + window ≡ children
Counted (negsuc m) window children = window ≡ children + suc m

Counted-decremented :
    (n : ℤ) (window children : ℕ)
    → Counted n window (children + 1)
    → Counted (decremented n) window children
Counted-decremented (pos zero) window children c = omega (arith, c)
Counted-decremented (pos (suc m)) window children c = omega (arith, c)
Counted-decremented (negsuc m) window children c = omega (arith, c)

pub Counted-incremented :
    (n : ℤ) (children : ℕ) → Counted n 1 children → Counted (incremented n) 0 children
Counted-incremented (pos m) children c = omega (arith, c)
Counted-incremented (negsuc zero) children c = omega (arith, c)
Counted-incremented (negsuc (suc m)) children c = omega (arith, c)

pub Counted-one_more : (n : ℤ) (children : ℕ) → Counted n 0 children → Counted n 1 (children + 1)
Counted-one_more (pos m) children c = omega (arith, c)
Counted-one_more (negsuc m) children c = omega (arith, c)

pub Counted-counted_down :
    (b : Bool) (n : ℤ) (window children : ℕ)
    → Counted n window (children + (if b then 1 else 0))
    → Counted (counted_down b n) window children
Counted-counted_down true n window children c = Counted-decremented n window children c
Counted-counted_down false n window children c =
    let e : children + 0 ≡ children = omega arith in subst (Counted n window) e c

pub Counted-is_zero :
    (n : ℤ) (window children : ℕ)
    → Counted n window children
    → (is_zero n ≡ true) ↔ (children ≡ window)
Counted-is_zero (pos m) window children c = (
  (λ h. let e : m ≡ 0 = (==_iff _ _).0 h in omega (arith, c)),
  (λ e. (==_iff _ _).1 (omega arith)),
)
Counted-is_zero (negsuc m) window children c =
    ((λ h. absurd (ground arith)), (λ e. absurd (omega arith)))
