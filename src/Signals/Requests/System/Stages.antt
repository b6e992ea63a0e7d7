-- ===== src/Signals/Requests/System/Stages.antt =====
-- The children of Operating-systems/lab4/zad2/main.c by the stage that each is in.
use agh_ust_projects.Prelude.{
  ℕ, zero, suc, ◌+◌, ◌≡◌, ◌≢◌, refl, some, List, [], ◌∷◌, ◌++◌, arith, length, length-append,
  length-set, get_elem?, set,
}
use agh_ust_projects.Signals.Requests.System.{Child, Stage, working, suspended, answered, ended}

abbrev pub total : (Child → ℕ) → List Child → ℕ
total f [] = 0
total f (c ∷ kids) = f c + total f kids

total-set :
    (f : Child → ℕ) (kids : List Child) (j : ℕ) {c : Child} (new : Child)
    → get_elem? kids j ≡ some c
    → total f (set kids j new) + f c ≡ total f kids + f new
total-set f [] j new e = absurd (ground arith)
total-set f (b ∷ kids) zero {c} new e = let same : f b ≡ f c = ground arith in omega arith
total-set f (b ∷ kids) (suc j) new e = omega (arith, total-set f kids j new e)

total-append :
    (f : Child → ℕ) (kids : List Child) (c : Child) → total f (kids ++ c ∷ []) ≡ total f kids + f c
total-append f [] c = omega arith
total-append f (b ∷ kids) c = omega (arith, total-append f kids c)

abbrev pub lives : Stage → ℕ
lives ended = 0
lives _ = 1

abbrev pub works : Stage → ℕ
works working = 1
works _ = 0

-- The children that have not ended, and those that have sent no request yet.
abbrev pub living : List Child → ℕ
living = total (λ c. lives c.stage)

abbrev pub at_work : List Child → ℕ
at_work = total (λ c. works c.stage)

pub lives_of_alive : (stage : Stage) → stage ≢ ended → lives stage ≡ 1
lives_of_alive working h = refl
lives_of_alive suspended h = refl
lives_of_alive answered h = refl
lives_of_alive ended h = absurd (h refl)

-- One child goes from one stage to another.
pub record Moved (kids new_kids : List Child) (old new : Stage) : Type 0 where
  pub same_length : length new_kids ≡ length kids
  pub lives_moved : living new_kids + lives old ≡ living kids + lives new
  pub works_moved : at_work new_kids + works old ≡ at_work kids + works new

pub set-Moved :
    (kids : List Child) (j p : ℕ) (old new : Stage)
    → get_elem? kids j ≡ some (record { number = p; stage = old })
    → Moved kids (set kids j (record { number = p; stage = new })) old new
set-Moved kids j p old new at =
    let c : Child = record { number = p; stage = new } in
    record {
      same_length = length-set kids j c;
      lives_moved = total-set (λ b. lives b.stage) kids j c at;
      works_moved = total-set (λ b. works b.stage) kids j c at;
    }

pub append_working :
    (kids : List Child) (p : ℕ)
    → (let new_kids = kids ++ record { number = p; stage = working } ∷ [] in
        (length new_kids ≡ length kids + 1)
        × (living new_kids ≡ living kids + 1)
        × (at_work new_kids ≡ at_work kids + 1))
append_working kids p =
    let c : Child = record { number = p; stage = working } in
    (
      length-append kids (c ∷ []),
      total-append (λ b. lives b.stage) kids c,
      total-append (λ b. works b.stage) kids c,
    )
