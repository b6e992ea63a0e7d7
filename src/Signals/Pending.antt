-- ===== src/Signals/Pending.antt =====
-- Standard signals of a process (Operating-systems/lab4): the kernel keeps at most one of each number
-- for a process that has not taken it yet.
use agh_ust_projects.Prelude.{ℕ, Option, none, some}

module _ {ℓ} {A : Type ℓ} where
  -- A signal sent while one of its number is pending is lost.
  abbrev pub post : A → Option A → Option A
  post x none = some x
  post x (some y) = some y

  abbrev pub lost : Option A → ℕ
  lost none = 0
  lost (some y) = 1

  abbrev pub pending : Option A → ℕ
  pending none = 0
  pending (some y) = 1
