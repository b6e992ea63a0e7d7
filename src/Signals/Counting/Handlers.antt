-- ===== src/Signals/Counting/Handlers.antt =====
-- What the handlers of Operating-systems/lab4/zad3/main.c do in each of the two processes, and to the
-- signals that are pending.
use agh_ust_projects.Prelude.{
  ℕ, ◌+◌, ◌≤◌, ◌<◌, ◌≡◌, refl, true, false, inl, inr, ◌==◌, arith, Bool-cases,
}
use agh_ust_projects.Signals.Counting.{
  usr1, rt_min, Pending, raise, Process, handler_int, last_on_int, handler_usr1, handler_realmin,
  round_signal, last_signal, leave_on_int, count_signal, count_confirmation,
}

-- The signals of rounds, or their confirmations, that are pending.
abbrev pub waiting : Pending → ℕ
waiting p = p.usr1 + p.rt_min

pub waiting-round : (kind : ℕ) (p : Pending) → waiting (raise (round_signal kind) p) ≤ waiting p + 1
waiting-round kind p = elim (Bool-cases (kind == 3)) [
  | inl queued ↦ rw queued (omega arith)
  | inr plain ↦ rw plain (omega arith)
]

pub waiting-last : (kind : ℕ) (p : Pending) → waiting (raise (last_signal kind) p) ≡ waiting p
waiting-last kind p = elim (Bool-cases (kind == 3)) [
  | inl queued ↦ rw queued refl
  | inr plain ↦ rw plain refl
]

pub waiting-int : (kind : ℕ) (p : Pending) → waiting (raise (last_on_int kind) p) ≡ waiting p
waiting-int kind p = elim (Bool-cases (kind == 1)) [
  | inl plain ↦ rw plain refl
  | inr other ↦ rw other refl
]

-- `pid` tells the two processes apart.
module _ (s : Process) where
  pub child_takes :
      s.pid ≡ 0
      → (handler_usr1 s ≡ count_signal usr1 s) × (handler_realmin s ≡ count_signal rt_min s)
  unfolding handler_usr1 handler_realmin
  child_takes e = let child : (s.pid == 0) ≡ true = ground arith in (rw child refl, rw child refl)

  pub parent_takes :
      0 < s.pid
      → (handler_usr1 s ≡ count_confirmation s) × (handler_realmin s ≡ count_confirmation s)
  unfolding handler_usr1 handler_realmin
  parent_takes h =
      let parent : (s.pid == 0) ≡ false = ground arith in (rw parent refl, rw parent refl)

  pub parent_interrupted : 0 < s.pid → handler_int s ≡ leave_on_int s
  unfolding handler_int
  parent_interrupted h = let parent : (s.pid == 0) ≡ false = ground arith in rw parent refl
