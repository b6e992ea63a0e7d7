-- ===== src/Signals/Requests/Tally.antt =====
-- The counts that the parent of Operating-systems/lab4/zad2/main.c keeps, and what the handlers of
-- SIGCHLD and SIGINT do to them.
use agh_ust_projects.Prelude.{
  ℕ, ◌≡◌, refl, ap, inl, inr, ◌∙◌, List, Bool, true, false, ◌==◌, Bool-cases, get_or,
}
use agh_ust_projects.Prelude.Int.{ℤ}
use agh_ust_projects.Signals.Requests.{
  Parent, Info, is_end, handler_chld, handler_int, kill_child, report, leave_if, decremented,
  is_zero,
}
use agh_ust_projects.Signals.Requests.Frame.{Frame, frame}

-- The counts of the parent.
pub record Tally : Type 0 where
  pub all_children : ℕ
  pub n : ℤ
  pub forked : ℕ
  pub requests : List ℕ
  pub pid : ℕ
  pub needed : ℕ

unfoldable pub tally : Frame → Tally
tally f = record {
  all_children = f.all_children;
  n = f.n;
  forked = f.forked;
  requests = f.requests;
  pid = f.pid;
  needed = f.needed;
}

-- One end less to count, or none.
abbrev pub counted_down : Bool → ℤ → ℤ
counted_down true n = decremented n
counted_down false n = n

tally-report :
    (b : Bool) (x : Info) (s : Parent)
    → tally (frame (report b x s)) ≡ record (tally (frame s)) { n = counted_down b s.n }
unfolding tally
tally-report true x s = refl
tally-report false x s = refl

tally-leave_if :
    (b : Bool) (status : ℕ) (s : Parent) → tally (frame (leave_if b status s)) ≡ tally (frame s)
unfolding tally
tally-leave_if true status s = refl
tally-leave_if false status s = refl

pub tally-handler_chld :
    (x : Info) (s : Parent)
    → tally (frame (handler_chld x s))
      ≡ record (tally (frame s)) { n = counted_down (is_end x.code) s.n }
unfolding handler_chld
tally-handler_chld x s = tally-leave_if _ x.si_status _ ∙ tally-report (is_end x.code) x s

pub tally-handler_int : (s : Parent) → tally (frame (handler_int s)) ≡ tally (frame s)
unfolding handler_int tally
tally-handler_int s = refl

pub tally-kill_child : (i : ℕ) (s : Parent) → tally (frame (kill_child i s)) ≡ tally (frame s)
unfolding kill_child tally
tally-kill_child i s = elim (Bool-cases (get_or s.children i 0 == 0)) [
  | inl empty ↦ rw empty refl
  | inr filled ↦ rw filled refl
]

-- The parent leaves when its count is down to nothing.
pub leaves-handler_chld :
    (x : Info) (s : Parent)
    → s.is_over ≡ false
    → (handler_chld x s).is_over ≡ is_zero (counted_down (is_end x.code) s.n)
unfolding handler_chld tally
leaves-handler_chld x s live =
    tested _ x.si_status _ (running (is_end x.code))
    ∙ ap (λ f. is_zero f.n) (tally-report (is_end x.code) x s)
  where
    running : (b : Bool) → (report b x s).is_over ≡ false
    running true = live
    running false = live

    tested :
        (b : Bool) (status : ℕ) (t : Parent) → t.is_over ≡ false → (leave_if b status t).is_over ≡ b
    tested true status t h = refl
    tested false status t h = h
