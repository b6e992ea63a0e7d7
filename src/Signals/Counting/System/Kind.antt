-- ===== src/Signals/Counting/System/Kind.antt =====
-- The type of sending of Operating-systems/lab4/zad3/main.c, which no step changes.
use agh_ust_projects.Prelude.{ℕ, ◌<◌, ◌≡◌, refl, ◌∙◌}
use agh_ust_projects.Signals.Counting.{send, report, new_process}
use agh_ust_projects.Signals.Counting.Handlers.{parent_takes, parent_interrupted}
use agh_ust_projects.Signals.Counting.System.{
  System, init, Step, Reach, here, next, send_round, suspend, send_last, finish, confirmed_usr1,
  confirmed_min, interrupt, child_usr1, child_min, child_usr2, child_max, cut_usr1, cut_min,
  skip_usr1, skip_min,
}
use agh_ust_projects.Signals.Counting.System.Bounds.{Reach-Bounds}

Step-kind : {s t : System} → Step s t → 0 < s.parent.pid → t.parent.kind ≡ s.parent.kind
unfolding send report
Step-kind {s} (confirmed_usr1 live one) p = rw (parent_takes s.parent p).0 refl
Step-kind {s} (confirmed_min live free one) p = rw (parent_takes s.parent p).1 refl
Step-kind {s} (interrupt live free) p = rw (parent_interrupted s.parent p) refl
Step-kind (send_round at more) p = refl
Step-kind (suspend at) p = refl
Step-kind (send_last at none_left) p = refl
Step-kind (finish at) p = refl
Step-kind (child_usr1 live one) p = refl
Step-kind (child_min live one) p = refl
Step-kind (child_usr2 live one) p = refl
Step-kind (child_max live one) p = refl
Step-kind (cut_usr1 live one last) p = refl
Step-kind (cut_min live one last) p = refl
Step-kind (skip_usr1 printed live one last) p = refl
Step-kind (skip_min printed live one last) p = refl

module _ (l p : ℕ) (forked : 0 < p) where
  pub Reach-kind : (kind : ℕ) {s : System} → Reach (init l kind p) s → s.parent.kind ≡ kind
  unfolding new_process
  Reach-kind kind here = refl
  Reach-kind kind (next r st) =
      Step-kind st (Reach-Bounds l kind p forked r).main.is_parent ∙ Reach-kind kind r
