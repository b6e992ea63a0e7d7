-- ===== src/Signals/Requests/Frame.antt =====
-- What handler_USR of Operating-systems/lab4/zad2/main.c leaves alone: all but the permits, the waiting
-- list and the lines printed, and the request that it handles.
use agh_ust_projects.Prelude.{
  ℕ, zero, suc, ◌+◌, ◌-◌, ◌≡◌, refl, inl, inr, List, [], ◌∷◌, ◌++◌, Bool, true, false, ◌==◌, leb,
  get_or, Bool-cases,
}
use agh_ust_projects.Prelude.Int.{ℤ}
use agh_ust_projects.Signals.Requests.{
  Place, outside, waiting, looping, Parent, permit, grant_from, enlist, handler_usr, resume,
  after_wait, serve, when_enough,
}

pub record Frame : Type 0 where
  pub all_children : ℕ
  pub needed : ℕ
  pub n : ℤ
  pub children : List ℕ
  pub pid : ℕ
  pub forked : ℕ
  pub kills : List ℕ
  pub is_over : Bool
  pub requests : List ℕ

abbrev pub frame : Parent → Frame
frame s = record {
  all_children = s.all_children;
  needed = s.needed;
  n = s.n;
  children = s.children;
  pid = s.pid;
  forked = s.forked;
  kills = s.kills;
  is_over = s.is_over;
  requests = s.requests;
}

frame-grant_from : (rounds i : ℕ) (s : Parent) → frame (grant_from rounds i s) ≡ frame s
unfolding grant_from permit
frame-grant_from zero i s = refl
frame-grant_from (suc rounds) i s = elim (Bool-cases (get_or s.wait_list i 0 == 0)) [
  | inl empty ↦ rw empty (frame-grant_from rounds (i + 1) s)
  | inr asked ↦ rw asked refl
]

frame-serve : (b : Bool) (p : ℕ) (s : Parent) → frame (serve b p s) ≡ frame s
unfolding permit enlist
frame-serve true p s = refl
frame-serve false p s = enough _ (enlist p s)
  where
    enough : (b : Bool) (t : Parent) → frame (when_enough b t) ≡ frame t
    enough true t = frame-grant_from t.needed 0 t
    enough false t = refl

pub frame-handler_usr :
    (p : ℕ) (s : Parent)
    → frame (handler_usr p s) ≡ record (frame s) { requests = s.requests ++ p ∷ [] }
unfolding handler_usr
frame-handler_usr p s = frame-serve (leb s.needed s.k) p _

frame-resume : (place : Place) (s : Parent) → frame (resume place s) ≡ frame s
frame-resume outside s = refl
frame-resume waiting s = refl
frame-resume (looping i) s = frame-grant_from (s.needed - (i + 1)) (i + 1) s

pub frame-after_wait : (s : Parent) → frame (after_wait s) ≡ frame s
unfolding after_wait
frame-after_wait s = frame-resume s.place s
