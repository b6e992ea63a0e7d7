-- ===== src/Signals/Requests/System/Table.antt =====
-- The table of children of Operating-systems/lab4/zad2/main.c, which a SIGCHLD leaves as it is, and a
-- round of killEmAll on it.
use agh_ust_projects.Prelude.{
  ℕ, zero, suc, ◌+◌, ◌<◌, ◌≡◌, ◌⊎◌, inl, inr, refl, ap, sym, ◌∙◌, Option, none, some, List, [], ◌∷◌,
  ◌++◌, Bool, true, false, ◌==◌, arith, drop, get_or, Bool-cases, All, if◌then◌else◌, length,
}
use mathlib.Core.Path.{subst}
use mathlib.Core.List.{append_assoc}
use agh_ust_projects.Signals.Pending.{post}
use agh_ust_projects.Signals.Requests.{
  Place, Parent, Info, is_end, handler_chld, kill_child, report, leave_if, remove_child,
}
use agh_ust_projects.Signals.Requests.Frame.{Frame, frame}
use agh_ust_projects.Signals.Requests.System.{
  Round, before_fork, returned, assigned, stored, Interrupt, quiet, killing,
}

-- The numbers in the entries that are not free.
abbrev one : ℕ → List ℕ
one c = if c == 0 then [] else c ∷ []

abbrev pub filled : List ℕ → List ℕ
filled [] = []
filled (c ∷ table) = one c ++ filled table

filled-drop :
    (i : ℕ) (table : List ℕ)
    → filled (drop i table) ≡ one (get_or table i 0) ++ filled (drop (suc i) table)
filled-drop zero [] = refl
filled-drop (suc i) [] = refl
filled-drop zero (c ∷ table) = refl
filled-drop (suc i) (c ∷ table) = filled-drop i table

-- An entry of the table: free, or the number of a child.
abbrev pub Entry : ℕ → Type 0
Entry c = (c ≡ 0) ⊎ (255 < c)

abbrev pub Small : Option Info → Type 0
Small none = Unit {0}
Small (some x) = x.si_status < 256

-- The number that main is about to store.
abbrev pub Fresh : Round → Type 0
Fresh before_fork = Unit {0}
Fresh (returned p) = 255 < p
Fresh (assigned p) = 255 < p
Fresh stored = Unit {0}

-- What has been killed, and what is still to be killed, make the table.
abbrev pub Visited : Interrupt → List ℕ → List ℕ → Type 0
Visited quiet table kills = kills ≡ []
Visited (killing i place) table kills = kills ++ filled (drop i table) ≡ filled table

pub record TableAt (f : Frame) (i : Interrupt) : Type 0 where
  pub entries : All Entry f.children
  pub whole : length f.children ≡ f.all_children
  pub visited : Visited i f.children f.kills

-- No child has such a number, so that none is taken out.
remove_child-absent :
    (status : ℕ) (table : List ℕ)
    → status < 256
    → All Entry table
    → remove_child status table ≡ table
unfolding remove_child
remove_child-absent status [] small v = refl
remove_child-absent status (c ∷ table) small v = elim (Bool-cases (c == status)) [
  | inl same ↦ rw same (let e : 0 ≡ c = ground (arith, v.0) in (λ t. e t ∷ table))
  | inr differs ↦ rw differs (ap (λ l. c ∷ l) (remove_child-absent status table small v.1))
]

-- A SIGCHLD leaves the table as it is, since it is searched for the status.
pub children-handler_chld :
    (x : Info) (s : Parent)
    → x.si_status < 256
    → All Entry s.children
    → (handler_chld x s).children ≡ s.children
unfolding handler_chld
children-handler_chld x s small v =
    left _ (report (is_end x.code) x s) (subst (All Entry) (sym (told _)) v) ∙ told _
  where
    told : (b : Bool) → (report b x s).children ≡ s.children
    told true = remove_child-absent x.si_status s.children small v
    told false = refl

    left :
        (b : Bool) (t : Parent)
        → All Entry t.children
        → (leave_if b x.si_status t).children ≡ t.children
    left true t w = refl
    left false t w = remove_child-absent x.si_status t.children small w

pub kills-handler_chld : (x : Info) (s : Parent) → (handler_chld x s).kills ≡ s.kills
unfolding handler_chld
kills-handler_chld x s = left _ (report (is_end x.code) x s) ∙ told _
  where
    told : (b : Bool) → (report b x s).kills ≡ s.kills
    told true = refl
    told false = refl

    left : (b : Bool) (t : Parent) → (leave_if b x.si_status t).kills ≡ t.kills
    left true t = refl
    left false t = refl

pub all_children-handler_chld :
    (x : Info) (s : Parent) → (handler_chld x s).all_children ≡ s.all_children
unfolding handler_chld
all_children-handler_chld x s = left _ (report (is_end x.code) x s) ∙ told _
  where
    told : (b : Bool) → (report b x s).all_children ≡ s.all_children
    told true = refl
    told false = refl

    left : (b : Bool) (t : Parent) → (leave_if b x.si_status t).all_children ≡ t.all_children
    left true t = refl
    left false t = refl

pub post-Small : (x : Info) (old : Option Info) → x.si_status < 256 → Small old → Small (post x old)
post-Small x none h v = h
post-Small x (some y) h v = v

pub same_table :
    {f g : Frame} {i : Interrupt}
    → g.children ≡ f.children
    → g.all_children ≡ f.all_children
    → g.kills ≡ f.kills
    → TableAt f i
    → TableAt g i
same_table {f} {g} {i} c a k v = record {
  entries = subst (All Entry) (sym c) v.entries;
  whole = ap (λ l. length l) c ∙ v.whole ∙ sym a;
  visited =
      subst (λ l. Visited i l g.kills) (sym c)
        (subst (λ l. Visited i f.children l) (sym k) v.visited);
}

one_free : (c : ℕ) → (c == 0) ≡ true → one c ≡ []
one_free c e = rw e refl

one_used : (c : ℕ) → (c == 0) ≡ false → one c ≡ c ∷ []
one_used c e = rw e refl

pub kill_child-TableAt :
    (i : ℕ) (place : Place) (s : Parent)
    → TableAt (frame s) (killing i place)
    → TableAt (frame (kill_child i s)) (killing (i + 1) place)
unfolding kill_child
kill_child-TableAt i place s v = elim (Bool-cases (get_or s.children i 0 == 0)) [
  | inl empty ↦ rw empty (record {
    entries = v.entries;
    whole = v.whole;
    visited =
        ap (λ l. s.kills ++ l) (sym (filled_at ∙ ap (λ l. l ++ ahead) (one_free _ empty)))
        ∙ v.visited;
  })
  | inr used ↦ rw used (record {
    entries = v.entries;
    whole = v.whole;
    visited =
        append_assoc s.kills (get_or s.children i 0 ∷ []) ahead
        ∙ ap (λ l. s.kills ++ l) (sym (filled_at ∙ ap (λ l. l ++ ahead) (one_used _ used)))
        ∙ v.visited;
  })
]
  where
    ahead : List ℕ
    ahead = filled (drop (i + 1) s.children)

    filled_at : filled (drop i s.children) ≡ one (get_or s.children i 0) ++ ahead
    filled_at =
        let e : suc i ≡ i + 1 = omega arith in
        filled-drop i s.children
        ∙ ap (λ m. one (get_or s.children i 0) ++ filled (drop m s.children)) e
