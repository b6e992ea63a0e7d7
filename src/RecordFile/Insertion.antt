-- ===== src/RecordFile/Insertion.antt =====
-- The specification of the sort of Operating-systems/lab2/zad1/main.c: stable insertion.
-- The sorted part is written backwards, its last record first, as the code meets it.
use agh_ust_projects.Prelude.{
  ℕ, ◌≤◌, ◌≡◌, refl, sym, ap, ◌∙◌, true, false, List, [], ◌∷◌, ◌++◌, arith, if◌then◌else◌, ◌==◌,
  Bool-cases, inl, inr, ◌⊎◌,
}
use mathlib.Core.List.{Perm, perm_middle, reverse, reverse-cons, append-nil, append_assoc}
use mathlib.Core.List.Perm
use agh_ust_projects.RecordFile.{Record, rank, before}

-- Behind all that do not come later.
unfoldable pub insert : Record → List Record → List Record
insert r [] = r ∷ []
insert r (s ∷ ss) = if before r s then s ∷ insert r ss else r ∷ s ∷ ss

unfoldable pub insert_all : List Record → List Record → List Record
insert_all sorted [] = sorted
insert_all sorted (r ∷ rs) = insert_all (insert r sorted) rs

-- Ranks fall along the list and stay at most the bound.
abbrev pub Falls : List Record → Type 0
Falls [] = Unit {0}
Falls (r ∷ []) = Unit {0}
Falls (r ∷ s ∷ ss) = (rank s ≤ rank r) × Falls (s ∷ ss)

-- The records of one rank, in their order.
unfoldable pub of_rank : ℕ → List Record → List Record
of_rank k [] = []
of_rank k (r ∷ rs) = if rank r == k then r ∷ of_rank k rs else of_rank k rs

insert-Falls : (r : Record) (ss : List Record) → Falls ss → Falls (insert r ss)
unfolding insert
insert-Falls r [] h = tt
insert-Falls r (s ∷ []) h = ground arith
insert-Falls r (s ∷ t ∷ ts) h = ground (arith, insert-Falls r (t ∷ ts) h.1)

insert-perm : (r : Record) (ss : List Record) → Perm (insert r ss) (r ∷ ss)
unfolding insert
insert-perm r [] = Perm.refl (r ∷ [])
insert-perm r (s ∷ ss) = elim (Bool-cases (before r s)) [
  | inl e ↦ rw e (Perm.trans (Perm.cons s (insert-perm r ss)) (Perm.swap r s ss))
  | inr e ↦ rw e (Perm.refl (r ∷ s ∷ ss))
]

insert-of_rank :
    (k : ℕ) (r : Record) (ss : List Record) → of_rank k (insert r ss) ≡ of_rank k (r ∷ ss)
unfolding insert of_rank
insert-of_rank k r [] = refl
insert-of_rank k r (s ∷ ss) = ground (arith, insert-of_rank k r ss)

-- What the sort leaves is ordered.
pub insert_all-Falls : (rs ss : List Record) → Falls ss → Falls (insert_all ss rs)
unfolding insert_all
insert_all-Falls [] ss h = h
insert_all-Falls (r ∷ rs) ss h = insert_all-Falls rs (insert r ss) (insert-Falls r ss h)

-- It has the same records.
pub insert_all-perm : (rs ss : List Record) → Perm (insert_all ss rs) (ss ++ rs)
unfolding insert_all
insert_all-perm [] ss = rw append-nil (Perm.refl ss)
insert_all-perm (r ∷ rs) ss =
    Perm.trans (insert_all-perm rs (insert r ss))
      (Perm.trans (Perm.append_right rs (insert-perm r ss)) (Perm.symm (perm_middle ss rs)))

-- Records that compare equal keep their order (backwards, since the sorted part is).
pub insert_all-of_rank :
    (k : ℕ) (rs ss : List Record)
    → of_rank k (insert_all ss rs) ≡ reverse (of_rank k rs) ++ of_rank k ss
unfolding insert_all of_rank
insert_all-of_rank k [] ss = refl
insert_all-of_rank k (r ∷ rs) ss =
    insert_all-of_rank k rs (insert r ss)
    ∙ (ap (λ t. reverse (of_rank k rs) ++ t) (insert-of_rank k r ss)
        ∙ moved (Bool-cases (rank r == k)))
  where
    moved :
        ((rank r == k) ≡ true) ⊎ ((rank r == k) ≡ false)
        → reverse (of_rank k rs) ++ of_rank k (r ∷ ss)
          ≡ reverse (of_rank k (r ∷ rs)) ++ of_rank k ss
    moved (inl e) =
        rw (e, reverse-cons r (of_rank k rs))
          (sym (append_assoc (reverse (of_rank k rs)) (r ∷ []) (of_rank k ss)))
    moved (inr e) = rw e
