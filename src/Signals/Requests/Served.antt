-- ===== src/Signals/Requests/Served.antt =====
-- What the parent of Operating-systems/lab4/zad2/main.c keeps of its requests and permits, and the loop
-- over the waiting list.
pub mod Handlers
use agh_ust_projects.Prelude.{
  ℕ, zero, suc, ◌+◌, ◌-◌, ◌≤◌, ◌<◌, ◌≡◌, ◌≢◌, ◌⊎◌, inl, inr, refl, sym, ap, ◌∙◌, Option, none, some,
  List, [], ◌∷◌, ◌++◌, Bool, true, false, ◌==◌, leb, arith, length, take, drop, get_or, set, All,
  get_elem?, length-set, Bool-cases, replicate, length-append, length-replicate, All-append,
  get_or-take, ==_iff, length-take, take-set_add_one,
}
use mathlib.Core.Path.{subst}
use mathlib.Core.List.{append_assoc, append-nil}
use agh_ust_projects.Signals.Requests.{
  Place, outside, waiting, looping, Parent, new_parent, grant_from, permit, enlist, handler_usr,
  after_wait, resume, handler_chld, handler_real, handler_int, Info, report, leave_if, is_end,
}

-- The part of the waiting list that the loop of handler_USR has still to visit.
abbrev pub to_visit : ℕ → List ℕ → Place → List ℕ
to_visit needed wait_list (looping i) = drop (i + 1) (take needed wait_list)
to_visit needed wait_list _ = []

-- The index of that loop.
abbrev pub Indexed : ℕ → Place → Type 0
Indexed needed (looping i) = i < needed
Indexed needed _ = Unit {0}

abbrev pub Positive : List ℕ → Type 0
Positive = All (λ p. 0 < p)

pub record Gathering (needed k : ℕ) (wait_list : List ℕ) (place : Place) (requests permits : List ℕ)
    : Type 0 where
  pub few : k < needed
  pub calm : place ≡ outside
  pub listed : requests ≡ take k wait_list
  pub none_yet : permits ≡ []

pub record Granting (needed k : ℕ) (wait_list : List ℕ) (place : Place) (requests permits : List ℕ)
    : Type 0 where
  pub enough : k ≡ needed
  pub in_order : permits ++ to_visit needed wait_list place ≡ requests
  pub heard : needed ≤ length requests
  pub indexed : Indexed needed place

pub record ServedAt (needed k : ℕ) (wait_list : List ℕ) (place : Place) (requests permits : List ℕ)
    : Type 0 where
  pub fits : needed ≤ length wait_list
  pub positive : Positive (take k wait_list)
  pub phase :
      Gathering needed k wait_list place requests permits
      ⊎ Granting needed k wait_list place requests permits

abbrev pub Served : Parent → Type 0
Served s = ServedAt s.needed s.k s.wait_list s.place s.requests s.permits

drop_get : (i : ℕ) (xs : List ℕ) → i < length xs → drop i xs ≡ get_or xs i 0 ∷ drop (suc i) xs
drop_get i [] h = elim h [ ]
drop_get zero (x ∷ xs) h = refl
drop_get (suc i) (x ∷ xs) h = drop_get i xs (omega arith)

Positive-get_or : (i : ℕ) (xs : List ℕ) → i < length xs → Positive xs → 0 < get_or xs i 0
Positive-get_or i [] h v = elim h [ ]
Positive-get_or zero (x ∷ xs) h v = v.0
Positive-get_or (suc i) (x ∷ xs) h v = Positive-get_or i xs (omega arith) v.1

drop_all : (i : ℕ) (xs : List ℕ) → length xs ≤ i → drop i xs ≡ []
drop_all zero [] h = refl
drop_all zero (x ∷ xs) h = absurd (omega arith)
drop_all (suc i) [] h = refl
drop_all (suc i) (x ∷ xs) h = drop_all i xs (omega arith)

-- The loop visits what is left of the waiting list: it stops at the first entry, or is through.
pub grant_from-Served :
    (rounds i : ℕ) (s : Parent)
    → i + rounds ≡ s.needed
    → s.k ≡ s.needed
    → s.needed ≤ length s.wait_list
    → Positive (take s.k s.wait_list)
    → s.permits ++ drop i (take s.needed s.wait_list) ≡ s.requests
    → s.needed ≤ length s.requests
    → Served (grant_from rounds i s)
unfolding grant_from permit
grant_from-Served zero i s e k fits positive rest heard = record {
  fits = fits;
  positive = positive;
  phase = inr (record {
    enough = k;
    in_order = ap (λ l. s.permits ++ l) through ∙ rest;
    heard = heard;
    indexed = tt;
  });
}
  where
    through : [] ≡ drop i (take s.needed s.wait_list)
    through = sym (drop_all i _ (omega (arith, length-take s.needed s.wait_list)))
grant_from-Served (suc rounds) i s e k fits positive rest heard = rw nonzero (record {
  fits = fits;
  positive = positive;
  phase = inr (record {
    enough = k;
    in_order =
        append_assoc s.permits (get_or s.wait_list i 0 ∷ []) _
        ∙ ap (λ l. s.permits ++ l) split
        ∙ rest;
    heard = heard;
    indexed = omega arith;
  });
})
  where
    list : List ℕ
    list = take s.needed s.wait_list

    inside : i < length list
    inside = omega (arith, length-take s.needed s.wait_list)

    same : get_or list i 0 ≡ get_or s.wait_list i 0
    same = get_or-take s.needed i s.wait_list 0 (omega arith)

    positive_list : Positive list
    positive_list = subst (λ m. Positive (take m s.wait_list)) k positive

    nonzero : (get_or s.wait_list i 0 == 0) ≡ false
    nonzero = ground (arith, same, Positive-get_or i list inside positive_list)

    split : get_or s.wait_list i 0 ∷ drop (i + 1) list ≡ drop i list
    split =
        let e : i + 1 ≡ suc i = omega arith in
        rw e ((λ t. (sym same) t ∷ drop (suc i) list) ∙ sym (drop_get i list inside))

pub new_parent-Served : (all needed : ℕ) → needed ≤ all → Served (new_parent all needed)
unfolding new_parent
new_parent-Served all zero h = record {
  fits = omega arith;
  positive = tt;
  phase = inr (record { enough = refl; in_order = refl; heard = omega arith; indexed = tt });
}
new_parent-Served all (suc needed) h = record {
  fits = omega (arith, length-replicate {A = ℕ} all 0);
  positive = tt;
  phase = inl (record { few = omega arith; calm = refl; listed = refl; none_yet = refl });
}
