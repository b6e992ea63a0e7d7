-- ===== src/Signals/Requests/Served/Handlers.antt =====
-- The handlers of Operating-systems/lab4/zad2/main.c keep the order of requests and permits.
use agh_ust_projects.Prelude.{
  ℕ, ◌+◌, ◌-◌, ◌≤◌, ◌<◌, ◌≡◌, ◌≢◌, inl, inr, refl, sym, ap, ◌∙◌, List, [], ◌∷◌, ◌++◌, Bool, true,
  false, ◌==◌, leb, arith, length, take, set, length-set, Bool-cases, get_or, length-append,
  All-append, ==_iff, length-take, take-set_add_one,
}
use mathlib.Core.Path.{subst}
use mathlib.Core.List.{append-nil}
use agh_ust_projects.Signals.Requests.{
  Place, outside, waiting, looping, Parent, permit, enlist, handler_usr, after_wait, resume,
  handler_chld, handler_int, kill_child, Info, report, leave_if, is_end,
}
use agh_ust_projects.Signals.Requests.Served.{
  to_visit, Indexed, Positive, Gathering, Granting, Served, grant_from-Served,
}

to_visit_outside :
    (needed : ℕ) (wait_list : List ℕ) (place : Place)
    → place ≡ outside
    → to_visit needed wait_list place ≡ []
to_visit_outside needed wait_list place e = ap (to_visit needed wait_list) e

-- A request while permits are granted: it is granted at once.
serve_now-Served :
    (p : ℕ) (s : Parent)
    → s.place ≡ outside
    → Served s
    → Granting s.needed s.k s.wait_list s.place s.requests s.permits
    → Served (handler_usr p s)
unfolding handler_usr permit
serve_now-Served p s calm v g = rw enough (record {
  fits = v.fits;
  positive = v.positive;
  phase = inr (record {
    enough = g.enough;
    in_order = append-nil _ ∙ ap (λ l. l ++ p ∷ []) all_permits;
    heard = omega (arith, length-append s.requests (p ∷ []), g.heard);
    indexed = tt;
  });
})
  where
    enough : leb s.needed s.k ≡ true
    enough = ground (arith, g.enough)

    all_permits : s.permits ≡ s.requests
    all_permits =
        sym (append-nil s.permits)
        ∙ ap (λ l. s.permits ++ l) (sym (to_visit_outside s.needed s.wait_list s.place calm))
        ∙ g.in_order

-- A request before: it is put on the list, and the last one that is needed starts the loop.
serve_later-Served :
    (p : ℕ) (s : Parent)
    → 0 < p
    → s.place ≡ outside
    → Served s
    → Gathering s.needed s.k s.wait_list s.place s.requests s.permits
    → Served (handler_usr p s)
unfolding handler_usr enlist
serve_later-Served p s nonzero calm v g = rw few (elim (Bool-cases (s.k + 1 == s.needed)) [
  | inl full ↦ rw full (
      grant_from-Served s.needed 0 _ (omega arith) (ground arith) fits positive
        (all_listed ((==_iff _ _).0 full)) (heard ((==_iff _ _).0 full)))
  | inr more ↦ rw more (record {
    fits = fits;
    positive = positive;
    phase = inl (record {
      few = ground (arith, g.few);
      calm = calm;
      listed = listed;
      none_yet = g.none_yet;
    });
  })
])
  where
    few : leb s.needed s.k ≡ false
    few = ground (arith, g.few)

    listed_last : take (s.k + 1) (set s.wait_list s.k p) ≡ take s.k s.wait_list ++ p ∷ []
    listed_last = take-set_add_one s.k s.wait_list p (omega (arith, g.few, v.fits))

    listed : s.requests ++ p ∷ [] ≡ take (s.k + 1) (set s.wait_list s.k p)
    listed = ap (λ l. l ++ p ∷ []) g.listed ∙ sym listed_last

    fits : s.needed ≤ length (set s.wait_list s.k p)
    fits = omega (arith, v.fits, length-set s.wait_list s.k p)

    positive : Positive (take (s.k + 1) (set s.wait_list s.k p))
    positive = subst Positive (sym listed_last) (All-append _ _ p v.positive nonzero)

    heard : s.k + 1 ≡ s.needed → s.needed ≤ length (s.requests ++ p ∷ [])
    heard full =
        omega (arith, ap length listed, length-take (s.k + 1) (set s.wait_list s.k p), fits)

    all_listed :
        s.k + 1 ≡ s.needed
        → s.permits ++ take s.needed (set s.wait_list s.k p) ≡ s.requests ++ p ∷ []
    all_listed full = (λ t. g.none_yet t ++ take (sym full t) (set s.wait_list s.k p)) ∙ sym listed

pub handler_usr-Served :
    (p : ℕ) (s : Parent) → 0 < p → s.place ≡ outside → Served s → Served (handler_usr p s)
handler_usr-Served p s nonzero calm v = elim v.phase [
  | inl g ↦ serve_later-Served p s nonzero calm v g
  | inr g ↦ serve_now-Served p s calm v g
]

looping_ne_outside : {i : ℕ} → looping i ≢ outside
looping_ne_outside e = cc

waiting_ne_outside : waiting ≢ outside
waiting_ne_outside e = cc

resume-Served : (place : Place) (s : Parent) → s.place ≡ place → Served s → Served (resume place s)
resume-Served outside s e v = v
resume-Served waiting s e v = elim v.phase [
  | inl g ↦ absurd (waiting_ne_outside (sym e ∙ g.calm))
  | inr g ↦ record {
    fits = v.fits;
    positive = v.positive;
    phase = inr (record {
      enough = g.enough;
      in_order = ap (λ q. s.permits ++ to_visit s.needed s.wait_list q) (sym e) ∙ g.in_order;
      heard = g.heard;
      indexed = tt;
    });
  }
]
resume-Served (looping i) s e v = elim v.phase [
  | inl g ↦ absurd (looping_ne_outside (sym e ∙ g.calm))
  | inr g ↦
      let inside : i < s.needed = subst (Indexed s.needed) e g.indexed in
      grant_from-Served (s.needed - (i + 1)) (i + 1) s (omega arith) g.enough v.fits v.positive
        (ap (λ q. s.permits ++ to_visit s.needed s.wait_list q) (sym e) ∙ g.in_order) g.heard
]

-- The `waitpid` of handler_USR returns.
pub after_wait-Served : (s : Parent) → Served s → Served (after_wait s)
unfolding after_wait
after_wait-Served s v = resume-Served s.place s refl v

pub handler_chld-Served : (x : Info) (s : Parent) → Served s → Served (handler_chld x s)
unfolding handler_chld
handler_chld-Served x s v = leave_if-Served _ x.si_status _ (report-Served (is_end x.code) x s v)
  where
    report-Served : (b : Bool) (x : Info) (s : Parent) → Served s → Served (report b x s)
    report-Served true x s v = v
    report-Served false x s v = v

    leave_if-Served : (b : Bool) (status : ℕ) (s : Parent) → Served s → Served (leave_if b status s)
    leave_if-Served true status s v = v
    leave_if-Served false status s v = v

pub handler_int-Served : (s : Parent) → Served s → Served (handler_int s)
unfolding handler_int
handler_int-Served s v = record { fits = v.fits; positive = v.positive; phase = v.phase }

pub kill_child-Served : (i : ℕ) (s : Parent) → Served s → Served (kill_child i s)
unfolding kill_child
kill_child-Served i s v = elim (Bool-cases (get_or s.children i 0 == 0)) [
  | inl empty ↦ rw empty v
  | inr filled ↦ rw filled (record { fits = v.fits; positive = v.positive; phase = v.phase })
]
