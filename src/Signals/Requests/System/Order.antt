-- ===== src/Signals/Requests/System/Order.antt =====
-- The order of the permits in Operating-systems/lab4/zad2/main.c, in every interleaving.
use agh_ust_projects.Prelude.{
  ℕ, zero, suc, ◌≤◌, ◌<◌, ◌≡◌, ◌⊎◌, inl, inr, refl, ap, ◌∙◌, Option, none, some, List, [], ◌∷◌,
  ◌++◌, arith, length, All, get_elem?, All-append, All-set, length-take,
}
use mathlib.Core.Path.{subst}
use agh_ust_projects.Signals.Requests.{
  new_parent, handler_real, assign_pid, store_child, count_child,
}
use agh_ust_projects.Signals.Pending.{post}
use agh_ust_projects.Signals.Requests.Served.{to_visit, Served, new_parent-Served}
use agh_ust_projects.Signals.Requests.Served.Handlers.{
  handler_usr-Served, after_wait-Served, handler_chld-Served, handler_int-Served, kill_child-Served,
}
use agh_ust_projects.Signals.Requests.Frame.{frame-handler_usr, frame-after_wait}
use agh_ust_projects.Signals.Requests.Tally.{
  tally, tally-handler_chld, tally-handler_int, tally-kill_child,
}
use agh_ust_projects.Signals.Requests.System.{
  Child, Stage, System, init, Step, fork, fork_fails, assign, store, store_outside, count,
  take_request, take_early, wait_returns, take_child, take_real, take_interrupt, kill_next,
  kill_ends, request, confirm, return_interval, die, pause, Reach, here, next,
}

-- Only positive numbers come as senders.
abbrev Sender : Option ℕ → Type 0
Sender none = Unit {0}
Sender (some p) = 0 < p

post-Sender : (p : ℕ) (old : Option ℕ) → 0 < p → Sender old → Sender (post p old)
post-Sender p none h v = h
post-Sender p (some q) h v = v

number_positive :
    (j : ℕ) (kids : List Child) {p : ℕ} {stage : Stage}
    → get_elem? kids j ≡ some (record { number = p; stage = stage })
    → All (λ c. 0 < c.number) kids
    → 0 < p
number_positive j [] e v = absurd (ground arith)
number_positive zero (c ∷ kids) e v = ground arith
number_positive (suc j) (c ∷ kids) e v = number_positive j kids e v.1

record Orderly (s : System) : Type 0 where
  served : Served s.parent
  sender : Sender s.usr1
  kids : All (λ c. 0 < c.number) s.kids

Step-Orderly : {span : ℕ} {s t : System} → Step span s t → Orderly s → Orderly t
unfolding assign_pid store_child count_child handler_real
Step-Orderly (fork p live calm still at more fresh) v = record {
  served = v.served;
  sender = v.sender;
  kids = All-append _ _ _ v.kids (omega arith);
}
Step-Orderly (fork_fails live calm still at more) v = record {
  served = v.served;
  sender = v.sender;
  kids = v.kids;
}
Step-Orderly (assign p live calm still at) v = record {
  served = v.served;
  sender = v.sender;
  kids = v.kids;
}
Step-Orderly (store p m live calm still at inside) v = record {
  served = v.served;
  sender = v.sender;
  kids = v.kids;
}
Step-Orderly (store_outside p m live calm still at before) v = record {
  served = v.served;
  sender = v.sender;
  kids = v.kids;
}
Step-Orderly (count live calm still at) v = record {
  served = v.served;
  sender = v.sender;
  kids = v.kids;
}
Step-Orderly (take_early p live early calm e) v = record {
  served = v.served;
  sender = tt;
  kids = v.kids;
}
Step-Orderly {s} (take_request p live ready calm e) v = record {
  served = handler_usr-Served p s.parent (subst Sender e v.sender) calm v.served;
  sender = tt;
  kids = v.kids;
}
Step-Orderly {s} (wait_returns live busy still) v = record {
  served = after_wait-Served s.parent v.served;
  sender = v.sender;
  kids = v.kids;
}
Step-Orderly {s} (take_child x live e) v = record {
  served = handler_chld-Served x s.parent v.served;
  sender = v.sender;
  kids = v.kids;
}
Step-Orderly (take_real number p rest live e) v = record {
  served = v.served;
  sender = v.sender;
  kids = v.kids;
}
Step-Orderly {s} (take_interrupt live ready still) v = record {
  served = handler_int-Served s.parent v.served;
  sender = v.sender;
  kids = v.kids;
}
Step-Orderly {s} (kill_next i place live at stands inside) v = record {
  served = kill_child-Served i s.parent v.served;
  sender = v.sender;
  kids = v.kids;
}
Step-Orderly (kill_ends i place live at stands done) v = record {
  served = v.served;
  sender = v.sender;
  kids = v.kids;
}
Step-Orderly {s} (request j p at) v =
    let known = number_positive j s.kids at v.kids in
    record {
      served = v.served;
      sender = post-Sender p s.usr1 known v.sender;
      kids = All-set _ s.kids j _ v.kids known;
    }
Step-Orderly {s} (confirm j p random at sent) v = record {
  served = v.served;
  sender = v.sender;
  kids = All-set _ s.kids j _ v.kids (number_positive j s.kids at v.kids);
}
Step-Orderly {s} (return_interval j p random at) v = record {
  served = v.served;
  sender = v.sender;
  kids = All-set _ s.kids j _ v.kids (number_positive j s.kids at v.kids);
}
Step-Orderly {s} (die j p stage x at alive is_last small) v = record {
  served = v.served;
  sender = v.sender;
  kids = All-set _ s.kids j _ v.kids (number_positive j s.kids at v.kids);
}
Step-Orderly (pause j p stage x at alive goes_on small) v = record {
  served = v.served;
  sender = v.sender;
  kids = v.kids;
}

Step-needed : {span : ℕ} {s t : System} → Step span s t → t.parent.needed ≡ s.parent.needed
unfolding assign_pid store_child count_child handler_real tally
Step-needed (fork p live calm still at more fresh) = refl
Step-needed (fork_fails live calm still at more) = refl
Step-needed (assign p live calm still at) = refl
Step-needed (store p m live calm still at inside) = refl
Step-needed (store_outside p m live calm still at before) = refl
Step-needed (count live calm still at) = refl
Step-needed (take_early p live early calm e) = refl
Step-needed {s} (take_request p live ready calm e) =
    ap (λ f. f.needed) (frame-handler_usr p s.parent)
Step-needed {s} (wait_returns live busy still) = ap (λ f. f.needed) (frame-after_wait s.parent)
Step-needed {s} (take_child x live e) = ap (λ f. f.needed) (tally-handler_chld x s.parent)
Step-needed (take_real number p rest live e) = refl
Step-needed {s} (kill_next i place live at stands inside) =
    ap (λ f. f.needed) (tally-kill_child i s.parent)
Step-needed (kill_ends i place live at stands done) = refl
Step-needed {s} (take_interrupt live ready still) = ap (λ f. f.needed) (tally-handler_int s.parent)
Step-needed (request j p at) = refl
Step-needed (confirm j p random at sent) = refl
Step-needed (return_interval j p random at) = refl
Step-needed (die j p stage x at alive is_last small) = refl
Step-needed (pause j p stage x at alive goes_on small) = refl

Reach-needed :
    (span all needed : ℕ) {s : System} → Reach span (init all needed) s → s.parent.needed ≡ needed
unfolding new_parent
Reach-needed span all needed here = refl
Reach-needed span all needed (next r st) = Step-needed st ∙ Reach-needed span all needed r

module _ {span all needed : ℕ} (possible : needed ≤ all) where
  Reach-Orderly : {s : System} → Reach span (init all needed) s → Orderly s
  Reach-Orderly here = record {
    served = new_parent-Served all needed possible;
    sender = tt;
    kids = tt;
  }
  Reach-Orderly (next r st) = Step-Orderly st (Reach-Orderly r)

  -- With no more children needed than there are, in every interleaving, and whichever signals are
  -- lost: while fewer requests than needed have been handled, no child has a permit; from then on the
  -- permits given and the entries of the waiting list that the loop has still to visit are the
  -- requests handled, each once and in their order.
  pub permits_in_order :
      {s : System}
      → Reach span (init all needed) s
      → (let p = s.parent in
          ((length p.requests < needed) × (p.permits ≡ []))
          ⊎ ((needed ≤ length p.requests)
              × (p.permits ++ to_visit needed p.wait_list p.place ≡ p.requests)))
  permits_in_order {s} r = elim v.phase [
    | inl g ↦ inl (
      omega (arith, ap length g.listed, length-take s.parent.k s.parent.wait_list, g.few, same),
      g.none_yet,
    )
    | inr g ↦ inr (
      omega (arith, g.heard, same),
      subst
          (λ m.
            s.parent.permits ++ to_visit m s.parent.wait_list s.parent.place ≡ s.parent.requests)
          same g.in_order,
    )
  ]
    where
      v : Served s.parent
      v = (Reach-Orderly r).served

      same : s.parent.needed ≡ needed
      same = Reach-needed span all needed r
