-- ===== src/Signals/Counting/System/Exact.antt =====
-- `Type` 2 of Operating-systems/lab4/zad3/main.c, which waits for confirmations, in every interleaving.
use agh_ust_projects.Prelude.{
  ℕ, ◌+◌, ◌≤◌, ◌<◌, ◌≡◌, ◌≢◌, refl, ap, sym, ◌∙◌, ◌⊎◌, inl, inr, arith, [], ◌∷◌, ◌++◌,
}
use mathlib.Core.Path.{subst}
use agh_ust_projects.Signals.Counting.{
  Pending, handler_usr2, handler_realmax, send, report, new_process, summary,
}
use agh_ust_projects.Signals.Counting.Handlers.{child_takes, parent_takes}
use agh_ust_projects.Signals.Counting.System.{
  Place, sending, before_wait, awaiting, ending, finished, interrupted, System, init, wake,
  cut_short, cut_early, Step, Reach, here, next, send_round, suspend, send_last, finish,
  confirmed_usr1, confirmed_min, interrupt, child_usr1, child_min, child_usr2, child_max, cut_usr1,
  cut_min, skip_usr1, skip_min,
}
use agh_ust_projects.Signals.Counting.System.Bounds.{last_least, last_most, Bounds, Reach-Bounds}
use agh_ust_projects.Signals.Counting.System.Kind.{Reach-kind}

-- The signals and confirmations that may be on their way, for `Type` 2.
abbrev on_way : Place → ℕ
on_way before_wait = 1
on_way awaiting = 1
on_way interrupted = 1
on_way _ = 0

on_way-last : (place : Place) → place ≢ interrupted → on_way place + last_least place ≤ 1
on_way-last sending h = omega arith
on_way-last before_wait h = omega arith
on_way-last awaiting h = omega arith
on_way-last ending h = omega arith
on_way-last finished h = omega arith
on_way-last interrupted h = absurd (h refl)

record LockAt (l : ℕ) (place : Place) (to_send received confirmed : ℕ)
    (at_child at_parent : Pending) : Type 0 where
  rounds : received + at_child.usr1 + to_send ≡ l
  answers : confirmed + at_parent.usr1 ≡ received
  one_on_way : at_child.usr1 + at_parent.usr1 ≤ on_way place
  no_min : at_child.rt_min + at_parent.rt_min ≡ 0
  last_late : at_child.usr2 + at_child.rt_max ≤ last_least place
  all_sent : to_send ≡ 0 ⊎ (last_least place ≡ 0)

abbrev Lock : ℕ → System → Type 0
Lock l s =
    LockAt l s.place s.to_send s.child.received_by_child s.parent.received_from_child s.at_child
      s.at_parent

wake-on_way : (place : Place) → on_way (wake place) ≤ on_way place
wake-on_way sending = omega arith
wake-on_way before_wait = omega arith
wake-on_way awaiting = omega arith
wake-on_way ending = omega arith
wake-on_way finished = omega arith
wake-on_way interrupted = omega arith

wake-last : (place : Place) → last_least (wake place) ≡ last_least place
wake-last sending = refl
wake-last before_wait = refl
wake-last awaiting = refl
wake-last ending = refl
wake-last finished = refl
wake-last interrupted = refl

wake_ne : (place : Place) → wake place ≢ interrupted → place ≢ interrupted
wake_ne place h e = h (ap wake e)

before_ne : {place other : Place} → place ≡ other → other ≢ interrupted → place ≢ interrupted
before_ne e h i = h (sym e ∙ i)

all_sent_at_end :
    {place : Place} {n : ℕ} → place ≡ ending → (n ≡ 0) ⊎ (last_least place ≡ 0) → n ≡ 0
all_sent_at_end e (inl done) = done
all_sent_at_end e (inr early) = absurd (omega (arith, ap last_least e))

Step-Lock :
    {l : ℕ} {s t : System}
    → Step s t
    → s.parent.kind ≡ 2
    → Bounds l s
    → (s.place ≢ interrupted → Lock l s)
    → t.place ≢ interrupted
    → Lock l t
unfolding send report handler_usr2 handler_realmax cut_short cut_early
Step-Lock {s} (send_round at more) k b v h =
    let w = v (before_ne at (λ e. cc)) in
    rw k (record {
      rounds = omega (arith, w, ap on_way at, ap last_least at);
      answers = omega (arith, w, ap on_way at, ap last_least at);
      one_on_way = omega (arith, w, ap on_way at, ap last_least at);
      no_min = omega (arith, w, ap on_way at, ap last_least at);
      last_late = omega (arith, w, ap on_way at, ap last_least at);
      all_sent = inr refl;
    })
Step-Lock {s} (suspend at) k b v h =
    let w = v (before_ne at (λ e. cc)) in
    (record {
      rounds = omega (arith, w, ap on_way at, ap last_least at);
      answers = omega (arith, w, ap on_way at, ap last_least at);
      one_on_way = omega (arith, w, ap on_way at, ap last_least at);
      no_min = omega (arith, w, ap on_way at, ap last_least at);
      last_late = omega (arith, w, ap on_way at, ap last_least at);
      all_sent = inr refl;
    })
Step-Lock {s} (send_last at none_left) k b v h =
    let w = v (before_ne at (λ e. cc)) in
    rw k (record {
      rounds = omega (arith, w, ap on_way at, ap last_least at);
      answers = omega (arith, w, ap on_way at, ap last_least at);
      one_on_way = omega (arith, w, ap on_way at, ap last_least at);
      no_min = omega (arith, w, ap on_way at, ap last_least at);
      last_late = omega (arith, w, ap on_way at, ap last_least at);
      all_sent = inl none_left;
    })
Step-Lock {s} (finish at) k b v h =
    let w = v (before_ne at (λ e. cc)) in
    (record {
      rounds = omega (arith, w, ap on_way at, ap last_least at);
      answers = omega (arith, w, ap on_way at, ap last_least at);
      one_on_way = omega (arith, w, ap on_way at, ap last_least at);
      no_min = omega (arith, w, ap on_way at, ap last_least at);
      last_late = omega (arith, w, ap on_way at, ap last_least at);
      all_sent = inl (all_sent_at_end at w.all_sent);
    })
Step-Lock {s} (confirmed_usr1 live one) k b v h =
    let w = v (wake_ne s.place h) in
    rw (parent_takes s.parent b.main.is_parent).0 (record {
      rounds = omega (arith, w, wake-last s.place, on_way-last s.place (wake_ne s.place h));
      answers = omega (arith, w, wake-last s.place, on_way-last s.place (wake_ne s.place h));
      one_on_way = omega (arith, w, wake-last s.place, on_way-last s.place (wake_ne s.place h));
      no_min = omega (arith, w, wake-last s.place, on_way-last s.place (wake_ne s.place h));
      last_late = omega (arith, w, wake-last s.place, on_way-last s.place (wake_ne s.place h));
      all_sent = subst (λ m. (s.to_send ≡ 0) ⊎ (m ≡ 0)) (sym (wake-last s.place)) w.all_sent;
    })
Step-Lock {s} (confirmed_min live free one) k b v h =
    let w = v h in absurd (omega (arith, w.no_min))
Step-Lock (interrupt live free) k b v h = absurd (h refl)
Step-Lock {s} (child_usr1 live one) k b v h =
    let w = v h in
    rw (child_takes s.child b.child_pid).0 (record {
      rounds = omega (arith, w, on_way-last s.place h);
      answers = omega (arith, w, on_way-last s.place h);
      one_on_way = omega (arith, w, on_way-last s.place h);
      no_min = omega (arith, w, on_way-last s.place h);
      last_late = omega (arith, w, on_way-last s.place h);
      all_sent = w.all_sent;
    })
Step-Lock {s} (child_min live one) k b v h = let w = v h in absurd (omega (arith, w.no_min))
Step-Lock (child_usr2 live one) k b v h =
    let w = v h in
    record {
      rounds = w.rounds;
      answers = w.answers;
      one_on_way = w.one_on_way;
      no_min = w.no_min;
      last_late = omega (arith, w.last_late);
      all_sent = w.all_sent;
    }
Step-Lock (child_max live one) k b v h =
    let w = v h in
    record {
      rounds = w.rounds;
      answers = w.answers;
      one_on_way = w.one_on_way;
      no_min = w.no_min;
      last_late = omega (arith, w.last_late);
      all_sent = w.all_sent;
    }
Step-Lock {s} (cut_usr1 live one last) k b v h =
    let w = v h in absurd (omega (arith, w.last_late, w.one_on_way, on_way-last s.place h))
Step-Lock (cut_min live one last) k b v h = let w = v h in absurd (omega (arith, w.no_min))
Step-Lock {s} (skip_usr1 printed live one last) k b v h =
    let w = v h in absurd (omega (arith, w.last_late, w.one_on_way, on_way-last s.place h))
Step-Lock (skip_min printed live one last) k b v h = let w = v h in absurd (omega (arith, w.no_min))

module _ (l p : ℕ) (forked : 0 < p) where
  Reach-Lock : {s : System} → Reach (init l 2 p) s → s.place ≢ interrupted → Lock l s
  unfolding new_process
  Reach-Lock here h = record {
    rounds = omega arith;
    answers = refl;
    one_on_way = omega arith;
    no_min = refl;
    last_late = omega arith;
    all_sent = inr refl;
  }
  Reach-Lock (next r st) h =
      Step-Lock st (Reach-kind l p forked 2 r) (Reach-Bounds l 2 p forked r) (Reach-Lock r) h

  -- With `Type` 2, in every interleaving: when the parent has sent its last signal, the child has
  -- counted `L` signals and the parent `L` confirmations, and the line that the parent prints at the end
  -- says `L + 1` and `L`.
  pub confirmed_exact :
      {s : System}
      → Reach (init l 2 p) s
      → s.place ≡ ending
      → (s.child.received_by_child ≡ l)
        × (s.parent.received_from_child ≡ l)
        × ((report s.parent).out ≡ s.parent.out ++ summary (l + 1) l ∷ [])
  unfolding report
  confirmed_exact {s} r at =
      let w = Reach-Lock r (before_ne at (λ e. cc)) in
      let b = Reach-Bounds l 2 p forked r in
      let done = all_sent_at_end at w.all_sent in
      let answered : s.parent.received_from_child ≡ l = omega (arith, w, done, ap on_way at) in
      let all_out : s.parent.sent_to_child ≡ l + 1 =
        omega
          (arith, b.main.sent_least, b.main.sent_most, done, ap last_least at, ap last_most at) in
      (
        omega (arith, w, done, ap on_way at),
        answered,
        (λ i. s.parent.out ++ summary (all_out i) (answered i) ∷ []),
      )
