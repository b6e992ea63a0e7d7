-- ===== src/Signals/Counting/System/Bounds.antt =====
-- The counters of Operating-systems/lab4/zad3/main.c in every interleaving: none counts a signal that
-- was not sent.
use agh_ust_projects.Prelude.{
  ℕ, ◌+◌, ◌≤◌, ◌<◌, ◌≡◌, ◌≢◌, refl, ap, sym, ◌∙◌, Bool, true, false, inl, inr, ◌==◌, arith,
  Bool-cases,
}
use mathlib.Core.Path.{subst}
use agh_ust_projects.Signals.Counting.{handler_usr2, handler_realmax, send, report, new_process}
use agh_ust_projects.Signals.Counting.Handlers.{
  waiting, waiting-round, waiting-last, waiting-int, child_takes, parent_takes, parent_interrupted,
}
use agh_ust_projects.Signals.Counting.System.{
  Place, sending, before_wait, awaiting, ending, finished, interrupted, System, init, after_send,
  wake, cut_short, cut_early, Step, Reach, here, next, send_round, suspend, send_last, finish,
  confirmed_usr1, confirmed_min, interrupt, child_usr1, child_min, child_usr2, child_max, cut_usr1,
  cut_min, skip_usr1, skip_min,
}

-- How many signals the parent has sent besides those of the rounds, at least and at most.
abbrev pub last_least : Place → ℕ
last_least ending = 1
last_least finished = 1
last_least interrupted = 1
last_least _ = 0

abbrev pub last_most : Place → ℕ
last_most interrupted = 2
last_most place = last_least place

abbrev Over : Place → Bool → Type 0
Over finished b = b ≡ true
Over interrupted b = b ≡ true
Over _ b = b ≡ false

pub record MainAt (l : ℕ) (place : Place) (to_send pid sent : ℕ) (is_over : Bool) : Type 0 where
  pub is_parent : 0 < pid
  pub sent_least : l + last_least place ≤ sent + to_send
  pub sent_most : sent + to_send ≤ l + last_most place
  pub over : Over place is_over

pub record NumbersAt (l to_send received child_waits confirmed parent_waits : ℕ) : Type 0 where
  pub few_received : received + child_waits + to_send ≤ l
  pub few_confirmed : confirmed + parent_waits ≤ received

pub record Bounds (l : ℕ) (s : System) : Type 0 where
  pub child_pid : s.child.pid ≡ 0
  pub main : MainAt l s.place s.to_send s.parent.pid s.parent.sent_to_child s.parent.is_over
  pub numbers :
      NumbersAt l s.to_send s.child.received_by_child
        (waiting s.at_child)
        s.parent.received_from_child
        (waiting s.at_parent)

last-after_send :
    (kind : ℕ) (b : Bool)
    → b ≡ false
    → (last_least (after_send kind) ≡ 0)
      × (last_most (after_send kind) ≡ 0)
      × Over (after_send kind) b
last-after_send kind b h = elim (Bool-cases (kind == 2)) [
  | inl confirmed ↦ rw confirmed (refl, refl, h)
  | inr other ↦ rw other (refl, refl, h)
]

last-wake :
    (place : Place) (b : Bool)
    → Over place b
    → (last_least (wake place) ≡ last_least place)
      × (last_most (wake place) ≡ last_most place)
      × Over (wake place) b
last-wake sending b h = (refl, refl, h)
last-wake before_wait b h = (refl, refl, h)
last-wake awaiting b h = (refl, refl, h)
last-wake ending b h = (refl, refl, h)
last-wake finished b h = (refl, refl, h)
last-wake interrupted b h = (refl, refl, h)

true_ne_false : true ≢ false
true_ne_false e = cc

last_most_running : (place : Place) (b : Bool) → b ≡ false → Over place b → last_most place ≤ 1
last_most_running sending b e h = omega arith
last_most_running before_wait b e h = omega arith
last_most_running awaiting b e h = omega arith
last_most_running ending b e h = omega arith
last_most_running finished b e h = absurd (true_ne_false (sym h ∙ e))
last_most_running interrupted b e h = absurd (true_ne_false (sym h ∙ e))

last_most_small : (place : Place) → last_most place ≤ 2
last_most_small sending = omega arith
last_most_small before_wait = omega arith
last_most_small awaiting = omega arith
last_most_small ending = omega arith
last_most_small finished = omega arith
last_most_small interrupted = omega arith

Step-Main :
    {l : ℕ} {s t : System}
    → Step s t
    → MainAt l s.place s.to_send s.parent.pid s.parent.sent_to_child s.parent.is_over
    → MainAt l t.place t.to_send t.parent.pid t.parent.sent_to_child t.parent.is_over
unfolding send report
Step-Main {s} (send_round at more) v =
    let (least, most, running) =
      last-after_send s.parent.kind s.parent.is_over
        (subst (λ q. Over q s.parent.is_over) at v.over) in
    record {
      is_parent = v.is_parent;
      sent_least = omega (arith, v, ap last_least at);
      sent_most = omega (arith, v, ap last_most at);
      over = running;
    }
Step-Main {s} (suspend at) v = record {
  is_parent = v.is_parent;
  sent_least = omega (arith, v, ap last_least at);
  sent_most = omega (arith, v, ap last_most at);
  over = subst (λ q. Over q s.parent.is_over) at v.over;
}
Step-Main {s} (send_last at none_left) v = record {
  is_parent = v.is_parent;
  sent_least = omega (arith, v, ap last_least at);
  sent_most = omega (arith, v, ap last_most at);
  over = subst (λ q. Over q s.parent.is_over) at v.over;
}
Step-Main {s} (finish at) v = record {
  is_parent = v.is_parent;
  sent_least = omega (arith, v, ap last_least at);
  sent_most = omega (arith, v, ap last_most at);
  over = refl;
}
Step-Main {s} (confirmed_usr1 live one) v =
    let (least, most, running) = last-wake s.place s.parent.is_over v.over in
    rw (parent_takes s.parent v.is_parent).0 (record {
      is_parent = v.is_parent;
      sent_least = omega (arith, v);
      sent_most = omega (arith, v);
      over = running;
    })
Step-Main {s} (confirmed_min live free one) v = rw (parent_takes s.parent v.is_parent).1 v
Step-Main {s} (interrupt live free) v = rw (parent_interrupted s.parent v.is_parent) (record {
  is_parent = v.is_parent;
  sent_least = omega (arith, v);
  sent_most = omega (arith, v, last_most_running s.place s.parent.is_over live v.over);
  over = refl;
})
Step-Main (child_usr1 live one) v = v
Step-Main (child_min live one) v = v
Step-Main (child_usr2 live one) v = v
Step-Main (child_max live one) v = v
Step-Main (cut_usr1 live one last) v = v
Step-Main (cut_min live one last) v = v
Step-Main (skip_usr1 printed live one last) v = v
Step-Main (skip_min printed live one last) v = v

abbrev pub Numbers : ℕ → System → Type 0
Numbers l s =
    NumbersAt l s.to_send s.child.received_by_child (waiting s.at_child)
      s.parent.received_from_child (waiting s.at_parent)

Step-Numbers :
    {l : ℕ} {s t : System}
    → Step s t
    → s.child.pid ≡ 0
    → 0 < s.parent.pid
    → Numbers l s
    → Numbers l t
unfolding send report handler_usr2 handler_realmax cut_short cut_early
Step-Numbers {s} (send_round at more) c p v =
    omega (arith, v, waiting-round s.parent.kind s.at_child)
Step-Numbers (suspend at) c p v = v
Step-Numbers {s} (send_last at none_left) c p v =
    omega (arith, v, waiting-last s.parent.kind s.at_child)
Step-Numbers (finish at) c p v = v
Step-Numbers {s} (confirmed_usr1 live one) c p v = rw (parent_takes s.parent p).0 (omega (arith, v))
Step-Numbers {s} (confirmed_min live free one) c p v =
    rw (parent_takes s.parent p).1 (omega (arith, v))
Step-Numbers {s} (interrupt live free) c p v =
    rw (parent_interrupted s.parent p) (omega (arith, v, waiting-int s.parent.kind s.at_child))
Step-Numbers {s} (child_usr1 live one) c p v = rw (child_takes s.child c).0 (omega (arith, v))
Step-Numbers {s} (child_min live one) c p v = rw (child_takes s.child c).1 (omega (arith, v))
Step-Numbers (child_usr2 live one) c p v = v
Step-Numbers (child_max live one) c p v = v
Step-Numbers (cut_usr1 live one last) c p v = omega (arith, v)
Step-Numbers (cut_min live one last) c p v = omega (arith, v)
Step-Numbers (skip_usr1 printed live one last) c p v = omega (arith, v)
Step-Numbers (skip_min printed live one last) c p v = omega (arith, v)

Step-child : {s t : System} → Step s t → s.child.pid ≡ 0 → t.child.pid ≡ 0
unfolding handler_usr2 handler_realmax cut_short cut_early
Step-child {s} (child_usr1 live one) c = rw (child_takes s.child c).0 c
Step-child {s} (child_min live one) c = rw (child_takes s.child c).1 c
Step-child (send_round at more) c = c
Step-child (suspend at) c = c
Step-child (send_last at none_left) c = c
Step-child (finish at) c = c
Step-child (confirmed_usr1 live one) c = c
Step-child (confirmed_min live free one) c = c
Step-child (interrupt live free) c = c
Step-child (child_usr2 live one) c = c
Step-child (child_max live one) c = c
Step-child (cut_usr1 live one last) c = c
Step-child (cut_min live one last) c = c
Step-child (skip_usr1 printed live one last) c = c
Step-child (skip_min printed live one last) c = c

pub Step-Bounds : {l : ℕ} {s t : System} → Step s t → Bounds l s → Bounds l t
Step-Bounds st v = record {
  child_pid = Step-child st v.child_pid;
  main = Step-Main st v.main;
  numbers = Step-Numbers st v.child_pid v.main.is_parent v.numbers;
}

module _ (l kind p : ℕ) (forked : 0 < p) where
  init-Bounds : Bounds l (init l kind p)
  unfolding new_process
  init-Bounds = record {
    child_pid = refl;
    main = record {
      is_parent = forked;
      sent_least = omega arith;
      sent_most = omega arith;
      over = refl;
    };
    numbers = record { few_received = omega arith; few_confirmed = omega arith };
  }

  pub Reach-Bounds : {s : System} → Reach (init l kind p) s → Bounds l s
  Reach-Bounds here = init-Bounds
  Reach-Bounds (next r st) = Step-Bounds st (Reach-Bounds r)

  -- For every `Type` and in every interleaving: the child has counted at most `L` signals, and no more
  -- than the parent has sent; the parent has counted no more confirmations than the child has counted
  -- signals, and has sent at most `L + 2` signals.
  pub counts_bounded :
      {s : System}
      → Reach (init l kind p) s
      → (s.child.received_by_child ≤ l)
        × (s.child.received_by_child ≤ s.parent.sent_to_child)
        × (s.parent.received_from_child ≤ s.child.received_by_child)
        × (s.parent.sent_to_child ≤ l + 2)
  counts_bounded {s} r =
      let v = Reach-Bounds r in
      omega (arith, v.main.sent_least, v.main.sent_most, v.numbers, last_most_small s.place)
