-- ===== src/Signals/Counting/System/Losses.antt =====
-- Runs of Operating-systems/lab4/zad3/main.c that lose signals, and one that never ends.
use agh_ust_projects.Prelude.{
  ℕ, zero, suc, ◌+◌, ◌-◌, ◌≤◌, ◌<◌, ◌≡◌, ◌≢◌, refl, ap, sym, ◌∙◌, true, false, arith,
}
use mathlib.Core.Path.{subst}
use agh_ust_projects.Signals.Counting.{
  Pending, handler_usr1, handler_usr2, round_signal, last_signal, raise, send, report, new_process,
}
use agh_ust_projects.Signals.Counting.Handlers.{child_takes}
use agh_ust_projects.Signals.Counting.System.{
  Place, sending, awaiting, finished, System, init, after_send, Step, Reach, here, next, send_round,
  suspend, send_last, finish, confirmed_usr1, confirmed_min, interrupt, child_usr1, child_min,
  child_usr2, child_max, cut_usr1, cut_min, skip_usr1, skip_min,
}

-- A reachable state of `Type` 1 between two rounds, with `left` rounds to go and `counted` signals
-- counted by the child.
record Between (l p left counted : ℕ) : Type 0 where
  s : System
  reach : Reach (init l 1 p) s
  plain : s.parent.kind ≡ 1
  at : s.place ≡ sending
  to_go : s.to_send ≡ left
  child : s.child.pid ≡ 0
  alive : s.child.is_over ≡ false
  count : s.child.received_by_child ≡ counted

raised : (kind : ℕ) (q : Pending) → kind ≡ 1 → 0 < (raise (round_signal kind) q).usr1
raised kind q e = rw e (omega arith)

raised_last : (kind : ℕ) (q : Pending) → kind ≡ 1 → 0 < (raise (last_signal kind) q).usr2
raised_last kind q e = rw e (omega arith)

module _ {l p left counted : ℕ} where
  -- A round whose signal the child takes at once.
  taken_round : Between l p (suc left) counted → Between l p left (suc counted)
  unfolding send
  taken_round b =
      let sent : Step b.s _ = send_round b.at (omega (arith, b.to_go)) in
      record {
        s = _;
        reach =
            next (next b.reach sent)
              (child_usr1 b.alive (raised b.s.parent.kind b.s.at_child b.plain));
        plain = b.plain;
        at = ap after_send b.plain;
        to_go = omega (arith, b.to_go);
        child = rw (child_takes b.s.child b.child).0 b.child;
        alive = rw (child_takes b.s.child b.child).0 b.alive;
        count = rw (child_takes b.s.child b.child).0 (omega (arith, b.count));
      }

  -- A round whose signal stays pending, as the next one of its kind.
  skipped_round : Between l p (suc left) counted → Between l p left counted
  unfolding send
  skipped_round b = record {
    s = _;
    reach = next b.reach (send_round b.at (omega (arith, b.to_go)));
    plain = b.plain;
    at = ap after_send b.plain;
    to_go = omega (arith, b.to_go);
    child = b.child;
    alive = b.alive;
    count = b.count;
  }

take_rounds : {l p : ℕ} (n left : ℕ) → left + n ≡ l → Between l p l 0 → Between l p left n
take_rounds {l} {p} zero left e b =
    let all_left : l ≡ left = omega arith in subst (λ m. Between l p m 0) all_left b
take_rounds (suc n) left e b = taken_round (take_rounds n (suc left) (omega arith) b)

skip_rounds : {l p : ℕ} (n counted : ℕ) → Between l p n counted → Between l p 0 counted
skip_rounds zero counted b = b
skip_rounds (suc n) counted b = skip_rounds n counted (skipped_round b)

-- A run of `Type` 1 in which the child counts `counted` signals.
module _ (l p counted : ℕ) where
  start : Between l p l 0
  unfolding new_process
  start = record {
    s = init l 1 p;
    reach = here;
    plain = refl;
    at = refl;
    to_go = refl;
    child = refl;
    alive = refl;
    count = refl;
  }

  -- With `Type` 1, for each number up to `L` there is a run in which the parent ends having sent all
  -- its signals, and the child ends having counted that many.
  pub plain_counts_any :
      counted ≤ l
      → (s : System) × Reach (init l 1 p) s
        × ((s.place ≡ finished)
            × (s.to_send ≡ 0)
            × (s.child.is_over ≡ true)
            × (s.child.received_by_child ≡ counted))
  unfolding handler_usr2 send report
  plain_counts_any h =
      let b =
        skip_rounds (l - counted) counted (take_rounds counted (l - counted) (omega arith) start) in
      (
        _,
        next (next (next b.reach (send_last b.at b.to_go)) (finish refl))
            (child_usr2 b.alive (raised_last b.s.parent.kind b.s.at_child b.plain)),
        (refl, b.to_go, refl, b.count),
      )

-- Nothing is on its way, and the parent waits in `sigsuspend`.
record Deaf (s : System) : Type 0 where
  waits : s.place ≡ awaiting
  no_answer : s.at_parent.usr1 ≡ 0
  no_signal : s.at_child.usr1 + s.at_child.usr2 + s.at_child.rt_min + s.at_child.rt_max ≡ 0

waits_ne : {place other : Place} → place ≡ awaiting → place ≡ other → awaiting ≢ other → ⊥
waits_ne e f h = h (sym e ∙ f)

Deaf-stuck : {s t : System} → Deaf s → ¬ Step s t
Deaf-stuck v (send_round at more) = absurd (waits_ne v.waits at (λ e. cc))
Deaf-stuck v (suspend at) = absurd (waits_ne v.waits at (λ e. cc))
Deaf-stuck v (send_last at none_left) = absurd (waits_ne v.waits at (λ e. cc))
Deaf-stuck v (finish at) = absurd (waits_ne v.waits at (λ e. cc))
Deaf-stuck v (confirmed_usr1 live one) = omega (arith, v.no_answer)
Deaf-stuck v (confirmed_min live free one) = free v.waits
Deaf-stuck v (interrupt live free) = free v.waits
Deaf-stuck v (child_usr1 live one) = omega (arith, v.no_signal)
Deaf-stuck v (child_min live one) = omega (arith, v.no_signal)
Deaf-stuck v (child_usr2 live one) = omega (arith, v.no_signal)
Deaf-stuck v (child_max live one) = omega (arith, v.no_signal)
Deaf-stuck v (cut_usr1 live one last) = omega (arith, v.no_signal)
Deaf-stuck v (cut_min live one last) = omega (arith, v.no_signal)
Deaf-stuck v (skip_usr1 printed live one last) = omega (arith, v.no_signal)
Deaf-stuck v (skip_min printed live one last) = omega (arith, v.no_signal)

module _ (l p : ℕ) where
  -- With `Type` 2 and at least one signal to send there is a run that never ends: the parent takes the
  -- confirmation of its first signal in front of `sigsuspend`, and then no step is possible, not even
  -- SIGINT.
  pub confirmed_may_hang :
      0 < l
      → 0 < p
      → (s : System) × Reach (init l 2 p) s
        × ((s.place ≡ awaiting) × (s.child.received_by_child ≡ 1) × ((t : System) → ¬ Step s t))
  unfolding new_process send handler_usr1
  confirmed_may_hang some_signal forked =
      let sent : Step (init l 2 p) _ = send_round refl some_signal in
      let r : Reach (init l 2 p) _ =
        next
          (next (next (next here sent) (child_usr1 refl (omega arith)))
            (confirmed_usr1 refl (omega arith)))
          (suspend refl) in
      (
        _,
        r,
        (refl, refl, λ t. Deaf-stuck (record { waits = refl; no_answer = refl; no_signal = refl })),
      )
