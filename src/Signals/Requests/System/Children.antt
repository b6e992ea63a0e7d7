-- ===== src/Signals/Requests/System/Children.antt =====
-- The children that the parent of Operating-systems/lab4/zad2/main.c counts, in every interleaving.
use agh_ust_projects.Prelude.{
  ℕ, ◌+◌, ◌≤◌, ◌≡◌, ◌↔◌, ap, sym, ◌∙◌, some, true, false, if◌then◌else◌, arith, length,
}
use mathlib.Core.Path.{subst}
use agh_ust_projects.Signals.Pending.{pending}
use agh_ust_projects.Signals.Requests.{Info, is_end, handler_chld, is_zero}
use agh_ust_projects.Signals.Requests.Tally.{tally, counted_down, leaves-handler_chld}
use agh_ust_projects.Signals.Requests.System.{System, init, Reach, here, next}
use agh_ust_projects.Signals.Requests.System.Stages.{living}
use agh_ust_projects.Signals.Requests.Count.{
  in_window, Counted, Counted-counted_down, Counted-is_zero,
}
use agh_ust_projects.Signals.Requests.System.Numbers.{end_pending, Counts, Step-Counts, init-Counts}

module _ (span all needed : ℕ) where
  Reach-Counts : {s : System} → Reach span (init all needed) s → Counts all s
  Reach-Counts here = init-Counts all needed
  Reach-Counts (next r st) = Step-Counts st (Reach-Counts r)

  -- In every interleaving, as long as the model follows the parent: `n` and the child that stands
  -- between its `fork` and its `n++`, if there is one, make the children that have not ended, the end
  -- that is pending and the ends whose SIGCHLD was lost; and these are at most the children forked, of
  -- which there are at most `N`.
  pub children_counted :
      {s : System}
      → Reach span (init all needed) s
      → Counted s.parent.n (in_window s.round) (living s.kids + end_pending s.chld + s.lost_ends)
        × (living s.kids + end_pending s.chld + s.lost_ends ≤ length s.kids)
        × (length s.kids ≤ all)
  unfolding tally
  children_counted r = let v = Reach-Counts r in (v.counted, v.ends, omega (arith, v))

  -- In every interleaving: each request sent is handled, pending or lost, and no more requests are
  -- sent than children were forked.
  pub requests_counted :
      {s : System}
      → Reach span (init all needed) s
      → (length s.parent.requests + pending s.usr1 + s.lost_requests ≡ s.sent)
        × (s.sent ≤ length s.kids)
  unfolding tally
  requests_counted r = let v = Reach-Counts r in (v.heard, omega (arith, v.asking))

  -- In every interleaving, when the running parent handles a SIGCHLD: it leaves if, and only if, the
  -- children that still live and the ends that were lost are none, or one where a child stands between
  -- its `fork` and its `n++`. So in between it may leave a child that lives.
  pub leaves_after_last :
      {s : System} {x : Info}
      → Reach span (init all needed) s
      → s.parent.is_over ≡ false
      → s.chld ≡ some x
      → ((handler_chld x s.parent).is_over ≡ true)
        ↔ (living s.kids + s.lost_ends ≡ in_window s.round)
  unfolding tally
  leaves_after_last {s} {x} r live e =
      let v = Reach-Counts r in
      let told : end_pending s.chld ≡ (if is_end x.code then 1 else 0) = ap end_pending e in
      let all_ends : living s.kids + end_pending s.chld + s.lost_ends
          ≡ living s.kids + s.lost_ends + (if is_end x.code then 1 else 0) =
        omega (arith, told) in
      let zero_at =
        Counted-is_zero (counted_down (is_end x.code) s.parent.n) (in_window s.round)
          (living s.kids + s.lost_ends)
          (Counted-counted_down (is_end x.code) s.parent.n (in_window s.round)
            (living s.kids + s.lost_ends)
            (subst (Counted s.parent.n (in_window s.round)) all_ends v.counted)) in
      let leaves : (handler_chld x s.parent).is_over
          ≡ is_zero (counted_down (is_end x.code) s.parent.n) =
        leaves-handler_chld x s.parent live in
      ((λ over. zero_at.0 (sym leaves ∙ over)), (λ none_left. leaves ∙ zero_at.1 none_left))
