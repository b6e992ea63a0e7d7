-- ===== src/Signals/Examples.antt =====
-- The theorems on the signals of Operating-systems/lab4 at short runs.
use agh_ust_projects.Prelude.{
  ℕ, ◌+◌, ◌≤◌, ◌<◌, ◌≡◌, ◌≢◌, ◌⊎◌, ◌↔◌, refl, true, [], ◌∷◌, ◌++◌, length, arith,
}
use mathlib.Core.List.{Memᴰ}
use agh_ust_projects.Signals.Requests.{
  Code, Info, new_parent, assign_pid, store_child, count_child, handler_usr, enlist, grant_from,
  permit, handler_chld, handler_int, kill_child, outside,
}
use agh_ust_projects.Signals.Requests.Served.{to_visit}
use agh_ust_projects.Signals.Requests.System
use agh_ust_projects.Signals.Requests.System.{
  working, fork, assign, store, count, request, take_request, confirm, return_interval,
  take_interrupt, kill_next, take_child, die,
}
use agh_ust_projects.Signals.Requests.Count.{in_window, Counted}
use agh_ust_projects.Signals.Requests.System.Order.{permits_in_order}
use agh_ust_projects.Signals.Requests.System.Stages.{living}
use agh_ust_projects.Signals.Requests.System.Children.{children_counted, leaves_after_last}
use agh_ust_projects.Signals.Requests.System.Numbers.{end_pending}
use agh_ust_projects.Signals.Counting.{
  new_process, send, report, summary, handler_usr1, handler_realmin,
}
use agh_ust_projects.Signals.Counting.System as Count
use agh_ust_projects.Signals.Counting.System.{
  send_round, suspend, send_last, child_usr1, child_min, confirmed_usr1,
}
use agh_ust_projects.Signals.Counting.System.Bounds.{counts_bounded}
use agh_ust_projects.Signals.Counting.System.Exact.{confirmed_exact}
use agh_ust_projects.Signals.Counting.System.Losses.{plain_counts_any, confirmed_may_hang}

number_ne_zero : (p : ℕ) → 0 < p → p ≢ 0
number_ne_zero p h e = omega arith

working_ne_ended : working ≢ System.ended
working_ne_ended e = cc

-- Two children, of which one must ask.
abbrev one_forked : (s : System.System) × System.Reach 30 (System.init 2 1) s
unfolding new_parent assign_pid store_child count_child
one_forked = (
  _,
  System.next
      (System.next
        (System.next
          (System.next System.here (fork 300 refl refl refl refl (omega arith) (omega arith)))
          (assign 300 refl refl refl refl))
        (store 300 0 refl refl refl refl refl))
      (count refl refl refl refl),
)

abbrev both_forked : (s : System.System) × System.Reach 30 (System.init 2 1) s
unfolding new_parent assign_pid store_child count_child
both_forked = (
  _,
  System.next
      (System.next
        (System.next
          (System.next one_forked.1 (fork 301 refl refl refl refl (omega arith) (omega arith)))
          (assign 301 refl refl refl refl))
        (store 301 1 refl refl refl refl refl))
      (count refl refl refl refl),
)

-- The second one asks, gets its permit and ends.
abbrev asked : (s : System.System) × System.Reach 30 (System.init 2 1) s
unfolding new_parent assign_pid store_child count_child handler_usr enlist grant_from permit
asked = (
  _,
  System.next (System.next both_forked.1 (request 1 301 refl))
      (take_request 301 refl (number_ne_zero 301 (omega arith)) refl refl),
)

abbrev one_ended : (s : System.System) × System.Reach 30 (System.init 2 1) s
unfolding new_parent assign_pid store_child count_child handler_usr enlist grant_from permit
one_ended = (
  _,
  System.next (System.next asked.1 (confirm 1 301 7 refl (Memᴰ.head refl)))
      (return_interval 1 301 5 refl),
)

permits_in_order_example :
    (let p = asked.0.parent in
      ((length p.requests < 1) × (p.permits ≡ []))
      ⊎ ((1 ≤ length p.requests) × (p.permits ++ to_visit 1 p.wait_list p.place ≡ p.requests)))
permits_in_order_example = permits_in_order (omega arith) asked.1

children_counted_example :
    (let s = one_ended.0 in
      Counted s.parent.n (in_window s.round) (living s.kids + end_pending s.chld + s.lost_ends)
      × (living s.kids + end_pending s.chld + s.lost_ends ≤ length s.kids)
      × (length s.kids ≤ 2))
children_counted_example = children_counted 30 2 1 one_ended.1

abbrev ended_with : ℕ → Info
ended_with p = record { code = Code.killed; si_pid = p; si_status = 9 }

-- The first child is counted, the second one forked, and then the first one is killed.
abbrev in_between : (s : System.System) × System.Reach 30 (System.init 2 1) s
unfolding new_parent assign_pid store_child count_child
in_between = (
  _,
  System.next (System.next one_forked.1 (fork 301 refl refl refl refl (omega arith) (omega arith)))
      (die 0 300 working (ended_with 300) refl working_ne_ended refl (omega arith)),
)

leaves_after_last_example :
    ((handler_chld (ended_with 300) in_between.0.parent).is_over ≡ true)
    ↔ (living in_between.0.kids + in_between.0.lost_ends ≡ in_window in_between.0.round)
unfolding new_parent assign_pid store_child count_child
leaves_after_last_example = leaves_after_last 30 2 1 in_between.1 refl refl

-- With both forked, the second one is killed from outside, and handler_INT has visited the first entry
-- when handler_CHLD runs.
abbrev half_killed : (s : System.System) × System.Reach 30 (System.init 2 1) s
unfolding new_parent assign_pid store_child count_child handler_int kill_child
half_killed = (
  _,
  System.next
      (System.next
        (System.next
          (System.next both_forked.1
            (die 1 301 working (ended_with 301) refl working_ne_ended refl (omega arith)))
          (take_interrupt refl (number_ne_zero 301 (omega arith)) refl))
        (kill_next 0 outside refl refl refl (omega arith)))
      (take_child (ended_with 301) refl refl),
)

-- `Type` 2 with one signal, up to the last one.
abbrev confirmed_run : (s : Count.System) × Count.Reach (Count.init 1 2 40) s
unfolding new_process send handler_usr1
confirmed_run = (
  _,
  Count.next
      (Count.next
        (Count.next
          (Count.next (Count.next Count.here (send_round refl (omega arith))) (suspend refl))
          (child_usr1 refl (omega arith)))
        (confirmed_usr1 refl (omega arith)))
      (send_last refl refl),
)

confirmed_exact_example :
    (let s = confirmed_run.0 in
      (s.child.received_by_child ≡ 1)
      × (s.parent.received_from_child ≡ 1)
      × ((report s.parent).out ≡ s.parent.out ++ summary 2 1 ∷ []))
unfolding new_process send handler_usr1
confirmed_exact_example = confirmed_exact 1 40 (omega arith) confirmed_run.1 refl

counts_bounded_example :
    (let s = confirmed_run.0 in
      (s.child.received_by_child ≤ 1)
      × (s.child.received_by_child ≤ s.parent.sent_to_child)
      × (s.parent.received_from_child ≤ s.child.received_by_child)
      × (s.parent.sent_to_child ≤ 3))
counts_bounded_example = counts_bounded 1 2 40 (omega arith) confirmed_run.1

-- `Type` 3 with two signals, of which the child has counted one.
abbrev queued_run : (s : Count.System) × Count.Reach (Count.init 2 3 40) s
unfolding new_process send handler_realmin
queued_run = (
  _,
  Count.next
      (Count.next (Count.next Count.here (send_round refl (omega arith)))
        (send_round refl (omega arith)))
      (child_min refl (omega arith)),
)

plain_counts_any_example :
    (s : Count.System) × Count.Reach (Count.init 5 1 40) s
    × ((s.place ≡ Count.finished)
        × (s.to_send ≡ 0)
        × (s.child.is_over ≡ true)
        × (s.child.received_by_child ≡ 2))
plain_counts_any_example = plain_counts_any 5 40 2 (omega arith)

confirmed_may_hang_example :
    (s : Count.System) × Count.Reach (Count.init 3 2 40) s
    × ((s.place ≡ Count.awaiting)
        × (s.child.received_by_child ≡ 1)
        × ((t : Count.System) → ¬ Count.Step s t))
confirmed_may_hang_example = confirmed_may_hang 3 40 (omega arith) (omega arith)
