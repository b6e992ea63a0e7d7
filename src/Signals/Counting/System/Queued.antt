-- ===== src/Signals/Counting/System/Queued.antt =====
-- `Type` 3 of Operating-systems/lab4/zad3/main.c, whose signals are queued, in every interleaving.
use agh_ust_projects.Prelude.{ℕ, ◌+◌, ◌≡◌, ◌⊎◌, true}
use agh_ust_projects.Signals.Counting.System.{System}
use agh_ust_projects.Signals.Counting.System.Bounds.{Bounds}

-- A signal of a round is pending until the child counts it, but for the one whose handler the end of
-- the child cuts off.
record Queue (l : ℕ) (s : System) : Type 0 where
  rounds :
      (s.child.received_by_child + s.at_child.rt_min + s.to_send ≡ l)
      ⊎ ((s.child.is_over ≡ true)
          × (s.child.received_by_child + s.at_child.rt_min + s.to_send + 1 ≡ l))
  no_usr1 : s.at_child.usr1 + s.at_parent.usr1 ≡ 0
  answers :
      (s.parent.received_from_child + s.at_parent.rt_min ≡ s.child.received_by_child)
      ⊎ (s.child.is_over ≡ true)
