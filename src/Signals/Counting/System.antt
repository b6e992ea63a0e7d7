-- ===== src/Signals/Counting/System.antt =====
-- Operating-systems/lab4/zad3/main.c: parent and child with the signals between them, as a step
-- relation. A step is a part of main between two system calls, or a handler. A handler runs as a
-- whole, but the child's may be cut short by the one that ends it.
pub mod Bounds
pub mod Kind
pub mod Exact
pub mod Queued
pub mod Losses
use agh_ust_projects.Prelude.{
  ℕ, suc, ◌+◌, ◌-◌, ◌<◌, ◌≡◌, ◌≢◌, Option, some, List, [], ◌∷◌, ◌++◌, Bool, true, false, ◌==◌,
  if◌then◌else◌,
}
use agh_ust_projects.Signals.Counting.{
  Signal, usr1, usr2, rt_min, rt_max, Pending, nothing, raise, raise_some, Process, gets,
  handler_int, handler_usr1, handler_realmin, handler_usr2, handler_realmax, round_signal,
  last_signal, send, report, new_process,
}

-- Where the parent stands in main: between two rounds, in front of `sigsuspend` and in it (`Type` 2),
-- behind the last signal, at the end, or at the end of handler_INT.
pub data Place : Type 0 where
  sending before_wait awaiting ending finished interrupted : Place

pub record System : Type 0 where
  pub parent : Process
  pub child : Process
  pub at_parent : Pending
  pub at_child : Pending
  -- `L - i` in the loop of main.
  pub to_send : ℕ
  pub place : Place

-- Behind a `fork` that gives `p`.
abbrev pub init : ℕ → ℕ → ℕ → System
init l kind p = record {
  parent = record (new_process l kind) { pid = p };
  child = new_process l kind;
  at_parent = nothing;
  at_child = nothing;
  to_send = l;
  place = sending;
}

abbrev pub after_send : ℕ → Place
after_send kind = if kind == 2 then before_wait else sending

-- A handler ends `sigsuspend`.
abbrev pub wake : Place → Place
wake awaiting = sending
wake place = place

-- The child's handler of `signal` is interrupted by the handler that ends the child, before it
-- confirms.
unfoldable pub cut_short : Signal → Process → Process
unfolding handler_usr2
cut_short signal s =
    handler_usr2
      (record s { received_by_child = s.received_by_child + 1; out = s.out ++ gets signal ∷ [] })

-- The same, where the handler is interrupted before it counts the signal: `printed` says whether it has
-- printed its line.
unfoldable pub cut_early : Bool → Signal → Process → Process
unfolding handler_usr2
cut_early printed signal s =
    handler_usr2 (record s { out = if printed then s.out ++ gets signal ∷ [] else s.out })

pub data Step (s : System) : System → Type 0 where
  -- A round of the switch in main, for all three types.
  send_round :
      s.place ≡ sending
      → 0 < s.to_send
      → Step s (record s {
        parent = send (round_signal s.parent.kind) s.parent;
        at_child = raise (round_signal s.parent.kind) s.at_child;
        to_send = s.to_send - 1;
        place = after_send s.parent.kind;
      })
  suspend : s.place ≡ before_wait → Step s (record s { place = awaiting })
  send_last :
      s.place ≡ sending
      → s.to_send ≡ 0
      → Step s (record s {
        parent = send (last_signal s.parent.kind) s.parent;
        at_child = raise (last_signal s.parent.kind) s.at_child;
        place = ending;
      })
  finish : s.place ≡ ending → Step s (record s { parent = report s.parent; place = finished })
  -- The handlers of the parent; only SIGUSR1 is let through in `sigsuspend`.
  confirmed_usr1 :
      s.parent.is_over ≡ false
      → 0 < s.at_parent.usr1
      → Step s (record s {
        parent = (handler_usr1 s.parent).0;
        at_parent = record s.at_parent { usr1 = 0 };
        place = wake s.place;
      })
  confirmed_min :
      s.parent.is_over ≡ false
      → s.place ≢ awaiting
      → 0 < s.at_parent.rt_min
      → Step s (record s {
        parent = (handler_realmin s.parent).0;
        at_parent = record s.at_parent { rt_min = s.at_parent.rt_min - 1 };
      })
  interrupt :
      s.parent.is_over ≡ false
      → s.place ≢ awaiting
      → Step s (record s {
        parent = (handler_int s.parent).0;
        at_child = raise_some (handler_int s.parent).1 s.at_child;
        place = interrupted;
      })
  -- The handlers of the child.
  child_usr1 :
      s.child.is_over ≡ false
      → 0 < s.at_child.usr1
      → Step s (record s {
        child = (handler_usr1 s.child).0;
        at_child = record s.at_child { usr1 = 0 };
        at_parent = raise_some (handler_usr1 s.child).1 s.at_parent;
      })
  child_min :
      s.child.is_over ≡ false
      → 0 < s.at_child.rt_min
      → Step s (record s {
        child = (handler_realmin s.child).0;
        at_child = record s.at_child { rt_min = s.at_child.rt_min - 1 };
        at_parent = raise_some (handler_realmin s.child).1 s.at_parent;
      })
  child_usr2 :
      s.child.is_over ≡ false
      → 0 < s.at_child.usr2
      → Step s
          (record s { child = handler_usr2 s.child; at_child = record s.at_child { usr2 = 0 } })
  child_max :
      s.child.is_over ≡ false
      → 0 < s.at_child.rt_max
      → Step s (record s {
        child = handler_realmax s.child;
        at_child = record s.at_child { rt_max = s.at_child.rt_max - 1 };
      })
  cut_usr1 :
      s.child.is_over ≡ false
      → 0 < s.at_child.usr1
      → 0 < s.at_child.usr2 + s.at_child.rt_max
      → Step s
          (record s { child = cut_short usr1 s.child; at_child = record s.at_child { usr1 = 0 } })
  cut_min :
      s.child.is_over ≡ false
      → 0 < s.at_child.rt_min
      → 0 < s.at_child.usr2 + s.at_child.rt_max
      → Step s (record s {
        child = cut_short rt_min s.child;
        at_child = record s.at_child { rt_min = s.at_child.rt_min - 1 };
      })
  skip_usr1 :
      (printed : Bool)
      → s.child.is_over ≡ false
      → 0 < s.at_child.usr1
      → 0 < s.at_child.usr2 + s.at_child.rt_max
      → Step s (record s {
        child = cut_early printed usr1 s.child;
        at_child = record s.at_child { usr1 = 0 };
      })
  skip_min :
      (printed : Bool)
      → s.child.is_over ≡ false
      → 0 < s.at_child.rt_min
      → 0 < s.at_child.usr2 + s.at_child.rt_max
      → Step s (record s {
        child = cut_early printed rt_min s.child;
        at_child = record s.at_child { rt_min = s.at_child.rt_min - 1 };
      })

pub data Reach (s : System) : System → Type 0 where
  here : Reach s s
  next : {t u : System} → Reach s t → Step t u → Reach s u
