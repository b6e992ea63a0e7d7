-- ===== src/Signals/Requests/System.antt =====
-- Operating-systems/lab4/zad2/main.c: the parent, its children (childProcedure and their part of
-- handler_USR) and the signals between them, as a step relation. A step is one handler of the parent
-- up to its next `waitpid`, one assignment in the loop of main, a round of killEmAll, or a move of one
-- child.
pub mod Order
pub mod Stages
pub mod Children
pub mod Kills
pub mod Table
pub mod Numbers
use agh_ust_projects.Prelude.{
  ℕ, zero, suc, ◌+◌, ◌-◌, ◌%◌, ◌≤◌, ◌<◌, ◌≡◌, ◌≢◌, Option, none, some, List, [], ◌∷◌, ◌++◌, Bool,
  true, false, get_elem?, set,
}
use agh_ust_projects.Prelude.Int.{pos, negsuc}
use mathlib.Core.List.{Memᴰ}
use agh_ust_projects.Signals.Pending.{post, lost}
use agh_ust_projects.Signals.Requests.{
  Code, exited, killed, dumped, trapped, stopped, continued, Info, Parent, Place, outside,
  new_parent, handler_usr, after_wait, handler_chld, handler_real, handler_int, kill_child,
  assign_pid, store_child, count_child, is_end,
}

-- A child before its request, in `sigsuspend`, behind it, and after its end.
pub data Stage : Type 0 where
  working suspended answered ended : Stage

pub record Child : Type 0 where
  pub number : ℕ
  pub stage : Stage

-- Where main stands in a round of its loop: in front of `fork`, in front of the assignment of its result
-- to `pid`, in front of that to `children[n]`, and in front of `n++`.
pub data Round : Type 0 where
  before_fork : Round
  returned assigned : ℕ → Round
  stored : Round

-- handler_INT: not running, or in front of the round `i` of killEmAll, with the place of handler_USR that
-- it interrupts.
pub data Interrupt : Type 0 where
  quiet : Interrupt
  killing : ℕ → Place → Interrupt

-- handler_USR may go on: it is not the one that handler_INT interrupts.
abbrev pub GoesOn : Interrupt → Place → Type 0
GoesOn quiet place = Unit {0}
GoesOn (killing i interrupted) place = place ≢ interrupted

pub record System : Type 0 where
  pub parent : Parent
  pub round : Round
  pub interrupt : Interrupt
  pub kids : List Child
  -- What is pending at the parent: the sender of SIGUSR1, SIGCHLD, and the real-time signals behind
  -- SIGRTMIN with their senders.
  pub usr1 : Option ℕ
  pub chld : Option Info
  pub reals : List (ℕ × ℕ)
  -- How many requests were sent, how many were lost, and how many ends of children were lost.
  pub sent : ℕ
  pub lost_requests : ℕ
  pub lost_ends : ℕ

abbrev pub init : ℕ → ℕ → System
init all needed = record {
  parent = new_parent all needed;
  round = before_fork;
  interrupt = quiet;
  kids = [];
  usr1 = none;
  chld = none;
  reals = [];
  sent = 0;
  lost_requests = 0;
  lost_ends = 0;
}

-- A request of the child `p`.
abbrev pub ask : ℕ → System → System
ask p s = record s {
  usr1 = post p s.usr1;
  sent = s.sent + 1;
  lost_requests = s.lost_requests + lost s.usr1;
}

-- The end of a child.
abbrev pub finish : Info → System → System
finish x s = record s { chld = post x s.chld; lost_ends = s.lost_ends + lost s.chld }

abbrev pub move : ℕ → ℕ → Stage → System → System
move j p stage s = record s { kids = set s.kids j (record { number = p; stage = stage }) }

abbrev pub At : ℕ → ℕ → Stage → System → Type 0
At j p stage s = get_elem? s.kids j ≡ some (record { number = p; stage = stage })

-- `span` is SIGRTMAX - SIGRTMIN.
module _ (span : ℕ) where
  pub data Step (s : System) : System → Type 0 where
    -- The loop of main. The kernel gives the numbers below 256 to its first processes only.
    fork :
        (p : ℕ)
        → s.parent.is_over ≡ false
        → s.parent.place ≡ outside
        → s.interrupt ≡ quiet
        → s.round ≡ before_fork
        → s.parent.forked < s.parent.all_children
        → 255 < p
        → Step s (record s {
          round = returned p;
          kids = s.kids ++ record { number = p; stage = working } ∷ [];
        })
    fork_fails :
        s.parent.is_over ≡ false
        → s.parent.place ≡ outside
        → s.interrupt ≡ quiet
        → s.round ≡ before_fork
        → s.parent.forked < s.parent.all_children
        → Step s (record s { parent = record s.parent { is_over = true } })
    assign :
        (p : ℕ)
        → s.parent.is_over ≡ false
        → s.parent.place ≡ outside
        → s.interrupt ≡ quiet
        → s.round ≡ returned p
        → Step s (record s { parent = assign_pid p s.parent; round = assigned p })
    store :
        (p m : ℕ)
        → s.parent.is_over ≡ false
        → s.parent.place ≡ outside
        → s.interrupt ≡ quiet
        → s.round ≡ assigned p
        → s.parent.n ≡ pos m
        → Step s (record s { parent = store_child m p s.parent; round = stored })
    -- The entry stands in front of the table, and the model does not follow the parent further.
    store_outside :
        (p m : ℕ)
        → s.parent.is_over ≡ false
        → s.parent.place ≡ outside
        → s.interrupt ≡ quiet
        → s.round ≡ assigned p
        → s.parent.n ≡ negsuc m
        → Step s (record s { parent = record s.parent { is_over = true } })
    count :
        s.parent.is_over ≡ false
        → s.parent.place ≡ outside
        → s.interrupt ≡ quiet
        → s.round ≡ stored
        → Step s (record s { parent = count_child s.parent; round = before_fork })
    -- The handlers of the parent. While `pid` is still 0, handler_USR sends its signal to the parent's own
    -- parent, and handler_INT does nothing.
    take_request :
        (p : ℕ)
        → s.parent.is_over ≡ false
        → s.parent.pid ≢ 0
        → s.parent.place ≡ outside
        → s.usr1 ≡ some p
        → Step s (record s { parent = handler_usr p s.parent; usr1 = none })
    take_early :
        (p : ℕ)
        → s.parent.is_over ≡ false
        → s.parent.pid ≡ 0
        → s.parent.place ≡ outside
        → s.usr1 ≡ some p
        → Step s (record s { usr1 = none; lost_requests = s.lost_requests + 1 })
    wait_returns :
        s.parent.is_over ≡ false
        → s.parent.place ≢ outside
        → GoesOn s.interrupt s.parent.place
        → Step s (record s { parent = after_wait s.parent })
    take_child :
        (x : Info)
        → s.parent.is_over ≡ false
        → s.chld ≡ some x
        → Step s (record s { parent = handler_chld x s.parent; chld = none })
    take_real :
        (number p : ℕ) (rest : List (ℕ × ℕ))
        → s.parent.is_over ≡ false
        → s.reals ≡ (number, p) ∷ rest
        → Step s (record s { parent = handler_real number p s.parent; reals = rest })
    take_interrupt :
        s.parent.is_over ≡ false
        → s.parent.pid ≢ 0
        → s.interrupt ≡ quiet
        → Step s (record s { parent = handler_int s.parent; interrupt = killing 0 s.parent.place })
    -- A round of killEmAll. Its `waitpid` ends with the child or with any handler that runs in it.
    kill_next :
        (i : ℕ) (place : Place)
        → s.parent.is_over ≡ false
        → s.interrupt ≡ killing i place
        → s.parent.place ≡ place
        → i < s.parent.all_children
        → Step s (record s { parent = kill_child i s.parent; interrupt = killing (i + 1) place })
    kill_ends :
        (i : ℕ) (place : Place)
        → s.parent.is_over ≡ false
        → s.interrupt ≡ killing i place
        → s.parent.place ≡ place
        → s.parent.all_children ≤ i
        → Step s (record s { parent = record s.parent { is_over = true } })
    -- childProcedure of the child `j`: the request, the signal that its handler_USR sends when
    -- SIGUSR1 ends `sigsuspend`, and its return.
    request : (j p : ℕ) → At j p working s → Step s (ask p (move j p suspended s))
    confirm :
        (j p random : ℕ)
        → At j p suspended s
        → Memᴰ p s.parent.permits
        → Step s (record (move j p answered s) { reals = s.reals ++ (random % span, p) ∷ [] })
    return_interval :
        (j p random : ℕ)
        → At j p answered s
        → Step s (
            finish
              (record { code = exited; si_pid = p; si_status = random % 11 })
              (move j p ended s))
    -- From outside a child is killed, or stopped and continued.
    die :
        (j p : ℕ) (stage : Stage) (x : Info)
        → At j p stage s
        → stage ≢ ended
        → is_end x.code ≡ true
        → x.si_status < 256
        → Step s (finish x (move j p ended s))
    pause :
        (j p : ℕ) (stage : Stage) (x : Info)
        → At j p stage s
        → stage ≢ ended
        → is_end x.code ≡ false
        → x.si_status < 256
        → Step s (record s { chld = post x s.chld })

  pub data Reach (s : System) : System → Type 0 where
    here : Reach s s
    next : {t u : System} → Reach s t → Step t u → Reach s u
