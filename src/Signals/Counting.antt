-- ===== src/Signals/Counting.antt =====
-- Operating-systems/lab4/zad3/main.c: a parent sends `L` signals to its child and a last one, and both
-- count what they get. `Type` 1 sends SIGUSR1 without waiting, 2 waits for a confirmation in
-- `sigsuspend` each time, 3 sends SIGRTMIN. A handler is a function on the globals of the process that
-- runs it, which gives the signal that it sends to the other process.
pub mod Handlers
pub mod System
use agh_ust_projects.Prelude.{
  ℕ, suc, ◌+◌, List, [], ◌∷◌, ◌++◌, Option, none, some, Bool, true, false, ◌==◌, ltb, ◌||◌,
  if◌then◌else◌,
}
use agh_ust_projects.Prelude.Int.{ℤ, pos, negsuc}
use agh_ust_projects.CLibrary.{atoi}

pub data Signal : Type 0 where
  usr1 usr2 rt_min rt_max : Signal

-- The signals that are pending at a process: one of a standard signal, any number of a real-time one.
pub record Pending : Type 0 where
  pub usr1 : ℕ
  pub usr2 : ℕ
  pub rt_min : ℕ
  pub rt_max : ℕ

abbrev pub nothing : Pending
nothing = record { usr1 = 0; usr2 = 0; rt_min = 0; rt_max = 0 }

abbrev pub raise : Signal → Pending → Pending
raise usr1 p = record p { usr1 = 1 }
raise usr2 p = record p { usr2 = 1 }
raise rt_min p = record p { rt_min = p.rt_min + 1 }
raise rt_max p = record p { rt_max = p.rt_max + 1 }

abbrev pub raise_some : Option Signal → Pending → Pending
raise_some none p = p
raise_some (some signal) p = raise signal p

-- A line that is printed.
pub data Output : Type 0 where
  got_int sends_last got_confirmation confirms : Output
  sends gets : Signal → Output
  ends_work : ℕ → Output
  summary : ℕ → ℕ → Output

-- The globals of one of the two processes; `pid` is 0 in the child.
pub record Process : Type 0 where
  pub pid : ℕ
  pub kind : ℕ
  pub l : ℕ
  -- wyslane_do_potomka, odebrane_przez_potomka and odebrane_od_potomka.
  pub sent_to_child : ℕ
  pub received_by_child : ℕ
  pub received_from_child : ℕ
  pub out : List Output
  pub is_over : Bool

pub data Start : Type 0 where
  too_few bad_type bad_l : Start
  started : Process → Start

unfoldable pub new_process : ℕ → ℕ → Process
new_process l kind = record {
  pid = 0;
  kind = kind;
  l = l;
  sent_to_child = 0;
  received_by_child = 0;
  received_from_child = 0;
  out = [];
  is_over = false;
}

abbrev check_l : ℤ → ℕ → Start
check_l (pos (suc l)) kind = started (new_process (suc l) kind)
check_l _ kind = bad_l

abbrev check_type : ℤ → ℤ → Start
check_type l (pos kind) = if kind == 0 || ltb 3 kind then bad_type else check_l l kind
check_type l _ = bad_type

-- main up to `fork`, on the words of the command line behind the program's name.
unfoldable pub main : List (List ℕ) → Start
main (l ∷ kind ∷ rest) = check_type (atoi l) (atoi kind)
main _ = too_few

abbrev say : List Output → Process → Process
say lines s = record s { out = s.out ++ lines }

-- The last signal that handler_INT sends.
abbrev pub last_on_int : ℕ → Signal
last_on_int kind = if kind == 1 then usr2 else rt_max

abbrev pub leave_on_int : Process → Process × Option Signal
leave_on_int s = (
  record (say (got_int ∷ sends_last ∷ []) s) {
    sent_to_child = s.sent_to_child + 1;
    is_over = true;
  },
  some (last_on_int s.kind),
)

unfoldable pub handler_int : Process → Process × Option Signal
handler_int s = if s.pid == 0 then (s, none) else leave_on_int s

-- handler_USR1 and handler_REALMIN in the parent: a confirmation.
abbrev pub count_confirmation : Process → Process × Option Signal
count_confirmation s = (
  record (say (got_confirmation ∷ []) s) { received_from_child = s.received_from_child + 1 },
  none,
)

-- The same in the child: the signal is counted and confirmed.
abbrev pub count_signal : Signal → Process → Process × Option Signal
count_signal signal s = (
  record (say (gets signal ∷ confirms ∷ []) s) { received_by_child = s.received_by_child + 1 },
  some signal,
)

unfoldable pub handler_usr1 : Process → Process × Option Signal
handler_usr1 s = if s.pid == 0 then count_signal usr1 s else count_confirmation s

unfoldable pub handler_realmin : Process → Process × Option Signal
handler_realmin s = if s.pid == 0 then count_signal rt_min s else count_confirmation s

-- handler_USR2 and handler_REALMAX, which only the child runs.
unfoldable pub handler_usr2 : Process → Process
handler_usr2 s = record (say (ends_work s.received_by_child ∷ []) s) { is_over = true }

unfoldable pub handler_realmax : Process → Process
handler_realmax s = record (say (ends_work s.received_by_child ∷ []) s) { is_over = true }

-- The signal of a round of main, and the last one.
abbrev pub round_signal : ℕ → Signal
round_signal kind = if kind == 3 then rt_min else usr1

abbrev pub last_signal : ℕ → Signal
last_signal kind = if kind == 3 then rt_max else usr2

-- `printf`, `wyslane_do_potomka++` and `kill`.
unfoldable pub send : Signal → Process → Process
send signal s = record (say (sends signal ∷ []) s) { sent_to_child = s.sent_to_child + 1 }

-- The two lines at the end of main, and `exit`.
unfoldable pub report : Process → Process
report s = record (say (summary s.sent_to_child s.received_from_child ∷ []) s) { is_over = true }
