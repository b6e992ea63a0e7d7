-- ===== src/Signals/Requests.antt =====
-- Operating-systems/lab4/zad2/main.c: a parent of `N` children that grants no permit until `K` of them
-- have asked. `Parent` holds the globals and what the parent has done; the handlers are functions on
-- it. handler_USR runs up to its next `waitpid`, which any signal ends, and is blocked for itself
-- only, so that the handlers of SIGCHLD and of the real-time signals run in between (System).
pub mod Frame
pub mod Tally
pub mod Count
pub mod Served
pub mod System
use agh_ust_projects.Prelude.{
  ℕ, zero, suc, ◌+◌, ◌-◌, List, [], ◌∷◌, ◌++◌, Bool, true, false, ◌==◌, leb, ltb, if◌then◌else◌,
  get_or, set, replicate, ◌||◌,
}
use agh_ust_projects.Prelude.Int.{ℤ, pos, negsuc}
use agh_ust_projects.CLibrary.{atoi}

-- `si_code` of a SIGCHLD, and the rest of what the handler reads.
pub data Code : Type 0 where
  exited killed dumped trapped stopped continued : Code

pub record Info : Type 0 where
  pub code : Code
  pub si_pid : ℕ
  pub si_status : ℕ

-- A line that the parent prints.
pub data Output : Type 0 where
  interrupted no_children : Output
  asked permitted : ℕ → Output
  child_news : Info → Output
  real : ℕ → ℕ → Output

-- Where handler_USR stands: not running, at the `waitpid` behind a single permit, or at the
-- `waitpid` of the loop for the entry `i` of the waiting list.
pub data Place : Type 0 where
  outside waiting : Place
  looping : ℕ → Place

pub record Parent : Type 0 where
  -- `N`, `K`, `n` and `k`.
  pub all_children : ℕ
  pub needed : ℕ
  pub n : ℤ
  pub k : ℕ
  pub children : List ℕ
  pub wait_list : List ℕ
  pub pid : ℕ
  -- `i` of the loop of main.
  pub forked : ℕ
  pub place : Place
  -- What was done so far: the lines printed, the senders of the requests that handler_USR has seen,
  -- and the children that were sent SIGUSR1 and SIGKILL.
  pub out : List Output
  pub requests : List ℕ
  pub permits : List ℕ
  pub kills : List ℕ
  pub is_over : Bool

pub data Start : Type 0 where
  too_few not_positive too_many : Start
  started : Parent → Start

-- main up to its loop, on the numbers `N` and `K`.
unfoldable pub new_parent : ℕ → ℕ → Parent
new_parent all needed = record {
  all_children = all;
  needed = needed;
  n = pos 0;
  k = 0;
  children = replicate all 0;
  wait_list = replicate all 0;
  pid = 0;
  forked = 0;
  place = outside;
  out = [];
  requests = [];
  permits = [];
  kills = [];
  is_over = false;
}

abbrev check_numbers : ℤ → ℤ → Start
check_numbers (pos all) (pos needed) =
    if ltb all needed then too_many else started (new_parent all needed)
check_numbers _ _ = not_positive

-- main up to its loop, on the words of the command line behind the program's name.
unfoldable pub main : List (List ℕ) → Start
main (all ∷ needed ∷ rest) = check_numbers (atoi all) (atoi needed)
main _ = too_few

abbrev say : Output → Parent → Parent
say line s = record s { out = s.out ++ line ∷ [] }

-- `printf`, and `kill` with SIGUSR1.
unfoldable pub permit : ℕ → Parent → Parent
permit p s = record s { out = s.out ++ permitted p ∷ []; permits = s.permits ++ p ∷ [] }

-- The loop over the waiting list up to its next `waitpid`, with the rounds left.
unfoldable pub grant_from : ℕ → ℕ → Parent → Parent
grant_from zero i s = record s { place = outside }
grant_from (suc rounds) i s =
    let rest = grant_from rounds (i + 1) s in
    let p = get_or s.wait_list i 0 in
    if p == 0 then rest else record (permit p s) { place = looping i }

-- The request is put on the waiting list.
unfoldable pub enlist : ℕ → Parent → Parent
enlist p s = record s { wait_list = set s.wait_list s.k p; k = s.k + 1 }

abbrev pub when_enough : Bool → Parent → Parent
when_enough true s = grant_from s.needed 0 s
when_enough false s = s

abbrev pub serve : Bool → ℕ → Parent → Parent
serve true p s = record (permit p s) { place = waiting }
serve false p s = let listed = enlist p s in when_enough (listed.k == listed.needed) listed

-- handler_USR in the parent, where `pid` is not 0: a child answers by Step.confirm.
unfoldable pub handler_usr : ℕ → Parent → Parent
handler_usr p s =
    let heard = record (say (asked p) s) { requests = s.requests ++ p ∷ [] } in
    serve (leb s.needed s.k) p heard

-- The `waitpid` of handler_USR returns.
abbrev pub resume : Place → Parent → Parent
resume outside s = s
resume waiting s = record s { place = outside }
resume (looping i) s = grant_from (s.needed - (i + 1)) (i + 1) s

unfoldable pub after_wait : Parent → Parent
after_wait s = resume s.place s

-- removeChildFromArr: the first entry with this number is reset.
unfoldable pub remove_child : ℕ → List ℕ → List ℕ
remove_child p [] = []
remove_child p (c ∷ rest) = if c == p then 0 ∷ rest else c ∷ remove_child p rest

abbrev pub is_end : Code → Bool
is_end exited = true
is_end killed = true
is_end dumped = true
is_end _ = false

-- `n--`, `n++` and the test of `n` against 0. A SIGCHLD that comes between a `fork` and its `n++` may
-- bring `n` below 0.
abbrev pub decremented : ℤ → ℤ
decremented (pos zero) = negsuc 0
decremented (pos (suc m)) = pos m
decremented (negsuc m) = negsuc (m + 1)

abbrev pub incremented : ℤ → ℤ
incremented (pos m) = pos (m + 1)
incremented (negsuc zero) = pos 0
incremented (negsuc (suc m)) = negsuc m

abbrev pub is_zero : ℤ → Bool
is_zero (pos m) = m == 0
is_zero (negsuc m) = false

-- One case of the switch in handler_CHLD.
abbrev pub report : Bool → Info → Parent → Parent
report true x s = record (say (child_news x) s) {
  children = remove_child x.si_status s.children;
  n = decremented s.n;
}
report false x s = say (child_news x) s

abbrev pub leave_if : Bool → ℕ → Parent → Parent
leave_if true status s = record (say no_children s) { is_over = true }
leave_if false status s = record s { children = remove_child status s.children }

-- handler_CHLD looks for the status of the child, not for its number, in the table.
unfoldable pub handler_chld : Info → Parent → Parent
handler_chld x s =
    let told = report (is_end x.code) x s in leave_if (is_zero told.n) x.si_status told

-- handler_REAL.
unfoldable pub handler_real : ℕ → ℕ → Parent → Parent
handler_real number p s = say (real number p) s

-- A round of killEmAll up to its `waitpid`.
unfoldable pub kill_child : ℕ → Parent → Parent
kill_child i s =
    let c = get_or s.children i 0 in if c == 0 then s else record s { kills = s.kills ++ c ∷ [] }

-- handler_INT up to killEmAll, where `pid` is not 0.
unfoldable pub handler_int : Parent → Parent
handler_int s = say interrupted s

-- The round of the loop of main, where `fork` gives `p`: its four assignments, between which a signal may
-- be handled.
unfoldable pub assign_pid : ℕ → Parent → Parent
assign_pid p s = record s { pid = p }

unfoldable pub store_child : ℕ → ℕ → Parent → Parent
store_child m p s = record s { children = set s.children m p }

unfoldable pub count_child : Parent → Parent
count_child s = record s { n = incremented s.n; forked = s.forked + 1 }
