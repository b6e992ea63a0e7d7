-- ===== src/Signals/Requests/System/Numbers.antt =====
-- What each step of Operating-systems/lab4/zad2/main.c does to the numbers of children and requests.
use agh_ust_projects.Prelude.{
  ℕ, ◌+◌, ◌%◌, ◌≤◌, ◌≡◌, refl, ap, sym, Option, none, some, List, [], ◌∷◌, ◌++◌, true, false,
  if◌then◌else◌, arith, length, length-append,
}
use mathlib.Core.Path.{subst}
use agh_ust_projects.Signals.Pending.{post, lost, pending}
use agh_ust_projects.Signals.Requests.{
  Info, exited, is_end, handler_real, assign_pid, store_child, count_child, new_parent,
}
use agh_ust_projects.Signals.Requests.Frame.{frame, frame-handler_usr, frame-after_wait}
use agh_ust_projects.Signals.Requests.Tally.{
  Tally, tally, counted_down, tally-handler_chld, tally-handler_int, tally-kill_child,
}
use agh_ust_projects.Signals.Requests.System.{
  Child, working, suspended, answered, ended, System, init, Step, fork, fork_fails, assign, store,
  store_outside, count, take_request, take_early, wait_returns, take_child, take_real,
  take_interrupt, kill_next, kill_ends, request, confirm, return_interval, die, pause,
}
use agh_ust_projects.Signals.Requests.System.Stages.{
  living, at_work, lives_of_alive, set-Moved, append_working,
}
use agh_ust_projects.Signals.Requests.Count.{
  in_window, Counted, Counted-incremented, Counted-one_more, Counted-counted_down,
}

-- The end of a child that the parent has still to handle.
abbrev pub end_pending : Option Info → ℕ
end_pending none = 0
end_pending (some x) = if is_end x.code then 1 else 0

pub record CountsAt (all : ℕ) (f : Tally) (kids : List Child) (usr1 : Option ℕ) (chld : Option Info)
    (sent lost_requests lost_ends window : ℕ) : Type 0 where
  pub all_fixed : f.all_children ≡ all
  pub forked_all : length kids ≡ f.forked + window
  pub enough_room : f.forked + window ≤ all
  pub counted : Counted f.n window (living kids + end_pending chld + lost_ends)
  pub ends : living kids + end_pending chld + lost_ends ≤ length kids
  pub heard : length f.requests + pending usr1 + lost_requests ≡ sent
  pub asking : sent + at_work kids ≤ length kids

abbrev pub children_of : System → ℕ
children_of s = living s.kids + end_pending s.chld + s.lost_ends

abbrev pub Counts : ℕ → System → Type 0
Counts all s =
    CountsAt all (tally (frame s.parent)) s.kids s.usr1 s.chld s.sent s.lost_requests s.lost_ends
      (in_window s.round)

ask_count : (p : ℕ) (old : Option ℕ) → pending (post p old) + lost old ≡ pending old + 1
ask_count p none = omega arith
ask_count p (some q) = omega arith

end_count :
    (x : Info) (old : Option Info)
    → is_end x.code ≡ true
    → end_pending (post x old) + lost old ≡ end_pending old + 1
end_count x none e = rw e (omega arith)
end_count x (some y) e = refl

pause_count :
    (x : Info) (old : Option Info)
    → is_end x.code ≡ false
    → end_pending (post x old) ≡ end_pending old
pause_count x none e = rw e refl
pause_count x (some y) e = refl

-- What a step leaves to prove of the counts, where it changes no number but `n`.
Counts-move :
    {all : ℕ} {f : Tally} {old new : List Child} {usr1 new_usr1 : Option ℕ}
    {chld new_chld : Option Info} {sent new_sent lost new_lost ends new_ends window : ℕ}
    → CountsAt all f old usr1 chld sent lost ends window
    → length new ≡ length old
    → living new + end_pending new_chld + new_ends ≡ living old + end_pending chld + ends
    → length f.requests + pending new_usr1 + new_lost ≡ new_sent
    → new_sent + at_work new ≤ length new
    → CountsAt all f new new_usr1 new_chld new_sent new_lost new_ends window
Counts-move {f} {window} v same_length same_ends heard asking = record {
  all_fixed = v.all_fixed;
  forked_all = omega (arith, v.forked_all);
  enough_room = v.enough_room;
  counted = subst (Counted f.n window) (sym same_ends) v.counted;
  ends = omega (arith, v.ends);
  heard = heard;
  asking = asking;
}

pub Step-Counts : {all span : ℕ} {s t : System} → Step span s t → Counts all s → Counts all t
unfolding assign_pid store_child count_child handler_real tally
Step-Counts {s} (fork p live calm still at more fresh) v =
    let e : in_window s.round ≡ 0 = ap in_window at in
    let kids = append_working s.kids p in
    record {
      all_fixed = v.all_fixed;
      forked_all = omega (arith, v.forked_all, kids);
      enough_room = omega (arith, v.enough_room, v.all_fixed);
      counted =
          let grown : ℕ = living (s.kids ++ record { number = p; stage = working } ∷ []) in
          let old : ℕ = living s.kids + end_pending s.chld + s.lost_ends in
          let more_living : old + 1 ≡ grown + end_pending s.chld + s.lost_ends =
            omega (arith, kids) in
          subst (Counted s.parent.n 1) more_living
            (Counted-one_more s.parent.n old (subst (λ w. Counted s.parent.n w old) e v.counted));
      ends = omega (arith, v.ends, kids);
      heard = v.heard;
      asking = omega (arith, v.asking, kids);
    }
Step-Counts (fork_fails live calm still at more) v = v
Step-Counts {s} (assign p live calm still at) v =
    let e : in_window s.round ≡ 1 = ap in_window at in
    record {
      all_fixed = v.all_fixed;
      forked_all = omega (arith, v.forked_all);
      enough_room = omega (arith, v.enough_room);
      counted = subst (λ w. Counted s.parent.n w (children_of s)) e v.counted;
      ends = v.ends;
      heard = v.heard;
      asking = v.asking;
    }
Step-Counts {all} {s} (store p m live calm still at inside) v =
    subst
      (λ w.
        CountsAt all (tally (frame s.parent)) s.kids s.usr1 s.chld s.sent s.lost_requests
          s.lost_ends w)
      (ap in_window at) v
Step-Counts (store_outside p m live calm still at before) v = v
Step-Counts {s} (count live calm still at) v =
    let e : in_window s.round ≡ 1 = ap in_window at in
    record {
      all_fixed = v.all_fixed;
      forked_all = omega (arith, v.forked_all);
      enough_room = omega (arith, v.enough_room);
      counted =
          Counted-incremented s.parent.n (children_of s)
            (subst (λ w. Counted s.parent.n w (children_of s)) e v.counted);
      ends = v.ends;
      heard = v.heard;
      asking = v.asking;
    }
Step-Counts {all} {s} (take_request p live ready calm e) v =
    subst
      (λ f.
        CountsAt all f s.kids none s.chld s.sent s.lost_requests s.lost_ends (in_window s.round))
      (sym (ap tally (frame-handler_usr p s.parent)))
      (record {
        all_fixed = v.all_fixed;
        forked_all = v.forked_all;
        enough_room = v.enough_room;
        counted = v.counted;
        ends = v.ends;
        heard = omega (arith, v.heard, ap pending e, length-append s.parent.requests (p ∷ []));
        asking = v.asking;
      })
Step-Counts {s} (take_early p live early calm e) v =
    Counts-move v refl refl (omega (arith, v.heard, ap pending e)) v.asking
Step-Counts {all} {s} (wait_returns live busy still) v =
    subst
      (λ f.
        CountsAt all f s.kids s.usr1 s.chld s.sent s.lost_requests s.lost_ends (in_window s.round))
      (sym (ap tally (frame-after_wait s.parent))) v
Step-Counts {all} {s} (take_child x live e) v =
    let told : end_pending s.chld ≡ (if is_end x.code then 1 else 0) = ap end_pending e in
    let left : ℕ = living s.kids + s.lost_ends in
    let all_ends : living s.kids + end_pending s.chld + s.lost_ends
        ≡ left + (if is_end x.code then 1 else 0) =
      omega (arith, told) in
    subst
      (λ f.
        CountsAt all f s.kids s.usr1 none s.sent s.lost_requests s.lost_ends (in_window s.round))
      (sym (tally-handler_chld x s.parent))
      (record {
        all_fixed = v.all_fixed;
        forked_all = v.forked_all;
        enough_room = v.enough_room;
        counted =
            let same : left ≡ living s.kids + 0 + s.lost_ends = omega arith in
            subst (Counted (counted_down (is_end x.code) s.parent.n) (in_window s.round)) same (
              Counted-counted_down (is_end x.code) s.parent.n (in_window s.round) left
                (subst (Counted s.parent.n (in_window s.round)) all_ends v.counted));
        ends = omega (arith, v.ends);
        heard = v.heard;
        asking = v.asking;
      })
Step-Counts (take_real number p rest live e) v = v
Step-Counts {all} {s} (take_interrupt live ready still) v =
    subst
      (λ f.
        CountsAt all f s.kids s.usr1 s.chld s.sent s.lost_requests s.lost_ends (in_window s.round))
      (sym (tally-handler_int s.parent)) v
Step-Counts {all} {s} (kill_next i place live at stands inside) v =
    subst
      (λ f.
        CountsAt all f s.kids s.usr1 s.chld s.sent s.lost_requests s.lost_ends (in_window s.round))
      (sym (tally-kill_child i s.parent)) v
Step-Counts (kill_ends i place live at stands done) v = v
Step-Counts {s} (request j p at) v =
    let kids = set-Moved s.kids j p working suspended at in
    Counts-move v (omega (arith, kids)) (omega (arith, kids))
      (omega (arith, v.heard, ask_count p s.usr1)) (omega (arith, v.asking, kids))
Step-Counts {s} (confirm j p random at sent) v =
    let kids = set-Moved s.kids j p suspended answered at in
    Counts-move v (omega (arith, kids)) (omega (arith, kids)) v.heard
      (omega (arith, v.asking, kids))
Step-Counts {s} (return_interval j p random at) v =
    let kids = set-Moved s.kids j p answered ended at in
    let one =
      end_count (record { code = exited; si_pid = p; si_status = random % 11 }) s.chld refl in
    Counts-move v (omega (arith, kids)) (omega (arith, kids, one)) v.heard
      (omega (arith, v.asking, kids))
Step-Counts {s} (die j p stage x at alive is_last small) v =
    let kids = set-Moved s.kids j p stage ended at in
    Counts-move v (omega (arith, kids))
      (omega (arith, kids, end_count x s.chld is_last, lives_of_alive stage alive)) v.heard
      (omega (arith, v.asking, kids))
Step-Counts {s} (pause j p stage x at alive goes_on small) v =
    Counts-move v refl (omega (arith, pause_count x s.chld goes_on)) v.heard v.asking

pub init-Counts : (all needed : ℕ) → Counts all (init all needed)
unfolding new_parent tally
init-Counts all needed = record {
  all_fixed = refl;
  forked_all = omega arith;
  enough_room = omega arith;
  counted = omega arith;
  ends = omega arith;
  heard = omega arith;
  asking = omega arith;
}
