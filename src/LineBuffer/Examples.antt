-- ===== src/LineBuffer/Examples.antt =====
-- The theorems on Operating-systems/lab9 at a run that puts a line and takes it.
use agh_ust_projects.Prelude.{◌+◌, ◌*◌, length, ◌≤◌, ◌<◌, ◌≡◌, refl, arith, List, [], ◌∷◌, ◌++◌}
use agh_ust_projects.LineBuffer.{Line, init_buffer, put_line, take_line}
use agh_ust_projects.LineBuffer.Ring.{contents, chosen}
use agh_ust_projects.LineBuffer.Monitor
use agh_ust_projects.LineBuffer.Monitor.Invariant.{
  Hangs, OnlySpurious, monitor_lines_in_order, monitor-Hangs,
}
use agh_ust_projects.LineBuffer.Semaphores
use agh_ust_projects.LineBuffer.Semaphores.Progress
use agh_ust_projects.LineBuffer.Semaphores.Invariant.{lines_in_order, producers_hang}

abbrev line : Line
line = 111 ∷ 110 ∷ 101 ∷ []

abbrev book : List Line
book = line ∷ (116 ∷ 119 ∷ 111 ∷ []) ∷ []

-- Two producers and one consumer with a buffer of one slot.
abbrev waiting_room : Semaphores.System
waiting_room = Semaphores.init 1 0 0 2 1 book

abbrev slot_taken : Semaphores.System
slot_taken = record waiting_room { p_start = 1; not_full = 0; p_slot = 1 }

abbrev producing : Semaphores.System
producing = record slot_taken { p_slot = 0; counting = 0; p_inside = 1 }

abbrev produced : Semaphores.System
produced = record producing {
  p_inside = 0;
  buffer = put_line line producing.buffer;
  book = (116 ∷ 119 ∷ 111 ∷ []) ∷ [];
  p_filled = 1;
}

produced-Reach : Semaphores.Reach waiting_room produced
produced-Reach =
    Semaphores.next
      (Semaphores.next
        (Semaphores.next Semaphores.here (Semaphores.p_wait_slot (omega arith) (omega arith)))
        (Semaphores.p_wait_turn (omega arith) (omega arith)))
      (Semaphores.p_put line ((116 ∷ 119 ∷ 111 ∷ []) ∷ []) (omega arith) refl)

lines_in_order_example :
    (produced.buffer.taken ++ (contents produced.buffer ++ produced.book) ≡ book)
    × (produced.buffer.printed
        ≡ chosen produced.buffer.mode_l produced.buffer.l produced.buffer.taken)
lines_in_order_example = lines_in_order 1 0 0 2 1 book (omega arith) produced-Reach

producers_hang_example : (produced.p_exited ≤ 1) × (produced.p_exited < 2)
producers_hang_example = producers_hang 1 0 0 2 1 book produced-Reach (omega arith)

run_bounded_example : Progress.steps produced-Reach ≤ 10 * length book + 4 * 2
run_bounded_example = Progress.run_bounded 1 0 0 2 1 book produced-Reach

-- One producer and one consumer, until neither can go on.
abbrev delivered :
    (s : Semaphores.System) × Semaphores.Reach (Semaphores.init 1 0 0 1 1 (line ∷ [])) s
delivered = (
  _,
  after (Semaphores.p_exit (omega arith)) (
      after (Semaphores.p_end_of_book (omega arith) refl) (
        after (Semaphores.p_wait_turn (omega arith) (omega arith)) (
          after (Semaphores.p_wait_slot (omega arith) (omega arith)) (
            after (Semaphores.c_post_turn (omega arith)) (
              after (Semaphores.c_post_slot (omega arith)) (
                after (Semaphores.c_take (omega arith)) (
                  after (Semaphores.c_wait_turn (omega arith) (omega arith)) (
                    after (Semaphores.c_wait_line (omega arith) (omega arith)) (
                      after (Semaphores.p_post_turn (omega arith)) (
                        after (Semaphores.p_post_line (omega arith)) (
                          after (Semaphores.p_put line [] (omega arith) refl) (
                            after (Semaphores.p_wait_turn (omega arith) (omega arith)) (
                              after (Semaphores.p_wait_slot (omega arith) (omega arith))
                                Semaphores.here))))))))))))),
)
  where
    after :
        {s t u : Semaphores.System}
        → Semaphores.Step t u
        → Semaphores.Reach s t
        → Semaphores.Reach s u
    after st r = Semaphores.next r st

delivered-Stuck : Progress.Stuck delivered.0
delivered-Stuck t (Semaphores.p_wait_slot a b) = omega arith
delivered-Stuck t (Semaphores.p_wait_turn a b) = omega arith
delivered-Stuck t (Semaphores.p_put x rest a e) = omega arith
delivered-Stuck t (Semaphores.p_end_of_book a e) = omega arith
delivered-Stuck t (Semaphores.p_post_line a) = omega arith
delivered-Stuck t (Semaphores.p_post_turn a) = omega arith
delivered-Stuck t (Semaphores.p_exit a) = omega arith
delivered-Stuck t (Semaphores.c_wait_line a b) = omega arith
delivered-Stuck t (Semaphores.c_wait_turn a b) = omega arith
delivered-Stuck t (Semaphores.c_take a) = omega arith
delivered-Stuck t (Semaphores.c_post_slot a) = omega arith
delivered-Stuck t (Semaphores.c_post_turn a) = omega arith

delivers_all_example :
    (let s = delivered.0 in
      (s.book ≡ [])
      × (s.buffer.taken ≡ line ∷ [])
      × (s.buffer.printed ≡ chosen s.buffer.mode_l s.buffer.l (line ∷ [])))
delivers_all_example =
    Progress.delivers_all 1 0 0 1 1 (line ∷ []) (omega arith) (omega arith) (omega arith)
      delivered.1 delivered-Stuck

abbrev monitor : Monitor.System
monitor = Monitor.init 2 0 0 1 1 book

abbrev put_one : Monitor.System
put_one = record monitor {
  buffer = put_line line monitor.buffer;
  book = (116 ∷ 119 ∷ 111 ∷ []) ∷ [];
}

abbrev took_one : Monitor.System
took_one = record put_one { buffer = take_line put_one.buffer; c_ready = 0; c_signalling = 1 }

took_one-Reach : Monitor.Reach monitor took_one
unfolding put_line init_buffer
took_one-Reach =
    Monitor.next
      (Monitor.next Monitor.here
        (Monitor.p_put line ((116 ∷ 119 ∷ 111 ∷ []) ∷ []) (omega arith) (omega arith) refl refl))
      (Monitor.c_take (omega arith) (omega arith))

monitor_lines_in_order_example :
    (took_one.buffer.taken ++ (contents took_one.buffer ++ took_one.book) ≡ book)
    × (took_one.buffer.printed
        ≡ chosen took_one.buffer.mode_l took_one.buffer.l took_one.buffer.taken)
    × (took_one.buffer.count ≤ 2)
monitor_lines_in_order_example = monitor_lines_in_order 2 0 0 1 1 book (omega arith) took_one-Reach

monitor-Hangs_example :
    (s : Monitor.System) × Monitor.Reach (Monitor.init 1 3 0 2 1 (line ∷ [])) s
    × Hangs s
    × (s.buffer.taken ≡ line ∷ [])
    × OnlySpurious s
monitor-Hangs_example = monitor-Hangs 3 0 line
