-- ===== src/Barbershop/Examples.antt =====
-- The theorems on the waiting room of Operating-systems/lab7/zad1/barbershop.h at a concrete queue.
use agh_ust_projects.Prelude.{append_cons_ne, sym, ◌+◌, ◌≤◌, ◌≡◌, refl, replicate, arith, [], ◌∷◌}
use agh_ust_projects.Prelude.Int.{pos}
use agh_ust_projects.Barbershop.Fifo.{FifoQ, max_wr_seats, no_client, enqueue, dequeue}
use agh_ust_projects.Barbershop.Fifo.Refine.{
  Holds, Enqueued, Dequeued, enqueue_refines, dequeue_refines,
}
use agh_ust_projects.Barbershop.Protocol.{
  System, init, by_client, by_barber, Reach, here, next, BarberStep, ClientStep, b_call, b_done,
  b_invite, b_ready, b_seat_invited, b_seat_woken, b_signal_called, b_signal_slept, b_sleep,
  b_wait_sleep, b_wait_wr, b_wake, c_accept, c_come_back, c_disappear, c_get_up, c_ready_sat,
  c_ready_woke, c_seat, c_signal_full, c_signal_sat, c_signal_woke, c_sit, c_turn_away,
  c_wait_sleep, c_wait_up, c_wait_wr, c_wake,
}
use agh_ust_projects.Barbershop.Protocol.Progress.{Stuck, no_deadlock}
use agh_ust_projects.Barbershop.Protocol.Invariant.{one_in_chair}

abbrev zeroed : FifoQ
zeroed = record {
  front = 0;
  end = 0;
  size = 0;
  n = pos 0;
  queue = replicate max_wr_seats no_client;
}

-- Three seats, of which the last and the first are taken.
abbrev two_waiting : FifoQ
two_waiting = record {
  front = 2;
  end = 0;
  size = 3;
  n = pos 2;
  queue =
      record { id = 0; pid = 41 } ∷ record { id = 1; pid = 17 } ∷ record { id = 2; pid = 30 } ∷ [];
}

two_waiting-Holds : Holds two_waiting 2
two_waiting-Holds = record {
  counted = refl;
  fits = omega arith;
  some_seat = omega arith;
  room = omega arith;
  front_in = omega arith;
  end_in = omega arith;
  last = refl;
  numbered = (refl, (refl, tt));
}

enqueue_refines_example : Enqueued two_waiting 2 55 (enqueue two_waiting 55)
enqueue_refines_example = enqueue_refines two_waiting 2 55 two_waiting-Holds (omega arith)

dequeue_refines_example : Dequeued two_waiting 1 (dequeue two_waiting)
dequeue_refines_example = dequeue_refines two_waiting 1 two_waiting-Holds

-- A client sits down, and the barber comes to look.
abbrev opened : System
opened = init zeroed 3 1

abbrev at_door : System
at_door = record opened { c_start = 0; wr_seats = 0; c_wr = 1 }

abbrev in_room : System
in_room = record at_door { c_wr = 0; sleep_sem = 0; c_in = 1 }

abbrev sat : System
sat = record in_room {
  c_in = 0;
  free_seats = 2;
  fifo = (enqueue in_room.fifo 17).1;
  wr_seats = 1;
  c_sat = (enqueue in_room.fifo 17).0 ∷ [];
}

abbrev sitting : System
sitting = record sat { c_sat = []; sleep_sem = 1; c_sitting = (enqueue in_room.fifo 17).0 ∷ [] }

abbrev at_work : System
at_work = record sitting { b_start = 0; wr_seats = 0; b_wr = 1 }

abbrev looking : System
looking = record at_work { b_wr = 0; sleep_sem = 0; b_in = 1 }

in_room-Reach : Reach opened in_room
in_room-Reach =
    next (next here (by_client (c_wait_wr (omega arith) (omega arith))))
      (by_client (c_wait_sleep (omega arith) (omega arith)))

looking-Reach : Reach opened looking
looking-Reach =
    next
      (next
        (next (next in_room-Reach (by_client (c_sit 17 (omega arith) (omega arith) refl)))
          (by_client (c_signal_sat (enqueue in_room.fifo 17).0 [] [] refl)))
        (by_barber (b_wait_wr (omega arith) (omega arith))))
      (by_barber (b_wait_sleep (omega arith) (omega arith)))

one_in_chair_example :
    (looking.c_chair + looking.c_cut ≤ 1 + looking.cut_done)
    × (looking.b_cutting + looking.cut_done ≤ looking.c_cut)
one_in_chair_example = one_in_chair zeroed 3 1 refl (omega arith) (omega arith) looking-Reach

barbers : {s t u : System} → BarberStep t u → Reach s t → Reach s u
barbers st r = next r (by_barber st)

clients : {s t u : System} → ClientStep t u → Reach s t → Reach s u
clients st r = next r (by_client st)

-- A client wakes the barber, gets a cut and disappears, and the barber falls asleep again.
abbrev closed : (s : System) × Reach opened s
closed = (
  _,
  barbers (b_signal_slept (omega arith)) (
      barbers (b_sleep (omega arith) refl) (
        barbers (b_wait_sleep (omega arith) (omega arith)) (
          barbers (b_wait_wr (omega arith) (omega arith)) (
            clients (c_disappear (omega arith) (omega arith)) (
              barbers (b_done (omega arith)) (
                barbers (b_seat_woken (omega arith) (omega arith)) (
                  clients (c_seat (omega arith)) (
                    barbers (b_wake (omega arith) (omega arith)) (
                      clients (c_ready_woke (omega arith)) (
                        clients (c_signal_woke (omega arith)) (
                          clients (c_wake (omega arith) (omega arith) refl) (
                            clients (c_wait_sleep (omega arith) (omega arith)) (
                              clients (c_wait_wr (omega arith) (omega arith)) (
                                barbers (b_signal_slept (omega arith)) (
                                  barbers (b_sleep (omega arith) refl) (
                                    barbers (b_wait_sleep (omega arith) (omega arith)) (
                                      barbers (b_wait_wr (omega arith) (omega arith))
                                        here))))))))))))))))),
)

closed-Stuck : Stuck closed.0
closed-Stuck t (by_barber (b_wait_wr a b)) = omega arith
closed-Stuck t (by_barber (b_wait_sleep a b)) = omega arith
closed-Stuck t (by_barber (b_sleep a b)) = omega arith
closed-Stuck t (by_barber (b_signal_slept a)) = omega arith
closed-Stuck t (by_barber (b_wake a b)) = omega arith
closed-Stuck t (by_barber (b_seat_woken a b)) = omega arith
closed-Stuck t (by_barber (b_call a b)) = omega arith
closed-Stuck t (by_barber (b_signal_called a)) = omega arith
closed-Stuck t (by_barber (b_ready a b)) = omega arith
closed-Stuck t (by_barber (b_invite a)) = omega arith
closed-Stuck t (by_barber (b_seat_invited a b)) = omega arith
closed-Stuck t (by_barber (b_done a)) = omega arith
closed-Stuck t (by_client (c_wait_wr a b)) = omega arith
closed-Stuck t (by_client (c_wait_sleep a b)) = omega arith
closed-Stuck t (by_client (c_wake a b d)) = omega arith
closed-Stuck t (by_client (c_signal_woke a)) = omega arith
closed-Stuck t (by_client (c_ready_woke a)) = omega arith
closed-Stuck t (by_client (c_sit pid a b d)) = omega arith
closed-Stuck t (by_client (c_wait_up a b)) = omega arith
closed-Stuck t (by_client (c_get_up a)) = omega arith
closed-Stuck t (by_client (c_seat a)) = omega arith
closed-Stuck t (by_client (c_come_back a b)) = omega arith
closed-Stuck t (by_client (c_disappear a b)) = omega arith
closed-Stuck t (by_client (c_turn_away a b)) = omega arith
closed-Stuck t (by_client (c_signal_full a)) = omega arith
closed-Stuck t (by_client (c_signal_sat i as' bs e)) = append_cons_ne as' bs i (sym e)
closed-Stuck t (by_client (c_ready_sat i as' bs e)) = append_cons_ne as' bs i (sym e)
closed-Stuck t (by_client (c_accept i as' bs cs ds e f)) = append_cons_ne as' bs i (sym e)

no_deadlock_example :
    (let s = closed.0 in
      (s.b_asleep ≡ 1) × (s.barber_sleeps ≡ 1) × (s.c_left ≡ 1) × (s.free_seats ≡ 3))
no_deadlock_example = no_deadlock zeroed 3 1 refl (omega arith) (omega arith) closed.1 closed-Stuck
