-- ===== src/Barbershop/Protocol/Room.antt =====
-- More counts of Operating-systems/lab7/zad1: who holds BarberSleeps, where a sleeping barber stands, and
-- that no client is lost.
use agh_ust_projects.Prelude.{ℕ, zero, suc, ◌+◌, ◌≡◌, ◌⊎◌, length, arith}
use agh_ust_projects.Barbershop.Protocol.{
  System, Step, by_barber, by_client, b_wait_wr, b_wait_sleep, b_sleep, b_signal_slept, b_wake,
  b_seat_woken, b_call, b_signal_called, b_ready, b_invite, b_seat_invited, b_done, c_wait_wr,
  c_wait_sleep, c_wake, c_signal_woke, c_ready_woke, c_sit, c_signal_sat, c_ready_sat, c_accept,
  c_wait_up, c_get_up, c_seat, c_come_back, c_disappear, c_turn_away, c_signal_full,
}
use agh_ust_projects.Barbershop.Protocol.Invariant.{Agrees, in_queue, length-removed}

pub record Room (k w : ℕ) (s : System) : Type 0 where
  pub one_looks :
      s.sleep_sem + s.b_in + s.b_slept + s.b_called + s.c_in + s.c_woke + length s.c_sat ≡ 1
  pub woken_seats :
      (s.b_slept + s.b_asleep + s.b_woken ≡ 0) ⊎ (length s.invites + s.c_invited + s.c_up ≡ 0)
  pub asleep : (s.barber_sleeps ≡ 0) ⊎ (w + 1 ≡ s.b_slept + s.b_asleep)
  pub clients :
      s.c_start
        + s.c_wr
        + s.c_in
        + s.c_woke
        + s.c_waking
        + length s.c_sat
        + length s.c_sitting
        + length s.c_waiting
        + s.c_invited
        + s.c_up
        + s.c_chair
        + s.c_cut
        + s.c_full
        + s.c_left
      ≡ k

pub Step-Room :
    (n k w : ℕ) {s t : System} (st : Step s t)
    → Agrees n w s
    → Room k w s
    → Room k (in_queue st w) t
Step-Room n k w (by_barber (b_wait_wr a b)) g v = omega (arith, g.1, v)
Step-Room n k w (by_barber (b_wait_sleep a b)) g v = omega (arith, g.1, v)
Step-Room n k w (by_barber (b_sleep a b)) g v = omega (arith, g.1, v)
Step-Room n k w (by_barber (b_signal_slept a)) g v = omega (arith, g.1, v)
Step-Room n k w (by_barber (b_wake a b)) g v = omega (arith, g.1, v)
Step-Room n k w (by_barber (b_seat_woken a b)) g v = omega (arith, g.1, v)
Step-Room n k zero (by_barber (b_call a b)) g v = absurd (b (omega (arith, g.1)))
Step-Room n k (suc w) (by_barber (b_call a b)) g v = omega (arith, g.1, v)
Step-Room n k w (by_barber (b_signal_called a)) g v = omega (arith, g.1, v)
Step-Room n k w (by_barber (b_ready a b)) g v = omega (arith, g.1, v)
Step-Room n k w (by_barber (b_invite a)) g v = omega (arith, g.1, v)
Step-Room n k w (by_barber (b_seat_invited a b)) g v = omega (arith, g.1, v)
Step-Room n k w (by_barber (b_done a)) g v = omega (arith, g.1, v)
Step-Room n k w (by_client (c_wait_wr a b)) g v = omega (arith, g.1, v)
Step-Room n k w (by_client (c_wait_sleep a b)) g v = omega (arith, g.1, v)
Step-Room n k w (by_client (c_wake a b d)) g v = omega (arith, g.1, v)
Step-Room n k w (by_client (c_signal_woke a)) g v = omega (arith, g.1, v)
Step-Room n k w (by_client (c_ready_woke a)) g v = omega (arith, g.1, v)
Step-Room n k w (by_client (c_sit pid a b d)) g v = omega (arith, g.1, v, d)
Step-Room n k w {s} (by_client (c_signal_sat i as' bs e)) g v =
    omega (arith, g.1, v, length-removed i s.c_sat as' bs e)
Step-Room n k w {s} (by_client (c_ready_sat i as' bs e)) g v =
    omega (arith, g.1, v, length-removed i s.c_sitting as' bs e)
Step-Room n k w {s} (by_client (c_accept i as' bs cs ds e f)) g v =
    omega (arith, g.1, v, length-removed i s.c_waiting as' bs e, length-removed i s.invites cs ds f)
Step-Room n k w (by_client (c_wait_up a b)) g v = omega (arith, g.1, v)
Step-Room n k w (by_client (c_get_up a)) g v = omega (arith, g.1, v)
Step-Room n k w (by_client (c_seat a)) g v = omega (arith, g.1, v)
Step-Room n k w (by_client (c_come_back a b)) g v = omega (arith, g.1, v)
Step-Room n k w (by_client (c_disappear a b)) g v = omega (arith, g.1, v)
Step-Room n k w (by_client (c_turn_away a b)) g v = omega (arith, g.1, v)
Step-Room n k w (by_client (c_signal_full a)) g v = omega (arith, g.1, v)
