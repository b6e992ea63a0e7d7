-- ===== src/Barbershop/Protocol.antt =====
-- Operating-systems/lab7/zad1: the barber's loop (barber.c) and the clients' procedure (client.c) over
-- their semaphores. A state counts the processes at each place of the code; a step moves one of them
-- over one `WAIT` or one `SIGNAL`, with the code in front of that `SIGNAL`. How many cuts a client
-- still wants is not kept: after a cut it may come back or disappear. `clientThatCame` is only
-- printed.
pub mod Invariant
pub mod Seats
pub mod Room
pub mod Progress
use agh_ust_projects.Prelude.{ℕ, zero, suc, ◌+◌, ◌-◌, ◌<◌, ◌≡◌, ◌≢◌, List, [], ◌∷◌, ◌++◌}
use agh_ust_projects.Barbershop.Fifo.{FifoQ, Client, no_client, init_q, enqueue, dequeue}

pub record System : Type 0 where
  -- `N` and the shared memory; `barber_sleeps` is a C truth value.
  pub seats : ℕ
  pub free_seats : ℕ
  pub barber_sleeps : ℕ
  pub fifo : FifoQ
  -- The semaphores. `invites` lists the seats whose semaphore in `barberInvites` was signalled, once
  -- for each signal that nobody has taken.
  pub wr_seats : ℕ
  pub sleep_sem : ℕ
  pub cust_ready : ℕ
  pub bs_seat : ℕ
  pub cut_done : ℕ
  pub invites : List ℕ
  -- The barber: at the two first waits, behind them, and then on the way of each branch: at
  -- `SIGNAL(BarberSleeps)`, at `WAIT(CustReady)`, at the invitation, at `WAIT(BSSeat)`, cutting.
  pub client_to_cut : Client
  pub b_start : ℕ
  pub b_wr : ℕ
  pub b_in : ℕ
  pub b_slept : ℕ
  pub b_asleep : ℕ
  pub b_woken : ℕ
  pub b_called : ℕ
  pub b_calling : ℕ
  pub b_inviting : ℕ
  pub b_expecting : ℕ
  pub b_cutting : ℕ
  -- The clients, likewise; `c_waiting` lists the seats of those at `WAIT(barberInvites, myID)`, and
  -- `c_sat` and `c_sitting` those of the clients on the way there.
  pub c_start : ℕ
  pub c_wr : ℕ
  pub c_in : ℕ
  pub c_woke : ℕ
  pub c_waking : ℕ
  pub c_sat : List ℕ
  pub c_sitting : List ℕ
  pub c_waiting : List ℕ
  pub c_invited : ℕ
  pub c_up : ℕ
  pub c_chair : ℕ
  pub c_cut : ℕ
  pub c_full : ℕ
  pub c_left : ℕ

-- `init_shared`, with `k` clients at the start of their procedure and the queue as it lay in memory.
abbrev pub init : FifoQ → ℕ → ℕ → System
init q n k = record {
  seats = n;
  free_seats = n;
  barber_sleeps = 0;
  fifo = init_q q n;
  wr_seats = 1;
  sleep_sem = 1;
  cust_ready = 0;
  bs_seat = 0;
  cut_done = 0;
  invites = [];
  client_to_cut = no_client;
  b_start = 1;
  b_wr = 0;
  b_in = 0;
  b_slept = 0;
  b_asleep = 0;
  b_woken = 0;
  b_called = 0;
  b_calling = 0;
  b_inviting = 0;
  b_expecting = 0;
  b_cutting = 0;
  c_start = k;
  c_wr = 0;
  c_in = 0;
  c_woke = 0;
  c_waking = 0;
  c_sat = [];
  c_sitting = [];
  c_waiting = [];
  c_invited = 0;
  c_up = 0;
  c_chair = 0;
  c_cut = 0;
  c_full = 0;
  c_left = 0;
}

-- The loop of barber.c.
pub data BarberStep (s : System) : System → Type 0 where
  b_wait_wr :
      0 < s.b_start
      → 0 < s.wr_seats
      → BarberStep s
          (record s { b_start = s.b_start - 1; wr_seats = s.wr_seats - 1; b_wr = s.b_wr + 1 })
  b_wait_sleep :
      0 < s.b_wr
      → 0 < s.sleep_sem
      → BarberStep s
          (record s { b_wr = s.b_wr - 1; sleep_sem = s.sleep_sem - 1; b_in = s.b_in + 1 })
  b_sleep :
      0 < s.b_in
      → s.free_seats ≡ s.seats
      → BarberStep s (record s {
        b_in = s.b_in - 1;
        barber_sleeps = 1;
        wr_seats = s.wr_seats + 1;
        b_slept = s.b_slept + 1;
      })
  b_signal_slept :
      0 < s.b_slept
      → BarberStep s (record s {
        b_slept = s.b_slept - 1;
        sleep_sem = s.sleep_sem + 1;
        b_asleep = s.b_asleep + 1;
      })
  b_wake :
      0 < s.b_asleep
      → 0 < s.cust_ready
      → BarberStep s (record s {
        b_asleep = s.b_asleep - 1;
        cust_ready = s.cust_ready - 1;
        b_woken = s.b_woken + 1;
      })
  b_seat_woken :
      0 < s.b_woken
      → 0 < s.bs_seat
      → BarberStep s (record s {
        b_woken = s.b_woken - 1;
        bs_seat = s.bs_seat - 1;
        b_cutting = s.b_cutting + 1;
      })
  b_call :
      0 < s.b_in
      → s.free_seats ≢ s.seats
      → BarberStep s (record s {
        b_in = s.b_in - 1;
        client_to_cut = (dequeue s.fifo).0;
        fifo = (dequeue s.fifo).1;
        wr_seats = s.wr_seats + 1;
        b_called = s.b_called + 1;
      })
  b_signal_called :
      0 < s.b_called
      → BarberStep s (record s {
        b_called = s.b_called - 1;
        sleep_sem = s.sleep_sem + 1;
        b_calling = s.b_calling + 1;
      })
  b_ready :
      0 < s.b_calling
      → 0 < s.cust_ready
      → BarberStep s (record s {
        b_calling = s.b_calling - 1;
        cust_ready = s.cust_ready - 1;
        b_inviting = s.b_inviting + 1;
      })
  b_invite :
      0 < s.b_inviting
      → BarberStep s (record s {
        b_inviting = s.b_inviting - 1;
        invites = s.client_to_cut.id ∷ s.invites;
        b_expecting = s.b_expecting + 1;
      })
  b_seat_invited :
      0 < s.b_expecting
      → 0 < s.bs_seat
      → BarberStep s (record s {
        b_expecting = s.b_expecting - 1;
        bs_seat = s.bs_seat - 1;
        b_cutting = s.b_cutting + 1;
      })
  b_done :
      0 < s.b_cutting
      → BarberStep s (record s {
        b_cutting = s.b_cutting - 1;
        cut_done = s.cut_done + 1;
        b_start = s.b_start + 1;
      })

-- `clientProc` of client.c.
pub data ClientStep (s : System) : System → Type 0 where
  c_wait_wr :
      0 < s.c_start
      → 0 < s.wr_seats
      → ClientStep s
          (record s { c_start = s.c_start - 1; wr_seats = s.wr_seats - 1; c_wr = s.c_wr + 1 })
  c_wait_sleep :
      0 < s.c_wr
      → 0 < s.sleep_sem
      → ClientStep s
          (record s { c_wr = s.c_wr - 1; sleep_sem = s.sleep_sem - 1; c_in = s.c_in + 1 })
  c_wake :
      0 < s.c_in
      → 0 < s.free_seats
      → s.barber_sleeps ≡ 1
      → ClientStep s (record s {
        c_in = s.c_in - 1;
        barber_sleeps = 0;
        wr_seats = s.wr_seats + 1;
        c_woke = s.c_woke + 1;
      })
  c_signal_woke :
      0 < s.c_woke
      → ClientStep s (record s {
        c_woke = s.c_woke - 1;
        sleep_sem = s.sleep_sem + 1;
        c_waking = s.c_waking + 1;
      })
  c_ready_woke :
      0 < s.c_waking
      → ClientStep s (record s {
        c_waking = s.c_waking - 1;
        cust_ready = s.cust_ready + 1;
        c_chair = s.c_chair + 1;
      })
  c_sit :
      (pid : ℕ)
      → 0 < s.c_in
      → 0 < s.free_seats
      → s.barber_sleeps ≡ 0
      → ClientStep s (record s {
        c_in = s.c_in - 1;
        free_seats = s.free_seats - 1;
        fifo = (enqueue s.fifo pid).1;
        wr_seats = s.wr_seats + 1;
        c_sat = (enqueue s.fifo pid).0 ∷ s.c_sat;
      })
  c_signal_sat :
      (i : ℕ) (as' bs : List ℕ)
      → s.c_sat ≡ as' ++ i ∷ bs
      → ClientStep s
          (record s { c_sat = as' ++ bs; sleep_sem = s.sleep_sem + 1; c_sitting = i ∷ s.c_sitting })
  c_ready_sat :
      (i : ℕ) (as' bs : List ℕ)
      → s.c_sitting ≡ as' ++ i ∷ bs
      → ClientStep s (record s {
        c_sitting = as' ++ bs;
        cust_ready = s.cust_ready + 1;
        c_waiting = i ∷ s.c_waiting;
      })
  -- The invitation is for whoever waits at the seat.
  c_accept :
      (i : ℕ) (as' bs cs ds : List ℕ)
      → s.c_waiting ≡ as' ++ i ∷ bs
      → s.invites ≡ cs ++ i ∷ ds
      → ClientStep s
          (record s { c_waiting = as' ++ bs; invites = cs ++ ds; c_invited = s.c_invited + 1 })
  c_wait_up :
      0 < s.c_invited
      → 0 < s.wr_seats
      → ClientStep s
          (record s { c_invited = s.c_invited - 1; wr_seats = s.wr_seats - 1; c_up = s.c_up + 1 })
  c_get_up :
      0 < s.c_up
      → ClientStep s (record s {
        c_up = s.c_up - 1;
        free_seats = s.free_seats + 1;
        wr_seats = s.wr_seats + 1;
        c_chair = s.c_chair + 1;
      })
  c_seat :
      0 < s.c_chair
      → ClientStep s
          (record s { c_chair = s.c_chair - 1; bs_seat = s.bs_seat + 1; c_cut = s.c_cut + 1 })
  c_come_back :
      0 < s.c_cut
      → 0 < s.cut_done
      → ClientStep s
          (record s { c_cut = s.c_cut - 1; cut_done = s.cut_done - 1; c_start = s.c_start + 1 })
  c_disappear :
      0 < s.c_cut
      → 0 < s.cut_done
      → ClientStep s
          (record s { c_cut = s.c_cut - 1; cut_done = s.cut_done - 1; c_left = s.c_left + 1 })
  c_turn_away :
      0 < s.c_in
      → s.free_seats ≡ 0
      → ClientStep s
          (record s { c_in = s.c_in - 1; sleep_sem = s.sleep_sem + 1; c_full = s.c_full + 1 })
  c_signal_full :
      0 < s.c_full
      → ClientStep s
          (record s { c_full = s.c_full - 1; wr_seats = s.wr_seats + 1; c_start = s.c_start + 1 })

pub data Step (s : System) : System → Type 0 where
  by_barber : {t : System} → BarberStep s t → Step s t
  by_client : {t : System} → ClientStep s t → Step s t

pub data Reach (s : System) : System → Type 0 where
  here : Reach s s
  next : {t u : System} → Reach s t → Step t u → Reach s u
