-- ===== src/Barbershop/Protocol/Invariant.antt =====
-- What holds in every interleaving of the barber and the clients of Operating-systems/lab7/zad1.
use agh_ust_projects.Prelude.{
  ℕ, zero, suc, ◌+◌, ◌%◌, ◌≤◌, ◌<◌, ◌≡◌, ◌≢◌, refl, List, ◌∷◌, ◌++◌, length, length-append, arith,
  ap,
}
use agh_ust_projects.Prelude.Int.{pos}
use agh_ust_projects.Barbershop.Fifo.{FifoQ, max_wr_seats, init_q, enqueue, dequeue}
use agh_ust_projects.Barbershop.Fifo.Refine.{Holds, init-Holds, enqueue_refines, dequeue_refines}
use agh_ust_projects.Barbershop.Protocol.{
  System, init, Step, by_barber, by_client, b_wait_wr, b_wait_sleep, b_sleep, b_signal_slept,
  b_wake, b_seat_woken, b_call, b_signal_called, b_ready, b_invite, b_seat_invited, b_done,
  c_wait_wr, c_wait_sleep, c_wake, c_signal_woke, c_ready_woke, c_sit, c_signal_sat, c_ready_sat,
  c_accept, c_wait_up, c_get_up, c_seat, c_come_back, c_disappear, c_turn_away, c_signal_full,
  Reach, here, next,
}

-- The counts that the steps keep, while `w` clients are in the queue.
pub record Counts (n w : ℕ) (s : System) : Type 0 where
  pub size : s.fifo.size ≡ n
  pub all_seats : s.seats ≡ n
  pub one_in_room : s.wr_seats + s.c_wr + s.c_in + s.c_full + s.c_up + s.b_wr + s.b_in ≡ 1
  pub one_barber :
      s.b_start + s.b_wr + s.b_in + s.b_slept + s.b_asleep + s.b_woken + s.b_called + s.b_calling
        + s.b_inviting + s.b_expecting + s.b_cutting
      ≡ 1
  pub seated :
      s.free_seats
        + w
        + s.b_called
        + s.b_calling
        + s.b_inviting
        + length s.invites
        + s.c_invited
        + s.c_up
      ≡ n
  pub called :
      s.barber_sleeps
        + s.c_woke
        + s.c_waking
        + s.b_called
        + s.b_calling
        + s.b_inviting
        + length s.invites
        + s.c_invited
        + s.c_up
        + s.c_chair
        + s.bs_seat
      ≡ s.b_slept + s.b_asleep + s.b_woken + s.b_called + s.b_calling + s.b_inviting + s.b_expecting
  pub cuts : s.c_cut ≡ s.bs_seat + s.b_cutting + s.cut_done
  pub queued :
      w + s.b_called + s.b_calling + s.b_inviting + length s.invites
      ≡ length s.c_sat + length s.c_sitting + length s.c_waiting
  pub ready :
      s.cust_ready + s.c_woke + s.c_waking + length s.c_sat + length s.c_sitting + s.barber_sleeps
      ≡ w + s.b_called + s.b_calling + s.b_slept + s.b_asleep

pub length-removed :
    (i : ℕ) (xs as' bs : List ℕ) → xs ≡ as' ++ i ∷ bs → length xs ≡ suc (length (as' ++ bs))
length-removed i xs as' bs e =
    omega (arith, ap (λ (l : List ℕ). length l) e, length-append as' (i ∷ bs), length-append as' bs)

enqueue_size : (q : FifoQ) (pid : ℕ) → (enqueue q pid).1.size ≡ q.size
unfolding enqueue
enqueue_size q pid = ground arith

pub init_q_size : (q : FifoQ) (n : ℕ) → (init_q q n).size ≡ n
unfolding init_q
init_q_size q n = refl

dequeue_size : (q : FifoQ) → (dequeue q).1.size ≡ q.size
unfolding dequeue
dequeue_size q = ground arith

-- The queue keeps its promise, and the counts agree with it, while `w` clients are in it.
abbrev pub Agrees : ℕ → ℕ → System → Type 0
Agrees n w s = Holds s.fifo w × Counts n w s

-- How many are in it behind a step.
abbrev pub in_queue : {s t : System} → Step s t → ℕ → ℕ
in_queue (by_barber (b_call a b)) zero = 0
in_queue (by_barber (b_call a b)) (suc w) = w
in_queue (by_client (c_sit pid a b d)) w = suc w
in_queue (by_barber st) w = w
in_queue (by_client st) w = w

pub Step-Agrees :
    (n w : ℕ) {s t : System} (st : Step s t) → Agrees n w s → Agrees n (in_queue st w) t
Step-Agrees n w (by_barber (b_wait_wr a b)) (h, c) = (h, omega arith)
Step-Agrees n w (by_barber (b_wait_sleep a b)) (h, c) = (h, omega arith)
Step-Agrees n w (by_barber (b_sleep a b)) (h, c) = (h, omega arith)
Step-Agrees n w (by_barber (b_signal_slept a)) (h, c) = (h, omega arith)
Step-Agrees n w (by_barber (b_wake a b)) (h, c) = (h, omega arith)
Step-Agrees n w (by_barber (b_seat_woken a b)) (h, c) = (h, omega arith)
Step-Agrees n zero {s} (by_barber (b_call a b)) (h, c) = absurd (b (omega arith))
Step-Agrees n (suc w) {s} (by_barber (b_call a b)) (h, c) =
    ((dequeue_refines s.fifo w h).0, omega (arith, dequeue_size s.fifo))
Step-Agrees n w (by_barber (b_signal_called a)) (h, c) = (h, omega arith)
Step-Agrees n w (by_barber (b_ready a b)) (h, c) = (h, omega arith)
Step-Agrees n w (by_barber (b_invite a)) (h, c) = (h, omega arith)
Step-Agrees n w (by_barber (b_seat_invited a b)) (h, c) = (h, omega arith)
Step-Agrees n w (by_barber (b_done a)) (h, c) = (h, omega arith)
Step-Agrees n w (by_client (c_wait_wr a b)) (h, c) = (h, omega arith)
Step-Agrees n w (by_client (c_wait_sleep a b)) (h, c) = (h, omega arith)
Step-Agrees n w (by_client (c_wake a b d)) (h, c) = (h, omega arith)
Step-Agrees n w (by_client (c_signal_woke a)) (h, c) = (h, omega arith)
Step-Agrees n w (by_client (c_ready_woke a)) (h, c) = (h, omega arith)
Step-Agrees n w {s} (by_client (c_sit pid a b d)) (h, c) =
    ((enqueue_refines s.fifo w pid h (omega arith)).0, omega (arith, enqueue_size s.fifo pid))
Step-Agrees n w {s} (by_client (c_signal_sat i as' bs e)) (h, c) =
    (h, omega (arith, length-removed i s.c_sat as' bs e))
Step-Agrees n w {s} (by_client (c_ready_sat i as' bs e)) (h, c) =
    (h, omega (arith, length-removed i s.c_sitting as' bs e))
Step-Agrees n w {s} (by_client (c_accept i as' bs cs ds e f)) (h, c) =
    (h, omega (arith, length-removed i s.c_waiting as' bs e, length-removed i s.invites cs ds f))
Step-Agrees n w (by_client (c_wait_up a b)) (h, c) = (h, omega arith)
Step-Agrees n w (by_client (c_get_up a)) (h, c) = (h, omega arith)
Step-Agrees n w (by_client (c_seat a)) (h, c) = (h, omega arith)
Step-Agrees n w (by_client (c_come_back a b)) (h, c) = (h, omega arith)
Step-Agrees n w (by_client (c_disappear a b)) (h, c) = (h, omega arith)
Step-Agrees n w (by_client (c_turn_away a b)) (h, c) = (h, omega arith)
Step-Agrees n w (by_client (c_signal_full a)) (h, c) = (h, omega arith)

abbrev Keeps : ℕ → System → Type 0
Keeps n s = (w : ℕ) × Holds s.fifo w × Counts n w s

Step-Keeps : (n : ℕ) {s t : System} → Step s t → Keeps n s → Keeps n t
Step-Keeps n st (w, h, c) =
    let (held, agreed) = Step-Agrees n w st (h, c) in (in_queue st w, held, agreed)

someone_waits :
    (n : ℕ) (s : System)
    → 0 < s.b_in
    → s.free_seats ≢ n
    → Keeps n s
    → (w : ℕ) × Holds s.fifo (suc w)
someone_waits n s b f (zero, v, c) = absurd (f (omega arith))
someone_waits n s b f (suc w, v, c) = (w, v)

module _ (q : FifoQ) (n k : ℕ) where
  Reach-Keeps :
      {s : System} → q.n ≡ pos 0 → 0 < n → n ≤ max_wr_seats → Reach (init q n k) s → Keeps n s
  Reach-Keeps e p h here = (0, init-Holds q n e p h, omega (arith, init_q_size q n))
  Reach-Keeps e p h (next r st) = Step-Keeps n st (Reach-Keeps e p h r)

  -- With 1 to 100 seats and a queue whose count was 0, in every interleaving of the barber and any
  -- number of clients: the queue is well formed, and the free seats, the clients in the queue and
  -- those that were called but have not yet got up from their seats are together as many as the
  -- seats.
  pub waiting_room-Holds :
      {s : System}
      → q.n ≡ pos 0
      → 0 < n
      → n ≤ max_wr_seats
      → Reach (init q n k) s
      → (w : ℕ) × Holds s.fifo w
        × (s.free_seats
              + w
              + s.b_called
              + s.b_calling
              + s.b_inviting
              + length s.invites
              + s.c_invited
              + s.c_up
            ≡ n)
  waiting_room-Holds e p h r = let v = Reach-Keeps e p h r in (v.0, v.1, v.2.seated)

  -- With 1 to 100 seats and a queue whose count was 0, in every interleaving: a barber who finds,
  -- behind the two first waits, that not all seats are free has a client in the queue.
  pub barber_finds_client :
      {s : System}
      → q.n ≡ pos 0
      → 0 < n
      → n ≤ max_wr_seats
      → Reach (init q n k) s
      → 0 < s.b_in
      → s.free_seats ≢ n
      → (w : ℕ) × Holds s.fifo (suc w)
  barber_finds_client {s} e p h r b f = someone_waits n s b f (Reach-Keeps e p h r)

  -- With 1 to 100 seats and a queue whose count was 0, in every interleaving: a client who finds a
  -- free seat, behind the two first waits, finds room in the queue, and the seat that it would get
  -- is the first behind those that are taken.
  pub client_finds_seat :
      {s : System} (pid : ℕ)
      → q.n ≡ pos 0
      → 0 < n
      → n ≤ max_wr_seats
      → Reach (init q n k) s
      → 0 < s.c_in
      → 0 < s.free_seats
      → (w : ℕ) × Holds s.fifo w
        × (w < s.fifo.size)
        × ((enqueue s.fifo pid).0 ≡ (s.fifo.front + w) % s.fifo.size)
  client_finds_seat {s} pid e p h r b f =
      let (w, v, c) = Reach-Keeps e p h r in
      let room : w < s.fifo.size = omega (arith, c.size, c.seated) in
      (w, v, room, (enqueue_refines s.fifo w pid v room).1)

  -- With 1 to 100 seats and a queue whose count was 0, in every interleaving of the barber and any
  -- number of clients: the clients that are in the chair or wait for the end of their cut are at
  -- most one more than the finished cuts that nobody has taken yet, and at least as many as those
  -- and the cut at hand.
  pub one_in_chair :
      {s : System}
      → q.n ≡ pos 0
      → 0 < n
      → n ≤ max_wr_seats
      → Reach (init q n k) s
      → (s.c_chair + s.c_cut ≤ 1 + s.cut_done) × (s.b_cutting + s.cut_done ≤ s.c_cut)
  one_in_chair e p h r = let v = (Reach-Keeps e p h r).2 in omega arith
