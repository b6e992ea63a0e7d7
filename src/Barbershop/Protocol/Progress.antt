-- ===== src/Barbershop/Protocol/Progress.antt =====
-- The barber and the clients of Operating-systems/lab7/zad1 never wait for each other forever.
use agh_ust_projects.Prelude.{
  ℕ, ◌+◌, ◌≤◌, ◌<◌, ◌≡◌, ◌≢◌, ◌⊎◌, refl, ap, List, [], ◌∷◌, inl, inr, length, arith, dec_lt,
  ℕ_discrete,
}
use agh_ust_projects.Prelude.Int.{pos}
use agh_ust_projects.Barbershop.Fifo.{FifoQ, max_wr_seats}
use agh_ust_projects.Barbershop.Fifo.Refine.{init-Holds}
use agh_ust_projects.Barbershop.Protocol.{
  System, init, Step, by_barber, by_client, b_wait_wr, b_wait_sleep, b_sleep, b_signal_slept,
  b_wake, b_seat_woken, b_call, b_signal_called, b_ready, b_invite, b_seat_invited, b_done,
  c_wait_wr, c_wait_sleep, c_wake, c_signal_woke, c_ready_woke, c_sit, c_signal_sat, c_ready_sat,
  c_accept, c_wait_up, c_get_up, c_seat, c_disappear, c_turn_away, c_signal_full, Reach, here, next,
}
use agh_ust_projects.Barbershop.Protocol.Invariant.{
  Counts, Agrees, in_queue, init_q_size, Step-Agrees,
}
use agh_ust_projects.Barbershop.Protocol.Room.{Room, Step-Room}
use agh_ust_projects.Barbershop.Protocol.Seats.{Seats, Step-Seats, occurs, occurs-split}

abbrev pub Stuck : System → Type 0
Stuck s = (t : System) → ¬ Step s t

none_of : {m : ℕ} → ¬ (0 < m) → m ≡ 0
none_of h = omega (arith, h)

one_is_none : {a b : ℕ} → (0 < a → 0 < b → ⊥) → (a ≡ 0) ⊎ (b ≡ 0)
one_is_none {a} {b} h = elim (dec_lt 0 a) [
  | yes one ↦ inr (none_of (h one))
  | no none ↦ inl (none_of none)
]

empty_of : (xs : List ℕ) → ((x : ℕ) (rest : List ℕ) → xs ≢ x ∷ rest) → xs ≡ []
empty_of [] h = refl
empty_of (x ∷ xs) h = absurd (h x xs refl)

occurs_head : (i : ℕ) (rest : List ℕ) → 0 < occurs i (i ∷ rest)
occurs_head i rest = ground arith

-- Nobody is on the way to a wait.
record Quiet (s : System) : Type 0 where
  barber : s.b_in + s.b_slept + s.b_called + s.b_inviting + s.b_cutting ≡ 0
  clients : s.c_in + s.c_woke + s.c_waking + s.c_up + s.c_chair + s.c_full ≡ 0
  sat : s.c_sat ≡ []
  sitting : s.c_sitting ≡ []

module _ {n k w : ℕ} {s : System} (stuck : Stuck s) (g : Counts n w s) (v : Room k w s) where
  barber_outside : s.b_in ≡ 0
  barber_outside = none_of (λ one. elim (ℕ_discrete s.free_seats s.seats) [
    | yes all_free ↦ stuck _ (by_barber (b_sleep one all_free))
    | no taken ↦ stuck _ (by_barber (b_call one taken))
  ])

  client_outside : s.c_in ≡ 0
  client_outside = none_of (λ one. elim (dec_lt 0 s.free_seats) [
    | yes free ↦ elim (ℕ_discrete s.barber_sleeps 0) [
      | yes awake ↦ stuck _ (by_client (c_sit 0 one free awake))
      | no sleeps ↦
          stuck _ (by_client (c_wake one free (omega (arith, g.called, g.one_barber, sleeps))))
    ]
    | no full ↦ stuck _ (by_client (c_turn_away one (none_of full)))
  ])

  Stuck-Quiet : Quiet s
  Stuck-Quiet = record {
    barber = omega (
      arith,
      barber_outside,
      none_of (λ one. stuck _ (by_barber (b_signal_slept one))),
      none_of (λ one. stuck _ (by_barber (b_signal_called one))),
      none_of (λ one. stuck _ (by_barber (b_invite one))),
      none_of (λ one. stuck _ (by_barber (b_done one))),
    );
    clients = omega (
      arith,
      client_outside,
      none_of (λ one. stuck _ (by_client (c_signal_woke one))),
      none_of (λ one. stuck _ (by_client (c_ready_woke one))),
      none_of (λ one. stuck _ (by_client (c_get_up one))),
      none_of (λ one. stuck _ (by_client (c_seat one))),
      none_of (λ one. stuck _ (by_client (c_signal_full one))),
    );
    sat = empty_of s.c_sat (λ x rest e. stuck _ (by_client (c_signal_sat x [] rest e)));
    sitting = empty_of s.c_sitting (λ x rest e. stuck _ (by_client (c_ready_sat x [] rest e)));
  }

  looks_free : 0 < s.sleep_sem
  looks_free = omega (arith, v.one_looks, Stuck-Quiet, ap length (Stuck-Quiet.sat))

  room_free : 0 < s.wr_seats
  room_free = omega (
    arith,
    g.one_in_room,
    Stuck-Quiet,
    none_of (λ one. stuck _ (by_barber (b_wait_sleep one looks_free))),
    none_of (λ one. stuck _ (by_client (c_wait_sleep one looks_free))),
  )

  -- Whoever waits at a seat gets the invitation to it.
  no_invitation : Seats w s → length s.invites ≡ 0
  no_invitation seats = ap length (
      empty_of s.invites (λ i rest e.
        let waits : 0 < occurs i s.c_waiting = omega (
          arith,
          seats i,
          ap (occurs i) e,
          ap (occurs i) Stuck-Quiet.sat,
          ap (occurs i) Stuck-Quiet.sitting,
          occurs_head i rest,
        ) in
        let (as', bs, at) = occurs-split i s.c_waiting waits in
        stuck _ (by_client (c_accept i as' bs [] rest at e))))

  Stuck-asleep :
      Seats w s → (s.b_asleep ≡ 1) × (s.barber_sleeps ≡ 1) × (s.c_left ≡ k) × (s.free_seats ≡ n)
  Stuck-asleep seats = omega (
    arith,
    g,
    v,
    Stuck-Quiet,
    ap length Stuck-Quiet.sat,
    ap length Stuck-Quiet.sitting,
    no_invitation seats,
    none_of (λ one. stuck _ (by_barber (b_wait_sleep one looks_free))),
    none_of (λ one. stuck _ (by_client (c_wait_sleep one looks_free))),
    none_of (λ one. stuck _ (by_barber (b_wait_wr one room_free))),
    none_of (λ one. stuck _ (by_client (c_wait_wr one room_free))),
    none_of (λ one. stuck _ (by_client (c_wait_up one room_free))),
    one_is_none (λ one two. stuck _ (by_barber (b_wake one two))),
    one_is_none (λ one two. stuck _ (by_barber (b_seat_woken one two))),
    one_is_none (λ one two. stuck _ (by_barber (b_ready one two))),
    one_is_none (λ one two. stuck _ (by_barber (b_seat_invited one two))),
    one_is_none (λ one two. stuck _ (by_client (c_disappear one two))),
  )

module _ (q : FifoQ) (n k : ℕ) (zeroed : q.n ≡ pos 0) (some_seat : 0 < n)
    (room : n ≤ max_wr_seats) where
  Reach-all : {s : System} → Reach (init q n k) s → (w : ℕ) × Agrees n w s × Room k w s × Seats w s
  Reach-all here = (
    0,
    (init-Holds q n zeroed some_seat room, omega (arith, init_q_size q n)),
    omega arith,
    λ i. refl,
  )
  Reach-all (next r st) =
      let (w, g, v, seats) = Reach-all r in
      (in_queue st w, Step-Agrees n w st g, Step-Room n k w st g v, Step-Seats n w st g seats)

  -- With 1 to 100 seats and a queue whose count was 0, in every interleaving of the barber and any
  -- number of clients: when no process can go on, the barber sleeps, all seats are free, and every
  -- client has disappeared.
  pub no_deadlock :
      {s : System}
      → Reach (init q n k) s
      → Stuck s
      → (s.b_asleep ≡ 1) × (s.barber_sleeps ≡ 1) × (s.c_left ≡ k) × (s.free_seats ≡ n)
  no_deadlock r stuck = let (w, g, v, seats) = Reach-all r in Stuck-asleep stuck g.1 v seats
