-- ===== src/Barbershop/Protocol/Seats.antt =====
-- The seats of Operating-systems/lab7/zad1 by their numbers: a seat stands in the queue, with the barber
-- or among the invitations as often as clients are on their way to wait at it, or wait there.
use agh_ust_projects.Prelude.{
  ℕ, zero, suc, ◌+◌, ◌-◌, ◌<◌, ◌≡◌, sym, ap, ◌∙◌, List, [], ◌∷◌, ◌++◌, map, inl, inr, ◌==◌,
  if◌then◌else◌, replicate, Bool-cases, arith, ==_iff,
}
use mathlib.Core.List.{map-append}
use agh_ust_projects.Barbershop.Fifo.{FifoQ, enqueue, dequeue}
use agh_ust_projects.Barbershop.Fifo.Refine.{Holds, waiting, enqueue_refines, dequeue_refines}
use agh_ust_projects.Barbershop.Protocol.{
  System, Step, by_barber, by_client, b_wait_wr, b_wait_sleep, b_sleep, b_signal_slept, b_wake,
  b_seat_woken, b_call, b_signal_called, b_ready, b_invite, b_seat_invited, b_done, c_wait_wr,
  c_wait_sleep, c_wake, c_signal_woke, c_ready_woke, c_sit, c_signal_sat, c_ready_sat, c_accept,
  c_wait_up, c_get_up, c_seat, c_come_back, c_disappear, c_turn_away, c_signal_full,
}
use agh_ust_projects.Barbershop.Protocol.Invariant.{Agrees, in_queue}

-- How often a number stands in a list.
abbrev pub occurs : ℕ → List ℕ → ℕ
occurs i [] = 0
occurs i (x ∷ xs) = (if i == x then 1 else 0) + occurs i xs

occurs-append : (i : ℕ) (xs ys : List ℕ) → occurs i (xs ++ ys) ≡ occurs i xs + occurs i ys
occurs-append i [] ys = omega arith
occurs-append i (x ∷ xs) ys = omega (arith, occurs-append i xs ys)

-- Taking one element out.
occurs-removed :
    (i j : ℕ) (xs as' bs : List ℕ)
    → xs ≡ as' ++ j ∷ bs
    → occurs i xs ≡ (if i == j then 1 else 0) + occurs i (as' ++ bs)
occurs-removed i j xs as' bs e =
    omega (
      arith,
      ap (λ (l : List ℕ). occurs i l) e,
      occurs-append i as' (j ∷ bs),
      occurs-append i as' bs,
    )

pub occurs-split :
    (i : ℕ) (xs : List ℕ) → 0 < occurs i xs → (as' : List ℕ) × (bs : List ℕ) × (xs ≡ as' ++ i ∷ bs)
occurs-split i [] h = absurd (omega arith)
occurs-split i (x ∷ xs) h = elim (Bool-cases (i == x)) [
  | inl same ↦ ([], xs, ap (λ j. j ∷ xs) (sym ((==_iff i x).0 same)))
  | inr differs ↦
      let more : 0 < occurs i xs = ground arith in
      let (as', bs, e) = occurs-split i xs more in (x ∷ as', bs, ap (λ l. x ∷ l) e)
]

abbrev numbers : FifoQ → ℕ → List ℕ
numbers q w = map (λ c. c.id) (waiting q w)

-- The seat of the client whom the barber has called.
abbrev called_seat : System → List ℕ
called_seat s = replicate (s.b_called + s.b_calling + s.b_inviting) s.client_to_cut.id

abbrev pub Seats : ℕ → System → Type 0
Seats w s =
    (i : ℕ)
    → occurs i (numbers s.fifo w) + occurs i (called_seat s) + occurs i s.invites
      ≡ occurs i s.c_sat + occurs i s.c_sitting + occurs i s.c_waiting

numbers-enqueue :
    (q : FifoQ) (w pid i : ℕ)
    → Holds q w
    → w < q.size
    → occurs i (numbers (enqueue q pid).1 (suc w))
      ≡ occurs i (numbers q w) + occurs i ((enqueue q pid).0 ∷ [])
numbers-enqueue q w pid i v h =
    ap (λ l. occurs i (map (λ c. c.id) l)) (enqueue_refines q w pid v h).2
    ∙ (ap (occurs i) (map-append (λ c. c.id) (waiting q w) _) ∙ occurs-append i (numbers q w) _)

numbers-dequeue :
    (q : FifoQ) (w i : ℕ)
    → Holds q (suc w)
    → occurs i (numbers q (suc w))
      ≡ occurs i ((dequeue q).0.id ∷ []) + occurs i (numbers (dequeue q).1 w)
numbers-dequeue q w i v =
    ap (λ l. occurs i (map (λ c. c.id) l)) (dequeue_refines q w v).1 ∙ omega arith

-- The barber keeps the seat while he goes on.
called_same :
    (i : ℕ) {m k : ℕ} (seat : ℕ) → m ≡ k → occurs i (replicate m seat) ≡ occurs i (replicate k seat)
called_same i seat e = ap (λ j. occurs i (replicate j seat)) e

pub Step-Seats :
    (n w : ℕ) {s t : System} (st : Step s t) → Agrees n w s → Seats w s → Seats (in_queue st w) t
Step-Seats n w (by_barber (b_wait_wr a b)) g v i = v i
Step-Seats n w (by_barber (b_wait_sleep a b)) g v i = v i
Step-Seats n w (by_barber (b_sleep a b)) g v i = v i
Step-Seats n w (by_barber (b_signal_slept a)) g v i = v i
Step-Seats n w (by_barber (b_wake a b)) g v i = v i
Step-Seats n w (by_barber (b_seat_woken a b)) g v i = v i
Step-Seats n zero (by_barber (b_call a b)) g v i = absurd (b (omega (arith, g.1)))
Step-Seats n (suc w) {s} (by_barber (b_call a b)) g v i = omega (
  arith,
  v i,
  numbers-dequeue s.fifo w i g.0,
  called_same i {m = s.b_called + s.b_calling + s.b_inviting} {k = 0} s.client_to_cut.id
      (omega (arith, g.1.one_barber)),
  called_same i {m = s.b_called + 1 + s.b_calling + s.b_inviting} {k = 1} (dequeue s.fifo).0.id
      (omega (arith, g.1.one_barber)),
)
Step-Seats n w {s} (by_barber (b_signal_called a)) g v i = omega (
  arith,
  v i,
  called_same i {m = s.b_called - 1 + (s.b_calling + 1) + s.b_inviting}
      {k = s.b_called + s.b_calling + s.b_inviting} s.client_to_cut.id (omega arith),
)
Step-Seats n w {s} (by_barber (b_ready a b)) g v i = omega (
  arith,
  v i,
  called_same i {m = s.b_called + (s.b_calling - 1) + (s.b_inviting + 1)}
      {k = s.b_called + s.b_calling + s.b_inviting} s.client_to_cut.id (omega arith),
)
Step-Seats n w {s} (by_barber (b_invite a)) g v i = omega (
  arith,
  v i,
  called_same i {m = s.b_called + s.b_calling + s.b_inviting}
      {k = suc (s.b_called + s.b_calling + (s.b_inviting - 1))} s.client_to_cut.id (omega arith),
)
Step-Seats n w (by_barber (b_seat_invited a b)) g v i = v i
Step-Seats n w (by_barber (b_done a)) g v i = v i
Step-Seats n w (by_client (c_wait_wr a b)) g v i = v i
Step-Seats n w (by_client (c_wait_sleep a b)) g v i = v i
Step-Seats n w (by_client (c_wake a b d)) g v i = v i
Step-Seats n w (by_client (c_signal_woke a)) g v i = v i
Step-Seats n w (by_client (c_ready_woke a)) g v i = v i
Step-Seats n w {s} (by_client (c_sit pid a b d)) g v i =
    omega (arith, v i, numbers-enqueue s.fifo w pid i g.0 (omega (arith, g.1)))
Step-Seats n w {s} (by_client (c_signal_sat j as' bs e)) g v i =
    omega (arith, v i, occurs-removed i j s.c_sat as' bs e)
Step-Seats n w {s} (by_client (c_ready_sat j as' bs e)) g v i =
    omega (arith, v i, occurs-removed i j s.c_sitting as' bs e)
Step-Seats n w {s} (by_client (c_accept j as' bs cs ds e f)) g v i =
    omega
      (arith, v i, occurs-removed i j s.c_waiting as' bs e, occurs-removed i j s.invites cs ds f)
Step-Seats n w (by_client (c_wait_up a b)) g v i = v i
Step-Seats n w (by_client (c_get_up a)) g v i = v i
Step-Seats n w (by_client (c_seat a)) g v i = v i
Step-Seats n w (by_client (c_come_back a b)) g v i = v i
Step-Seats n w (by_client (c_disappear a b)) g v i = v i
Step-Seats n w (by_client (c_turn_away a b)) g v i = v i
Step-Seats n w (by_client (c_signal_full a)) g v i = v i
