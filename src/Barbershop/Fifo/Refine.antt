-- ===== src/Barbershop/Fifo/Refine.antt =====
-- The circular queue of barbershop.h is a first-in first-out queue of seats.
use agh_ust_projects.Prelude.{
  ℕ, zero, suc, ◌+◌, ◌-◌, ◌%◌, ◌≤◌, ◌<◌, ◌≡◌, refl, ap, ◌∙◌, List, [], ◌∷◌, ◌++◌, arith, length,
  length-set, get_or, set, length-replicate, get_or-set_self, get_or-set_ne,
}
use native.Mathlib.Nat.{mod-add-mod, mod-eq_of_lt, add-zero, mod-lt}
use mathlib.Core.Path.{subst, sym}
use agh_ust_projects.Prelude.Int.{pos}
use agh_ust_projects.Prelude.Window.{window, window-set, round_ne, round_suc}
use agh_ust_projects.Barbershop.Fifo.{
  Client, no_client, FifoQ, init_q, enqueue, dequeue, max_wr_seats,
}

-- The `k` clients from seat `h` on, going round at `size`.
abbrev pub seated : List Client → ℕ → ℕ → ℕ → List Client
seated = window no_client

-- Each of the `k` clients from seat `h` on carries the number of its seat.
abbrev pub Numbered : List Client → ℕ → ℕ → ℕ → Type 0
Numbered seats size h zero = Unit {0}
Numbered seats size h (suc k) =
    ((get_or seats h no_client).id ≡ h) × Numbered seats size ((h + 1) % size) k

-- A queue with `k` clients in it.
pub record Holds (q : FifoQ) (k : ℕ) : Type 0 where
  pub counted : q.n ≡ pos k
  pub fits : k ≤ q.size
  pub some_seat : 0 < q.size
  pub room : q.size ≤ length q.queue
  pub front_in : q.front < q.size
  pub end_in : q.end < q.size
  pub last : q.end ≡ (q.front + (k - 1)) % q.size
  pub numbered : Numbered q.queue q.size q.front k

abbrev pub waiting : FifoQ → ℕ → List Client
waiting q k = seated q.queue q.size q.front k

module _ (seats : List Client) (size : ℕ) (c : Client) where
  Numbered-set :
      (k h i : ℕ)
      → size ≤ length seats
      → h < size
      → k < size
      → i ≡ (h + k) % size
      → c.id ≡ i
      → Numbered seats size h k
      → Numbered (set seats i c) size h (suc k)
  Numbered-set zero h i r hh hk e f m =
      let e' : i ≡ h = e ∙ rw add-zero (mod-eq_of_lt hh) in
      (rw (e', get_or-set_self seats h c no_client (omega arith)) (f ∙ e'), tt)
  Numbered-set (suc k) h i r hh hk e f m = (
    rw (get_or-set_ne seats {i = i} {j = h} c no_client (rw e (round_ne hh hk))) (m.0),
    Numbered-set k ((h + 1) % size) i r (omega arith) (omega arith) (e ∙ round_suc h k size) f m.1,
  )

-- With 1 to 100 seats, an initialised queue is well formed and holds nobody, provided that its
-- count, which `init_Q` does not reset, was 0.
pub init-Holds :
    (q : FifoQ) (size : ℕ) → q.n ≡ pos 0 → 0 < size → size ≤ max_wr_seats → Holds (init_q q size) 0
unfolding init_q
init-Holds q size e p h = record {
  counted = e;
  fits = omega arith;
  some_seat = p;
  room = omega (arith, length-replicate max_wr_seats no_client);
  front_in = p;
  end_in = p;
  last = omega (arith, mod-eq_of_lt p);
  numbered = tt;
}

-- Both branches of `enqueue` take the first seat behind those that are taken.
enqueue_lem :
    (q : FifoQ) (k pid : ℕ)
    → Holds q k
    → k < q.size
    → enqueue q pid ≡ (
      (q.front + k) % q.size,
      record q {
        n = pos (suc k);
        end = (q.front + k) % q.size;
        queue =
            set q.queue
              ((q.front + k) % q.size)
              (record { id = (q.front + k) % q.size; pid = pid });
      },
    )
unfolding enqueue
enqueue_lem q zero pid v h =
    let e : (q.front + 0) % q.size ≡ q.front = rw add-zero (mod-eq_of_lt v.front_in) in
    ground (arith, e, v.last, v.counted)
enqueue_lem q (suc k) pid v h =
    let e : (q.end + 1) % q.size ≡ (q.front + suc k) % q.size =
      ap (λ j. (j + 1) % q.size) (v.last ∙ ap (λ j. (q.front + j) % q.size) (omega arith))
      ∙ (mod-add-mod (q.front + k) q.size 1 ∙ ap (λ j. j % q.size) (omega arith)) in
    ground (arith, e, v.counted)

-- What is promised of the seat and the queue that `enqueue` returns.
abbrev pub Enqueued : FifoQ → ℕ → ℕ → ℕ × FifoQ → Type 0
Enqueued q k pid (seat, q') =
    Holds q' (suc k)
    × (seat ≡ (q.front + k) % q.size)
    × (waiting q' (suc k) ≡ waiting q k ++ record { id = seat; pid = pid } ∷ [])

-- What is promised of the client and the queue that `dequeue` returns.
abbrev pub Dequeued : FifoQ → ℕ → Client × FifoQ → Type 0
Dequeued q k (served, q') =
    Holds q' k × (waiting q (suc k) ≡ served ∷ waiting q' k) × (served.id ≡ q.front)

-- A client who comes to a well-formed queue with a free seat sits down behind all the others, on a
-- seat whose number he gets, and each client's number stays that of his seat.
pub enqueue_refines :
    (q : FifoQ) (k pid : ℕ) → Holds q k → k < q.size → Enqueued q k pid (enqueue q pid)
enqueue_refines q k pid v h =
    subst (Enqueued q k pid) (sym (enqueue_lem q k pid v h)) (held, refl, order)
  where
    open v use {some_seat, room, front_in, numbered}

    seat : ℕ
    seat = (q.front + k) % q.size

    order :
        seated (set q.queue seat (record { id = seat; pid = pid })) q.size q.front (suc k)
        ≡ waiting q k ++ record { id = seat; pid = pid } ∷ []
    order = window-set no_client q.queue q.size _ k q.front seat room front_in h refl

    held :
        Holds
          (record q {
            n = pos (suc k);
            end = seat;
            queue = set q.queue seat (record { id = seat; pid = pid });
          })
          (suc k)
    held = record {
      counted = refl;
      fits = h;
      some_seat = some_seat;
      room = omega (arith, length-set q.queue seat (record { id = seat; pid = pid }), room);
      front_in = front_in;
      end_in = mod-lt (q.front + k) some_seat;
      last = ap (λ j. (q.front + j) % q.size) (omega arith);
      numbered = Numbered-set q.queue q.size _ k q.front seat room front_in h refl refl numbered;
    }

-- The last one leaves both ends where they are; before that `front` goes one seat round.
dequeue_last :
    (q : FifoQ) → Holds q 1 → dequeue q ≡ (get_or q.queue q.front no_client, record q { n = pos 0 })
unfolding dequeue
dequeue_last q v = ground (arith, v.counted)

dequeue_more :
    (q : FifoQ) (k : ℕ)
    → Holds q (suc (suc k))
    → dequeue q ≡ (
      get_or q.queue q.front no_client,
      record q { n = pos (suc k); front = (q.front + 1) % q.size },
    )
unfolding dequeue
dequeue_more q k v = ground (arith, v.counted)

-- In a well-formed queue that is not empty, the client who has waited longest leaves first, with
-- the number of the front seat, and the others stay in their order.
pub dequeue_refines : (q : FifoQ) (k : ℕ) → Holds q (suc k) → Dequeued q k (dequeue q)
dequeue_refines q zero v = subst (Dequeued q 0) (sym (dequeue_last q v)) (held, refl, v.numbered.0)
  where
    held : Holds (record q { n = pos 0 }) 0
    held = record {
      counted = refl;
      fits = omega arith;
      some_seat = v.some_seat;
      room = v.room;
      front_in = v.front_in;
      end_in = v.end_in;
      last = v.last;
      numbered = tt;
    }
dequeue_refines q (suc k) v =
    subst (Dequeued q (suc k)) (sym (dequeue_more q k v)) (held, refl, v.numbered.0)
  where
    held : Holds (record q { n = pos (suc k); front = (q.front + 1) % q.size }) (suc k)
    held = record {
      counted = refl;
      fits = omega (arith, v.fits);
      some_seat = v.some_seat;
      room = v.room;
      front_in = mod-lt (q.front + 1) v.some_seat;
      end_in = v.end_in;
      last =
          v.last
          ∙ (ap (λ j. (q.front + j) % q.size) (omega arith)
              ∙ round_suc q.front k q.size
              ∙ ap (λ j. ((q.front + 1) % q.size + j) % q.size) (omega arith));
      numbered = v.numbered.1;
    }
