-- ===== src/Barbershop/Fifo.antt =====
-- The waiting room queue of Operating-systems/lab7/zad1/barbershop.h (zad2 holds the same text).
-- C `int` counters that may fall below zero are integers; indices and pids are native numbers.
pub mod Refine
use agh_ust_projects.Prelude.{
  ℕ, ◌+◌, ◌%◌, List, replicate, set, get_or, Bool, true, false, if◌then◌else◌, leb, ◌==◌,
}
use agh_ust_projects.Prelude.Int.{ℤ, pos, negsuc, ◌+ℤ◌, ◌-ℤ◌}

abbrev pub max_wr_seats : ℕ
max_wr_seats = 100

-- `client`
pub record Client : Type 0 where
  pub id : ℕ
  pub pid : ℕ

abbrev pub no_client : Client
no_client = record { id = 0; pid = 0 }

-- `fifo_Q`
pub record FifoQ : Type 0 where
  pub front : ℕ
  pub end : ℕ
  pub size : ℕ
  pub n : ℤ
  pub queue : List Client

abbrev pub is_zero : ℤ → Bool
is_zero (pos k) = k == 0
is_zero (negsuc k) = false

abbrev pub at_most_one : ℤ → Bool
at_most_one (pos k) = leb k 1
at_most_one (negsuc k) = true

-- `init_Q` clears the seats and both ends, and leaves `n` as it was.
unfoldable pub init_q : FifoQ → ℕ → FifoQ
init_q q size = record q {
  front = 0;
  end = 0;
  size = size;
  queue = replicate max_wr_seats no_client;
}

-- The seat index that the caller keeps, and the queue.
unfoldable pub enqueue : FifoQ → ℕ → ℕ × FifoQ
unfolding ◌+ℤ◌
enqueue q pid =
    if is_zero q.n
    then (
      q.front,
      record q {
        n = q.n +ℤ pos 1;
        queue = set q.queue q.front (record { id = q.front; pid = pid });
      },
    )
    else let seat = (q.end + 1) % q.size in
      (
        seat,
        record q {
          n = q.n +ℤ pos 1;
          end = seat;
          queue = set q.queue seat (record { id = seat; pid = pid });
        },
      )

-- A seat out of the array reads as `no_client`; the theorems' hypotheses rule it out.
unfoldable pub dequeue : FifoQ → Client × FifoQ
unfolding ◌-ℤ◌
dequeue q =
    let served = get_or q.queue q.front no_client in
    if at_most_one q.n
    then (served, record q { n = q.n -ℤ pos 1 })
    else (served, record q { n = q.n -ℤ pos 1; front = (q.front + 1) % q.size })
