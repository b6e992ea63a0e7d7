-- ===== src/LineBuffer/Monitor.antt =====
-- Operating-systems/lab9/zad1/main.c: the threads, the mutex and the two condition variables. The
-- mutex is held from the lock, or from the return of `pthread_cond_wait`, up to the unlock or the
-- next wait, so what stands between them is one step. A state counts the threads at each place.
pub mod Invariant
use agh_ust_projects.Prelude.{ℕ, ◌+◌, ◌-◌, ◌≤◌, ◌<◌, ◌≡◌, List, [], ◌∷◌}
use agh_ust_projects.LineBuffer.{Line, Buffer, init_buffer, put_line, take_line}

pub record System : Type 0 where
  pub buffer : Buffer
  -- The lines of the book that no producer has read.
  pub book : List Line
  -- Producers that want the mutex, that wait for a free slot, and that have exited.
  pub p_ready : ℕ
  pub p_waiting : ℕ
  pub p_exited : ℕ
  -- Consumers that want the mutex, that wait for a line, and that are about to signal.
  pub c_ready : ℕ
  pub c_waiting : ℕ
  pub c_signalling : ℕ

-- `main` with `p` producers and `k` consumers.
abbrev pub init : ℕ → ℕ → ℕ → ℕ → ℕ → List Line → System
init n l mode_l p k book = record {
  buffer = init_buffer n l mode_l;
  book = book;
  p_ready = p;
  p_waiting = 0;
  p_exited = 0;
  c_ready = k;
  c_waiting = 0;
  c_signalling = 0;
}

pub data Step (s : System) : System → Type 0 where
  -- The signal of `buffIsEmpty_cv` wakes a waiting consumer, if there is one.
  p_put_wake :
      (line : Line) (rest : List Line)
      → 0 < s.p_ready
      → s.buffer.count < s.buffer.n
      → s.book ≡ line ∷ rest
      → 0 < s.c_waiting
      → Step s (record s {
        buffer = put_line line s.buffer;
        book = rest;
        c_waiting = s.c_waiting - 1;
        c_ready = s.c_ready + 1;
      })
  p_put :
      (line : Line) (rest : List Line)
      → 0 < s.p_ready
      → s.buffer.count < s.buffer.n
      → s.book ≡ line ∷ rest
      → s.c_waiting ≡ 0
      → Step s (record s { buffer = put_line line s.buffer; book = rest })
  p_block :
      0 < s.p_ready
      → s.buffer.n ≤ s.buffer.count
      → Step s (record s { p_ready = s.p_ready - 1; p_waiting = s.p_waiting + 1 })
  p_exit :
      0 < s.p_ready
      → s.buffer.count < s.buffer.n
      → s.book ≡ []
      → Step s (record s { p_ready = s.p_ready - 1; p_exited = s.p_exited + 1 })
  c_take :
      0 < s.c_ready
      → 0 < s.buffer.count
      → Step s (record s {
        buffer = take_line s.buffer;
        c_ready = s.c_ready - 1;
        c_signalling = s.c_signalling + 1;
      })
  c_block :
      0 < s.c_ready
      → s.buffer.count ≡ 0
      → Step s (record s { c_ready = s.c_ready - 1; c_waiting = s.c_waiting + 1 })
  -- The signal of `buffIsFull_cv` comes after the unlock.
  c_signal_wake :
      0 < s.c_signalling
      → 0 < s.p_waiting
      → Step s (record s {
        c_signalling = s.c_signalling - 1;
        c_ready = s.c_ready + 1;
        p_waiting = s.p_waiting - 1;
        p_ready = s.p_ready + 1;
      })
  c_signal :
      0 < s.c_signalling
      → s.p_waiting ≡ 0
      → Step s (record s { c_signalling = s.c_signalling - 1; c_ready = s.c_ready + 1 })
  -- POSIX lets a wait return without a signal.
  p_spurious :
      0 < s.p_waiting → Step s (record s { p_waiting = s.p_waiting - 1; p_ready = s.p_ready + 1 })
  c_spurious :
      0 < s.c_waiting → Step s (record s { c_waiting = s.c_waiting - 1; c_ready = s.c_ready + 1 })

pub data Reach (s : System) : System → Type 0 where
  here : Reach s s
  next : {t u : System} → Reach s t → Step t u → Reach s u
