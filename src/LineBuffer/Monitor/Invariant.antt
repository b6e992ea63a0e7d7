-- ===== src/LineBuffer/Monitor/Invariant.antt =====
-- What the mutex and the condition variables of Operating-systems/lab9/zad1/main.c keep.
use agh_ust_projects.Prelude.{
  ℕ, ◌+◌, ◌-◌, ◌≤◌, ◌<◌, ◌≡◌, refl, List, [], ◌∷◌, ◌++◌, arith, ◌⊎◌, inl, inr,
}
use mathlib.Core.Path.{subst}
use agh_ust_projects.LineBuffer.{Line, init_buffer, put_line, take_line}
use agh_ust_projects.LineBuffer.Ring.{
  Delivers, contents, chosen, init-Delivers, put_line-Delivers, take_line-Delivers,
}
use agh_ust_projects.LineBuffer.Monitor.{
  System, init, Step, p_put_wake, p_put, p_block, p_exit, c_take, c_block, c_signal_wake, c_signal,
  p_spurious, c_spurious, Reach, here, next,
}

record Counts (p k n : ℕ) (s : System) : Type 0 where
  size : s.buffer.n ≡ n
  bounded : s.buffer.count ≤ n
  producers : s.p_ready + s.p_waiting + s.p_exited ≡ p
  consumers : s.c_ready + s.c_waiting + s.c_signalling ≡ k

Step-Counts : {p k n : ℕ} {s t : System} → Step s t → Counts p k n s → Counts p k n t
unfolding put_line take_line
Step-Counts (p_put_wake line rest a b e c) v = omega arith
Step-Counts (p_put line rest a b e c) v = omega arith
Step-Counts (p_block a b) v = omega arith
Step-Counts (p_exit a b e) v = omega arith
Step-Counts (c_take a b) v = omega arith
Step-Counts (c_block a b) v = omega arith
Step-Counts (c_signal_wake a b) v = omega arith
Step-Counts (c_signal a b) v = omega arith
Step-Counts (p_spurious a) v = omega arith
Step-Counts (c_spurious a) v = omega arith

Step-Delivers :
    {lines : List Line} {s t : System}
    → Step s t
    → Delivers lines s.buffer s.book
    → Delivers lines t.buffer t.book
Step-Delivers {lines} {s} (p_put_wake line rest a b e c) v =
    put_line-Delivers lines s.buffer line rest (subst (Delivers lines s.buffer) e v) b
Step-Delivers {lines} {s} (p_put line rest a b e c) v =
    put_line-Delivers lines s.buffer line rest (subst (Delivers lines s.buffer) e v) b
Step-Delivers {lines} {s} (c_take a b) v = take_line-Delivers lines s.buffer s.book v b
Step-Delivers (p_block a b) v = v
Step-Delivers (p_exit a b e) v = v
Step-Delivers (c_block a b) v = v
Step-Delivers (c_signal_wake a b) v = v
Step-Delivers (c_signal a b) v = v
Step-Delivers (p_spurious a) v = v
Step-Delivers (c_spurious a) v = v

module _ (n l mode_l p k : ℕ) (book : List Line) where
  Reach-Counts : {s : System} → Reach (init n l mode_l p k book) s → Counts p k n s
  unfolding init_buffer
  Reach-Counts here = omega arith
  Reach-Counts (next r st) = Step-Counts st (Reach-Counts r)

  Reach-Delivers :
      {s : System} → 0 < n → Reach (init n l mode_l p k book) s → Delivers book s.buffer s.book
  Reach-Delivers h here = init-Delivers n l mode_l book h
  Reach-Delivers h (next r st) = Step-Delivers st (Reach-Delivers h r)

  -- With at least one slot, in every interleaving, spurious wake-ups included: what the consumers
  -- took, what stands in the buffer and what is still to be read make up the book, in order; the
  -- consumers printed the chosen ones among the lines that they took, in order; and the buffer
  -- never holds more than `n` lines.
  pub monitor_lines_in_order :
      {s : System}
      → 0 < n
      → Reach (init n l mode_l p k book) s
      → (s.buffer.taken ++ (contents s.buffer ++ s.book) ≡ book)
        × (s.buffer.printed ≡ chosen s.buffer.mode_l s.buffer.l s.buffer.taken)
        × (s.buffer.count ≤ n)
  monitor_lines_in_order h r =
      let v = Reach-Delivers h r in (v.in_order, v.shown, (Reach-Counts r).bounded)

-- Nobody runs, the book is read and the buffer is empty, and a producer still waits for a slot.
pub record Hangs (s : System) : Type 0 where
  pub read_up : s.book ≡ []
  pub emptied : s.buffer.count ≡ 0
  pub no_producer : s.p_ready ≡ 0
  pub no_consumer : s.c_ready ≡ 0
  pub no_signal : s.c_signalling ≡ 0
  pub left_waiting : 0 < s.p_waiting

-- Every step is a spurious wake-up.
abbrev pub OnlySpurious : System → Type 0
OnlySpurious s =
    (t : System)
    → Step s t
    → (t ≡ record s { p_waiting = s.p_waiting - 1; p_ready = s.p_ready + 1 })
      ⊎ (t ≡ record s { c_waiting = s.c_waiting - 1; c_ready = s.c_ready + 1 })

-- Then nothing happens any more but by a spurious wake-up.
Hangs-Step :
    {s t : System}
    → Hangs s
    → Step s t
    → (t ≡ record s { p_waiting = s.p_waiting - 1; p_ready = s.p_ready + 1 })
      ⊎ (t ≡ record s { c_waiting = s.c_waiting - 1; c_ready = s.c_ready + 1 })
Hangs-Step h (p_put_wake line rest a b e c) = absurd (omega arith)
Hangs-Step h (p_put line rest a b e c) = absurd (omega arith)
Hangs-Step h (p_block a b) = absurd (omega arith)
Hangs-Step h (p_exit a b e) = absurd (omega arith)
Hangs-Step h (c_take a b) = absurd (omega arith)
Hangs-Step h (c_block a b) = absurd (omega arith)
Hangs-Step h (c_signal_wake a b) = absurd (omega arith)
Hangs-Step h (c_signal a b) = absurd (omega arith)
Hangs-Step h (p_spurious a) = inl refl
Hangs-Step h (c_spurious a) = inr refl

-- With one slot, two producers and one consumer there is, for every book of one line, an order of
-- steps without a spurious wake-up after which the program hangs: the book is delivered, both
-- threads that could still signal have finished or wait, one producer waits for a slot that is free,
-- and only a spurious wake-up could change that.
pub monitor-Hangs :
    (l mode_l : ℕ) (line : Line)
    → (s : System) × Reach (init 1 l mode_l 2 1 (line ∷ [])) s
      × Hangs s
      × (s.buffer.taken ≡ line ∷ [])
      × OnlySpurious s
unfolding put_line take_line init_buffer
monitor-Hangs l mode_l line = (
  _,
  run,
  record {
    read_up = refl;
    emptied = refl;
    no_producer = refl;
    no_consumer = refl;
    no_signal = refl;
    left_waiting = omega arith;
  },
  refl,
  λ t. Hangs-Step (record {
    read_up = refl;
    emptied = refl;
    no_producer = refl;
    no_consumer = refl;
    no_signal = refl;
    left_waiting = omega arith;
  }),
)
  where
    start : System
    start = init 1 l mode_l 2 1 (line ∷ [])

    filled : Reach start (record start { buffer = put_line line start.buffer; book = [] })
    filled = next here (p_put line [] (omega arith) (omega arith) refl refl)

    blocked : Reach start (record start {
      buffer = put_line line start.buffer;
      book = [];
      p_ready = 0;
      p_waiting = 2;
    })
    blocked =
        next (next filled (p_block (omega arith) (omega arith)))
          (p_block (omega arith) (omega arith))

    served : Reach start (record start {
      buffer = take_line (put_line line start.buffer);
      book = [];
      p_ready = 1;
      p_waiting = 1;
    })
    served =
        next (next blocked (c_take (omega arith) (omega arith)))
          (c_signal_wake (omega arith) (omega arith))

    run : Reach start (record start {
      buffer = take_line (put_line line start.buffer);
      book = [];
      p_ready = 0;
      p_waiting = 1;
      p_exited = 1;
      c_ready = 0;
      c_waiting = 1;
    })
    run = next (next served (p_exit (omega arith) (omega arith) refl)) (c_block (omega arith) refl)
