-- ===== src/LineBuffer/Semaphores/Invariant.antt =====
-- What the semaphores of Operating-systems/lab9/zad2/main.c keep, in every interleaving.
use agh_ust_projects.Prelude.{ℕ, ◌+◌, ◌≤◌, ◌<◌, ◌≡◌, List, ◌++◌, arith}
use mathlib.Core.Path.{subst}
use agh_ust_projects.LineBuffer.{Line, init_buffer, put_line, take_line}
use agh_ust_projects.LineBuffer.Ring.{
  Delivers, contents, chosen, init-Delivers, put_line-Delivers, take_line-Delivers,
}
use agh_ust_projects.LineBuffer.Semaphores.{
  System, init, Step, p_wait_slot, p_wait_turn, p_put, p_end_of_book, p_post_line, p_post_turn,
  p_exit, c_wait_line, c_wait_turn, c_take, c_post_slot, c_post_turn, Reach, here, next,
}

-- The threads between `sem_wait(&counting_sem)` and its post.
abbrev pub inside : System → ℕ
inside s = s.p_inside + s.p_filled + s.p_posted + s.p_at_end + s.c_inside + s.c_emptied + s.c_posted

pub record Counts (p n : ℕ) (s : System) : Type 0 where
  pub size : s.buffer.n ≡ n
  pub one_inside : s.counting + inside s ≡ 1
  pub lines : s.not_empty + s.c_line + s.c_inside + s.p_filled ≡ s.buffer.count
  pub slots :
      s.not_full + s.p_slot + s.p_inside + s.p_at_end + s.p_exited + s.buffer.count + s.c_emptied
      ≡ n
  pub producers :
      s.p_start + s.p_slot + s.p_inside + s.p_filled + s.p_posted + s.p_at_end + s.p_exited ≡ p

Step-Counts : {p n : ℕ} {s t : System} → Step s t → Counts p n s → Counts p n t
unfolding put_line take_line
Step-Counts (p_wait_slot a b) v = omega arith
Step-Counts (p_wait_turn a b) v = omega arith
Step-Counts (p_put line rest a e) v = omega arith
Step-Counts (p_end_of_book a e) v = omega arith
Step-Counts (p_post_line a) v = omega arith
Step-Counts (p_post_turn a) v = omega arith
Step-Counts (p_exit a) v = omega arith
Step-Counts (c_wait_line a b) v = omega arith
Step-Counts (c_wait_turn a b) v = omega arith
Step-Counts (c_take a) v = omega arith
Step-Counts (c_post_slot a) v = omega arith
Step-Counts (c_post_turn a) v = omega arith

init-Counts : (n l mode_l p k : ℕ) (book : List Line) → Counts p n (init n l mode_l p k book)
unfolding init_buffer
init-Counts n l mode_l p k book = omega arith

Step-Delivers :
    {lines : List Line} {p n : ℕ} {s t : System}
    → Step s t
    → Counts p n s
    → Delivers lines s.buffer s.book
    → Delivers lines t.buffer t.book
Step-Delivers (p_wait_slot a b) c v = v
Step-Delivers {lines} {s} (p_put line rest a e) c v =
    put_line-Delivers lines s.buffer line rest (subst (Delivers lines s.buffer) e v) (omega arith)
Step-Delivers {lines} {s} (c_take a) c v = take_line-Delivers lines s.buffer s.book v (omega arith)
Step-Delivers (p_wait_turn a b) c v = v
Step-Delivers (p_end_of_book a e) c v = v
Step-Delivers (p_post_line a) c v = v
Step-Delivers (p_post_turn a) c v = v
Step-Delivers (p_exit a) c v = v
Step-Delivers (c_wait_line a b) c v = v
Step-Delivers (c_wait_turn a b) c v = v
Step-Delivers (c_post_slot a) c v = v
Step-Delivers (c_post_turn a) c v = v

module _ (n l mode_l p k : ℕ) (book : List Line) where
  pub Reach-Counts : {s : System} → Reach (init n l mode_l p k book) s → Counts p n s
  Reach-Counts here = init-Counts n l mode_l p k book
  Reach-Counts (next r st) = Step-Counts st (Reach-Counts r)

  Reach-Delivers :
      {s : System} → 0 < n → Reach (init n l mode_l p k book) s → Delivers book s.buffer s.book
  Reach-Delivers h here = init-Delivers n l mode_l book h
  Reach-Delivers h (next r st) = Step-Delivers st (Reach-Counts r) (Reach-Delivers h r)

  -- With at least one slot, in every interleaving of any number of producers and consumers: what
  -- the consumers took, what stands in the buffer and what is still to be read make up the book, in
  -- order, and the consumers printed the chosen ones among the lines that they took, in order.
  pub lines_in_order :
      {s : System}
      → 0 < n
      → Reach (init n l mode_l p k book) s
      → (s.buffer.taken ++ (contents s.buffer ++ s.book) ≡ book)
        × (s.buffer.printed ≡ chosen s.buffer.mode_l s.buffer.l s.buffer.taken)
  lines_in_order h r = let v = Reach-Delivers h r in (v.in_order, v.shown)

  -- Never more than one thread is inside; the buffer holds at most `n` lines and has a free slot for
  -- a producer that is inside, and a line for a consumer that is inside.
  pub buffer_is_safe :
      {s : System}
      → Reach (init n l mode_l p k book) s
      → (inside s ≤ 1) × (s.buffer.count + s.p_inside ≤ n) × (s.c_inside ≤ s.buffer.count)
  buffer_is_safe r = let v = Reach-Counts r in omega arith

  -- With more producers than slots, at most as many producers as there are slots ever exit, so that
  -- not all of them do.
  pub producers_hang :
      {s : System}
      → Reach (init n l mode_l p k book) s
      → n < p
      → (s.p_exited ≤ n) × (s.p_exited < p)
  producers_hang r h = let v = Reach-Counts r in omega arith
