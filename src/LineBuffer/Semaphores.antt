-- ===== src/LineBuffer/Semaphores.antt =====
-- Operating-systems/lab9/zad2/main.c: the threads and their semaphores. A thread keeps nothing but
-- its place in the code, so a state counts the threads at each place; a step moves one thread over
-- one `sem_wait`, one `sem_post` or the code between them.
pub mod Invariant
pub mod Progress
use agh_ust_projects.Prelude.{
  ℕ, zero, suc, ◌+◌, ◌-◌, ◌≤◌, ◌<◌, ◌≡◌, refl, List, [], ◌∷◌, ◌++◌, arith,
}
use agh_ust_projects.LineBuffer.{Line, Buffer, init_buffer, put_line, take_line}
use agh_ust_projects.LineBuffer.Ring.{
  Delivers, contents, chosen, init-Delivers, put_line-Delivers, take_line-Delivers,
}

pub record System : Type 0 where
  pub buffer : Buffer
  -- The lines of the book that no producer has read.
  pub book : List Line
  -- The semaphores.
  pub counting : ℕ
  pub not_empty : ℕ
  pub not_full : ℕ
  -- Producers: before the first wait, before the second, inside, and before each post.
  pub p_start : ℕ
  pub p_slot : ℕ
  pub p_inside : ℕ
  pub p_filled : ℕ
  pub p_posted : ℕ
  pub p_at_end : ℕ
  pub p_exited : ℕ
  -- Consumers, likewise.
  pub c_start : ℕ
  pub c_line : ℕ
  pub c_inside : ℕ
  pub c_emptied : ℕ
  pub c_posted : ℕ

-- `main`: `sem_init`, and `p` producers and `k` consumers.
abbrev pub init : ℕ → ℕ → ℕ → ℕ → ℕ → List Line → System
init n l mode_l p k book = record {
  buffer = init_buffer n l mode_l;
  book = book;
  counting = 1;
  not_empty = 0;
  not_full = n;
  p_start = p;
  p_slot = 0;
  p_inside = 0;
  p_filled = 0;
  p_posted = 0;
  p_at_end = 0;
  p_exited = 0;
  c_start = k;
  c_line = 0;
  c_inside = 0;
  c_emptied = 0;
  c_posted = 0;
}

pub data Step (s : System) : System → Type 0 where
  p_wait_slot :
      0 < s.p_start
      → 0 < s.not_full
      → Step s
          (record s { p_start = s.p_start - 1; not_full = s.not_full - 1; p_slot = s.p_slot + 1 })
  p_wait_turn :
      0 < s.p_slot
      → 0 < s.counting
      → Step s
          (record s { p_slot = s.p_slot - 1; counting = s.counting - 1; p_inside = s.p_inside + 1 })
  p_put :
      (line : Line) (rest : List Line)
      → 0 < s.p_inside
      → s.book ≡ line ∷ rest
      → Step s (record s {
        p_inside = s.p_inside - 1;
        buffer = put_line line s.buffer;
        book = rest;
        p_filled = s.p_filled + 1;
      })
  p_end_of_book :
      0 < s.p_inside
      → s.book ≡ []
      → Step s (record s { p_inside = s.p_inside - 1; p_at_end = s.p_at_end + 1 })
  p_post_line :
      0 < s.p_filled
      → Step s (record s {
        p_filled = s.p_filled - 1;
        not_empty = s.not_empty + 1;
        p_posted = s.p_posted + 1;
      })
  p_post_turn :
      0 < s.p_posted
      → Step s (record s {
        p_posted = s.p_posted - 1;
        counting = s.counting + 1;
        p_start = s.p_start + 1;
      })
  p_exit :
      0 < s.p_at_end
      → Step s (record s {
        p_at_end = s.p_at_end - 1;
        counting = s.counting + 1;
        p_exited = s.p_exited + 1;
      })
  c_wait_line :
      0 < s.c_start
      → 0 < s.not_empty
      → Step s
          (record s { c_start = s.c_start - 1; not_empty = s.not_empty - 1; c_line = s.c_line + 1 })
  c_wait_turn :
      0 < s.c_line
      → 0 < s.counting
      → Step s
          (record s { c_line = s.c_line - 1; counting = s.counting - 1; c_inside = s.c_inside + 1 })
  c_take :
      0 < s.c_inside
      → Step s (record s {
        c_inside = s.c_inside - 1;
        buffer = take_line s.buffer;
        c_emptied = s.c_emptied + 1;
      })
  c_post_slot :
      0 < s.c_emptied
      → Step s (record s {
        c_emptied = s.c_emptied - 1;
        not_full = s.not_full + 1;
        c_posted = s.c_posted + 1;
      })
  c_post_turn :
      0 < s.c_posted
      → Step s (record s {
        c_posted = s.c_posted - 1;
        counting = s.counting + 1;
        c_start = s.c_start + 1;
      })

pub data Reach (s : System) : System → Type 0 where
  here : Reach s s
  next : {t u : System} → Reach s t → Step t u → Reach s u
