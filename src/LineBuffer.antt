-- ===== src/LineBuffer.antt =====
-- Operating-systems/lab9: producers that put the lines of a book into a circular buffer, and
-- consumers that take them out. The data and the code inside the critical sections, which zad1 (mutex
-- and condition variables) and zad2 (semaphores) share; a slot holds one line as a C string.
pub mod Ring
pub mod Monitor
pub mod Semaphores
mod Examples
use agh_ust_projects.Prelude.{
  ℕ, ◌+◌, ◌-◌, ◌%◌, Bool, true, false, List, [], ◌∷◌, ◌++◌, if◌then◌else◌, ◌==◌, ltb, length, set,
  get_or, ◌&&◌, replicate,
}

abbrev pub Line : Type 0
Line = List ℕ

-- The globals of main.c. `taken` records each line that a consumer takes, oldest first, and `printed`
-- those that it prints.
pub record Buffer : Type 0 where
  pub n : ℕ
  pub l : ℕ
  pub mode_l : ℕ
  pub slots : List Line
  pub write_to : ℕ
  pub read_from : ℕ
  pub count : ℕ
  pub taken : List Line
  pub printed : List Line

-- `main` allocates `n` empty slots.
unfoldable pub init_buffer : ℕ → ℕ → ℕ → Buffer
init_buffer n l mode_l = record {
  n = n;
  l = l;
  mode_l = mode_l;
  slots = replicate n [];
  write_to = 0;
  read_from = 0;
  count = 0;
  taken = [];
  printed = [];
}

-- Whether a consumer prints a line: MORE_MODE, LESS_MODE or EQUAL_MODE, and no empty line.
abbrev pub is_printed : ℕ → ℕ → Line → Bool
is_printed mode_l l line =
    ltb 0 (length line)
    && (if mode_l == 0
        then ltb l (length line)
        else if mode_l == 1
        then ltb (length line) l
        else length line == l)

-- The critical section of `producer_procedure`.
unfoldable pub put_line : Line → Buffer → Buffer
put_line line b = record b {
  slots = set b.slots b.write_to line;
  count = b.count + 1;
  write_to = (b.write_to + 1) % b.n;
}

-- The critical section of `consumer_procedure`.
unfoldable pub take_line : Buffer → Buffer
take_line b =
    let line = get_or b.slots b.read_from [] in
    record b {
      read_from = (b.read_from + 1) % b.n;
      count = b.count - 1;
      taken = b.taken ++ line ∷ [];
      printed = if is_printed b.mode_l b.l line then b.printed ++ line ∷ [] else b.printed;
    }
