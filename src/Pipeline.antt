-- ===== src/Pipeline.antt =====
-- Operating-systems/lab5/zad1/main.c: an interpreter of a file of pipelines. `execute` says what a
-- program makes of its input, a status and an output (`none`: it cannot be executed), and `capacity` is
-- the number of bytes that a pipe holds. What the interpreter prints of its own is left out.
pub mod Sequence
pub mod Parsing
pub mod Session
pub mod Ending
mod Examples
use agh_ust_projects.Prelude.{
  ℕ, zero, suc, ◌+◌, ◌-◌, Bool, true, false, List, [], ◌∷◌, ◌++◌, Option, none, some, length, drop,
  set, get_elem?, replicate, ltb, leb, ◌==◌, ◌||◌, if◌then◌else◌,
}
use agh_ust_projects.CLibrary.{tokens, fgets}

-- The words of a command, its entry of `args` up to the null pointer.
abbrev pub Command : Type 0
Command = List (List ℕ)

-- `args`, where `none` is a null pointer.
abbrev pub Args : Type 0
Args = List (Option Command)

abbrev pub max_subcommands : ℕ
max_subcommands = 5

abbrev pub max_args_nr : ℕ
max_args_nr = 64

abbrev pub max_line_length : ℕ
max_line_length = 256

-- The loop of `extract_subcommands` with the subcommands before and the one being read; `none` is a
-- write behind the table.
unfoldable pub extract_loop : List ℕ → List (List ℕ) → List ℕ → Option (List (List ℕ))
extract_loop [] subcommands current = some (subcommands ++ current ∷ [])
extract_loop (c ∷ cs) subcommands current = elim (c == b'\n' || c == 0) [
  | true ↦ some (subcommands ++ current ∷ [])
  | false ↦ elim (c == b'|') [
    | true ↦ elim (ltb (length subcommands + 1) max_subcommands) [
      | true ↦ extract_loop cs (subcommands ++ current ∷ []) []
      | false ↦ none
    ]
    | false ↦ extract_loop cs subcommands (current ++ c ∷ [])
  ]
]

abbrev pub extract_subcommands : List ℕ → Option (List (List ℕ))
extract_subcommands line = extract_loop line [] []

-- The delimiters of `strtok`.
abbrev pub is_separator : ℕ → Bool
is_separator c = c == 32 || c == b'\n'

-- The loop of `get_pipeline` at `args[i]`; `none` for too many words.
unfoldable pub fill_args : ℕ → List (List ℕ) → Args → Option Args
fill_args i [] args = some args
fill_args i (subcommand ∷ subcommands) args =
    let words = tokens is_separator [] subcommand in
    let rest = fill_args (i + 1) subcommands (set args i (some words)) in
    if leb max_args_nr (length words) then none else rest

-- What `get_pipeline` returns, `done` with `args` and with what is left of the file.
pub data Reading : Type 0 where
  done : Args → List ℕ → Reading
  no_more_lines : Reading
  err : Reading
  undefined_reading : Reading

abbrev pub filled : Option Args → List ℕ → Reading
filled none rest = err
filled (some args) rest = done args rest

abbrev pub parsed : Option (List (List ℕ)) → Args → List ℕ → Reading
parsed none args rest = undefined_reading
parsed (some subcommands) args rest = filled (fill_args 0 subcommands args) rest

unfoldable pub get_pipeline : Args → List ℕ → Reading
get_pipeline args [] = no_more_lines
get_pipeline args (c ∷ cs) =
    let (line, rest) = fgets (max_line_length - 1) (c ∷ cs) in
    parsed (extract_subcommands line) args rest

abbrev pub reset_vars : Args
reset_vars = replicate max_subcommands none

-- What becomes of a process: its status, its output and the commands executed so far, in their order;
-- or it waits for ever.
pub data Run : Type 0 where
  exited : ℕ → List ℕ → List Command → Run
  blocked : Run

abbrev pub exit_failure : ℕ
exit_failure = 1

-- The signal of a read through a null pointer.
abbrev pub sigsegv : ℕ
sigsegv = 11

-- What is written into a pipe that nobody reads yet.
abbrev pub into_pipe : ℕ → Run → Run
into_pipe capacity blocked = blocked
into_pipe capacity (exited status output executed) =
    if leb (length output) capacity then exited status output executed else blocked

abbrev pub executed_as : Option (ℕ × List ℕ) → Command → List Command → Run
executed_as none c before = exited exit_failure [] before
executed_as (some (status, output)) c before = exited status output (before ++ c ∷ [])

-- What becomes of the interpreter: its status, what the pipelines put out, the commands executed.
pub data Exit : Type 0 where
  returned : ℕ → List ℕ → List Command → Exit
  hung : Exit
  undefined : Exit
  out_of_fuel : Exit

-- The loop on `start` from the entries behind it; `none` is a read behind the table.
unfoldable pub start_of : ℕ → Args → Option ℕ
start_of start [] = none
start_of start (none ∷ args) = some start
start_of start (some c ∷ args) = start_of (start + 1) args

-- What the parent makes of the pipeline's status, where `next` goes on with the loop.
abbrev pub after_pipeline :
    Option Run → List ℕ → List Command → (List ℕ → List Command → Exit) → Exit
after_pipeline none output executed next = undefined
after_pipeline (some blocked) output executed next = hung
after_pipeline (some (exited zero more commands)) output executed next =
    next (output ++ more) (executed ++ commands)
after_pipeline (some (exited (suc status) more commands)) output executed next =
    returned 1 (output ++ more) (executed ++ commands)

module _ (execute : Command → List ℕ → Option (ℕ × List ℕ)) (capacity : ℕ) where
  -- `execvp` of an entry of `args`.
  abbrev pub exec : Option (Option Command) → List ℕ → List Command → Run
  exec none input before = exited sigsegv [] before
  exec (some none) input before = exited sigsegv [] before
  exec (some (some c)) input before = executed_as (execute c input) c before

  -- The parent of `exec_recursion` when its child has ended: `input` is what the pipe holds.
  abbrev pub after_wait : Option (Option Command) → Run → Run
  after_wait entry blocked = blocked
  after_wait entry (exited zero input before) = exec entry input before
  after_wait entry (exited (suc status) input before) = exited exit_failure [] before

  -- The parent's `wait` comes before its `execvp`, so the child's whole output stays in the pipe.
  unfoldable pub exec_recursion : Args → ℕ → Run
  exec_recursion args zero = after_wait (get_elem? args 0) (exited 0 [] [])
  exec_recursion args (suc i) =
      after_wait (get_elem? args (suc i)) (into_pipe capacity (exec_recursion args i))

  -- The process of one pipeline; `none` is the read behind the table.
  abbrev pub run_pipeline : Args → Option ℕ → Option Run
  run_pipeline args none = none
  run_pipeline args (some start) = some (exec_recursion args start)

-- `fopen` before the reading of the next line. Without a file `fseek` gets a null pointer.
abbrev pub reopened : Bool → Reading → Reading
reopened true reading = reading
reopened false reading = undefined_reading

-- `opens k` says whether the `fopen` behind the k-th line succeeds: each round opens the file once more,
-- and none of these files is closed before the end.
module _ (execute : Command → List ℕ → Option (ℕ × List ℕ)) (capacity : ℕ) (opens : ℕ → Bool) where
  -- The loop of `main`, with the rounds so far and what their pipelines put out and executed.
  unfoldable pub main_loop : ℕ → ℕ → Reading → List ℕ → List Command → Exit
  main_loop fuel round no_more_lines output executed = returned 0 output executed
  main_loop fuel round err output executed = returned 1 output executed
  main_loop fuel round undefined_reading output executed = undefined
  main_loop zero round (done args rest) output executed = out_of_fuel
  main_loop (suc fuel) round (done args rest) output executed =
      after_pipeline (run_pipeline execute capacity args (start_of 0 (drop 1 args))) output executed
        (main_loop fuel (round + 1) (reopened (opens round) (get_pipeline reset_vars rest)))

  -- `main` on the contents of the file.
  unfoldable pub interpret : List ℕ → Exit
  interpret file = main_loop (length file) 0 (get_pipeline reset_vars file) [] []
