-- ===== src/Pipeline/Examples.antt =====
-- The theorems on Operating-systems/lab5/zad1/main.c at concrete pipelines.
use agh_ust_projects.Prelude.{
  ℕ, ◌≡◌, ◌≢◌, refl, List, [], ◌∷◌, ◌++◌, Option, none, some, length, ◌<◌, arith, Bool, ltb,
}
use agh_ust_projects.Pipeline.{
  Command, exited, blocked, exit_failure, exec_recursion, returned, out_of_fuel, interpret,
  max_args_nr,
}
use agh_ust_projects.Pipeline.Sequence.{entries, exec_recursion_stops, exec_recursion_blocks}
use agh_ust_projects.Pipeline.Parsing.{Words}
use agh_ust_projects.Pipeline.Session.{written_file, commands, interpret-written}
use agh_ust_projects.Pipeline.Ending.{interpret_ends}

-- A program puts its name in front of its input and returns the number of its arguments.
abbrev say : Command → List ℕ → Option (ℕ × List ℕ)
say [] input = none
say (w ∷ ws) input = some (length ws, w ++ input)

abbrev a : Command
a = (b'a' ∷ []) ∷ []

abbrev b : Command
b = (b'b' ∷ b'b' ∷ []) ∷ []

abbrev failing : Command
failing = (b'f' ∷ []) ∷ (b'x' ∷ []) ∷ []

a-Words : Words a × (length a < max_args_nr)
a-Words = ((((refl, tt), λ e. cc), tt), ground arith)

b-Words : Words b × (length b < max_args_nr)
b-Words = ((((refl, (refl, tt)), λ e. cc), tt), ground arith)

exec_recursion_stops_example :
    exec_recursion say 3 (entries (a ∷ failing ∷ b ∷ []) (none ∷ [])) 2
    ≡ exited exit_failure [] (a ∷ failing ∷ [])
exec_recursion_stops_example =
    exec_recursion_stops say 3 (a ∷ []) [] failing b (none ∷ []) (b'a' ∷ []) (b'f' ∷ b'a' ∷ []) 0
      (b'a' ∷ [], refl, ground arith, refl) refl (ground arith)

exec_recursion_blocks_example :
    exec_recursion say 2 (entries (a ∷ b ∷ a ∷ []) (none ∷ [])) 2 ≡ blocked
exec_recursion_blocks_example =
    exec_recursion_blocks say 2 (a ∷ []) [] b a (none ∷ []) (b'a' ∷ []) (b'b' ∷ b'b' ∷ b'a' ∷ []) 0
      (b'a' ∷ [], refl, ground arith, refl) refl (ground arith)

-- `fopen` succeeds five times.
abbrev five_times : ℕ → Bool
five_times k = ltb k 5

interpret-written_example :
    interpret say 3 five_times (written_file ((a, b ∷ []) ∷ (a, []) ∷ []))
    ≡ returned 0 (b'b' ∷ b'b' ∷ b'a' ∷ b'a' ∷ []) (commands ((a, b ∷ []) ∷ (a, []) ∷ []))
interpret-written_example =
    interpret-written say 3 five_times ((a, b ∷ []) ∷ (a, []) ∷ []) (b'b' ∷ b'b' ∷ b'a' ∷ b'a' ∷ [])
      (λ k h. ground arith)
      (
        b'b' ∷ b'b' ∷ b'a' ∷ [],
        b'a' ∷ [],
        (a-Words, (b-Words, tt)),
        ground arith,
        ground arith,
        (b'a' ∷ [], refl, ground arith, refl),
        (b'a' ∷ [], [], (a-Words, tt), ground arith, ground arith, refl, refl, refl),
        refl,
      )

interpret_ends_example : interpret say 3 five_times (b'a' ∷ b'|' ∷ []) ≢ out_of_fuel
interpret_ends_example = interpret_ends say 3 five_times (b'a' ∷ b'|' ∷ [])
