-- ===== src/Pipeline/Ending.antt =====
-- The interpreter of Operating-systems/lab5/zad1/main.c reads a file to its end at the latest.
use agh_ust_projects.Prelude.{
  ℕ, zero, suc, ◌+◌, ◌-◌, Bool, true, false, ◌≤◌, ◌<◌, ◌≢◌, List, [], ◌∷◌, ◌++◌, Option, none, some,
  length, drop, arith,
}
use agh_ust_projects.CLibrary.{fgets}
use agh_ust_projects.Pipeline.{
  Command, Args, Reading, done, no_more_lines, err, undefined_reading, Run, exited, blocked, Exit,
  out_of_fuel, fill_args, filled, parsed, extract_subcommands, get_pipeline, reset_vars, start_of,
  run_pipeline, after_pipeline, reopened, main_loop, interpret, max_line_length,
}

-- What is left of the file is shorter than the fuel.
abbrev Within : ℕ → Reading → Type 0
Within fuel (done args rest) = length rest < fuel
Within fuel no_more_lines = Unit {0}
Within fuel err = Unit {0}
Within fuel undefined_reading = Unit {0}

filled-Within :
    (args : Option Args) (rest : List ℕ) (fuel : ℕ)
    → length rest < fuel
    → Within fuel (filled args rest)
filled-Within none rest fuel h = tt
filled-Within (some args) rest fuel h = h

parsed-Within :
    (subcommands : Option (List (List ℕ))) (args : Args) (rest : List ℕ) (fuel : ℕ)
    → length rest < fuel
    → Within fuel (parsed subcommands args rest)
parsed-Within none args rest fuel h = tt
parsed-Within (some subcommands) args rest fuel h =
    filled-Within (fill_args 0 subcommands args) rest fuel h

fgets-shorter : (n : ℕ) (file : List ℕ) → length ((fgets n file).1) ≤ length file
unfolding fgets
fgets-shorter zero file = omega arith
fgets-shorter (suc n) [] = omega arith
fgets-shorter (suc n) (c ∷ cs) = ground (arith, fgets-shorter n cs)

fgets_takes : (n c : ℕ) (cs : List ℕ) → length ((fgets (suc n) (c ∷ cs)).1) ≤ length cs
unfolding fgets
fgets_takes n c cs = ground (arith, fgets-shorter n cs)

get_pipeline-Within :
    (args : Args) (file : List ℕ) (fuel : ℕ)
    → length file ≤ fuel
    → Within fuel (get_pipeline args file)
unfolding get_pipeline
get_pipeline-Within args [] fuel h = tt
get_pipeline-Within args (c ∷ cs) fuel h =
    let (line, rest) = fgets (max_line_length - 1) (c ∷ cs) in
    parsed-Within (extract_subcommands line) args rest fuel (omega (arith, h, fgets_takes 254 c cs))

reopened-Within : (b : Bool) (r : Reading) (fuel : ℕ) → Within fuel r → Within fuel (reopened b r)
reopened-Within true r fuel w = w
reopened-Within false r fuel w = tt

module _ (execute : Command → List ℕ → Option (ℕ × List ℕ)) (capacity : ℕ) (opens : ℕ → Bool) where
  after_pipeline_ends :
      (r : Option Run) (output : List ℕ) (executed : List Command)
      (next : List ℕ → List Command → Exit)
      → ((o : List ℕ) (e : List Command) → next o e ≢ out_of_fuel)
      → after_pipeline r output executed next ≢ out_of_fuel
  after_pipeline_ends none output executed next h e = cc
  after_pipeline_ends (some blocked) output executed next h e = cc
  after_pipeline_ends (some (exited zero more cs)) output executed next h e =
      h (output ++ more) (executed ++ cs) e
  after_pipeline_ends (some (exited (suc status) more cs)) output executed next h e = cc

  main_loop_ends :
      (fuel round : ℕ) (r : Reading) (output : List ℕ) (executed : List Command)
      → Within fuel r
      → main_loop execute capacity opens fuel round r output executed ≢ out_of_fuel
  unfolding main_loop
  main_loop_ends fuel round no_more_lines output executed w e = cc
  main_loop_ends fuel round err output executed w e = cc
  main_loop_ends fuel round undefined_reading output executed w e = cc
  main_loop_ends zero round (done args rest) output executed w e = absurd (ground (arith, w))
  main_loop_ends (suc fuel) round (done args rest) output executed w e =
      after_pipeline_ends (run_pipeline execute capacity args (start_of 0 (drop 1 args))) output
        executed
        (main_loop execute capacity opens fuel (round + 1)
          (reopened (opens round) (get_pipeline reset_vars rest)))
        (λ o e.
          main_loop_ends fuel (round + 1) (reopened (opens round) (get_pipeline reset_vars rest)) o
            e
            (reopened-Within (opens round) (get_pipeline reset_vars rest) fuel
              (get_pipeline-Within reset_vars rest fuel (omega (arith, w)))))
        e

  -- Whatever the file holds and the programs do, and whether or not it can be opened anew, the rounds of `interpret`, one for each character of
  -- the file, are enough.
  pub interpret_ends : (file : List ℕ) → interpret execute capacity opens file ≢ out_of_fuel
  unfolding interpret
  interpret_ends file =
      main_loop_ends (length file) 0 (get_pipeline reset_vars file) [] []
        (get_pipeline-Within reset_vars file (length file) (omega arith))
