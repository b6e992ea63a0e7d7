-- ===== src/Pipeline/Session.antt =====
-- The interpreter of Operating-systems/lab5/zad1/main.c on whole files.
use agh_ust_projects.Prelude.{
  ℕ, zero, suc, ◌+◌, ◌-◌, ◌≤◌, ◌<◌, ◌≡◌, refl, sym, ap, ◌∙◌, Bool, true, List, [], ◌∷◌, ◌++◌,
  Option, none, some, length, length-append, drop, arith,
}
use mathlib.Core.List.{append-nil, append_assoc}
use agh_ust_projects.Pipeline.{
  Command, Args, Exit, done, exited, returned, reopened, undefined, get_pipeline, reset_vars,
  start_of, exec_recursion, run_pipeline, after_pipeline, main_loop, interpret, max_subcommands,
  max_line_length,
}
use agh_ust_projects.Pipeline.Sequence.{entries, Flow, exec_recursion_last}
use agh_ust_projects.Pipeline.Parsing.{Commands, written, get_pipeline-written}

-- The commands of a line, of which there is one at least.
abbrev pub Line : Type 0
Line = Command × List Command

abbrev pub written_file : List Line → List ℕ
written_file [] = []
written_file ((c, cs) ∷ lines) = written c cs ++ b'\n' ∷ written_file lines

abbrev pub commands : List Line → List Command
commands [] = []
commands ((c, cs) ∷ lines) = c ∷ cs ++ commands lines

lines-written : (lines : List Line) → length lines ≤ length (written_file lines)
lines-written [] = omega arith
lines-written ((c, cs) ∷ lines) =
    omega (arith, lines-written lines, length-append (written c cs) (b'\n' ∷ written_file lines))

start_of-entries :
    (k : ℕ) (cs : List Command) (rest : Args)
    → start_of k (entries cs (none ∷ rest)) ≡ some (k + length cs)
unfolding start_of
start_of-entries k [] rest = ap some (omega arith)
start_of-entries k (c ∷ cs) rest = start_of-entries (k + 1) cs rest ∙ ap some (omega arith)

start_of_full : (k : ℕ) (cs : List Command) → start_of k (entries cs []) ≡ none
unfolding start_of
start_of_full k [] = refl
start_of_full k (c ∷ cs) = start_of_full (k + 1) cs

drop-reset_vars : (n : ℕ) → n < 4 → (rest : Args) × (drop (suc n) reset_vars ≡ none ∷ rest)
drop-reset_vars zero h = (none ∷ none ∷ none ∷ [], refl)
drop-reset_vars (suc zero) h = (none ∷ none ∷ [], refl)
drop-reset_vars (suc (suc zero)) h = (none ∷ [], refl)
drop-reset_vars (suc (suc (suc zero))) h = ([], refl)
drop-reset_vars (suc (suc (suc (suc n)))) h = absurd (ground (arith, h))

-- What the loop of `main` finds behind `n + 1` commands.
start_of-written :
    (c : Command) (cs : List Command)
    → length cs < 4
    → start_of 0 (drop 1 (entries (c ∷ cs) (drop (length (c ∷ cs)) reset_vars))) ≡ some (length cs)
start_of-written c cs h =
    let (rest, e) = drop-reset_vars (length cs) h in
    ap (λ r. start_of 0 (entries cs r)) e ∙ start_of-entries 0 cs rest ∙ ap some (omega arith)

fuel_lem :
    (c : Command) (cs : List Command) (file : List ℕ)
    → length (written c cs ++ b'\n' ∷ file) ≡ suc (length (written c cs) + length file)
fuel_lem c cs file = omega (arith, length-append (written c cs) (b'\n' ∷ file))

module _ (execute : Command → List ℕ → Option (ℕ × List ℕ)) (capacity : ℕ) where
  -- The commands of a line succeed one after the other on what the one before has put out, and what
  -- goes through a pipe fits into it.
  abbrev pub FlowsTo : List ℕ → Command → List Command → List ℕ → Type 0
  FlowsTo input c [] output = execute c input ≡ some (0, output)
  FlowsTo input c (d ∷ ds) output =
      (between : List ℕ) × (execute c input ≡ some (0, between))
      × (length between ≤ capacity)
      × FlowsTo between d ds output

  FlowsTo-Flow :
      (c : Command) (cs : List Command) (input output : List ℕ)
      → FlowsTo input c cs output
      → (before : List Command) × (l : Command) × (between : List ℕ) × (before ++ l ∷ [] ≡ c ∷ cs)
        × (length before ≡ length cs)
        × Flow execute capacity input before between
        × (execute l between ≡ some (0, output))
  FlowsTo-Flow c [] input output f = ([], c, input, refl, refl, refl, f)
  FlowsTo-Flow c (d ∷ ds) input output (m, r, h, f) =
      let (before, l, between, e, n, g, x) = FlowsTo-Flow d ds m output f in
      (c ∷ before, l, between, ap (λ t. c ∷ t) e, ap suc n, (m, r, h, g), x)

  exec_recursion-FlowsTo :
      (c : Command) (cs : List Command) (rest : Args) (output : List ℕ)
      → FlowsTo [] c cs output
      → exec_recursion execute capacity (entries (c ∷ cs) rest) (length cs)
        ≡ exited 0 output (c ∷ cs)
  exec_recursion-FlowsTo c cs rest output f =
      let (before, l, between, e, n, g, x) = FlowsTo-Flow c cs [] output f in
      (λ i. exec_recursion execute capacity (entries (sym e i) rest) (sym n i))
      ∙ exec_recursion_last execute capacity before l rest between output 0 g x
      ∙ ap (exited 0 output) e

  -- The lines fit into the interpreter's buffers, their commands flow, and they put out `output`.
  abbrev pub Runs : List Line → List ℕ → Type 0
  Runs [] output = [] ≡ output
  Runs ((c, cs) ∷ lines) output =
      (first : List ℕ) × (others : List ℕ) × Commands (c ∷ cs)
      × (length (c ∷ cs) < max_subcommands)
      × (length (written c cs) < max_line_length - 1)
      × FlowsTo [] c cs first
      × Runs lines others
      × (first ++ others ≡ output)

  module _ (opens : ℕ → Bool) where
    -- The loop at a line whose number is `round`.
    abbrev at_line : ℕ → ℕ → List ℕ → List ℕ → List Command → Exit
    at_line fuel round file output executed =
        main_loop execute capacity opens fuel round (get_pipeline reset_vars file) output executed

    main_loop_line :
        (fuel round : ℕ) (args : Args) (start : ℕ) (rest more output : List ℕ)
        (cs executed : List Command)
        → opens round ≡ true
        → start_of 0 (drop 1 args) ≡ some start
        → exec_recursion execute capacity args start ≡ exited 0 more cs
        → main_loop execute capacity opens (suc fuel) round (done args rest) output executed
          ≡ at_line fuel (round + 1) rest (output ++ more) (executed ++ cs)
    unfolding main_loop
    main_loop_line fuel round args start rest more output cs executed o s e =
        let run : run_pipeline execute capacity args (start_of 0 (drop 1 args))
            ≡ some (exited 0 more cs) =
          ap (run_pipeline execute capacity args) s ∙ ap some e in
        ap
          (λ r. after_pipeline r output executed (
            main_loop execute capacity opens fuel (round + 1)
              (reopened (opens round) (get_pipeline reset_vars rest))))
          run
        ∙ ap
            (λ b.
              main_loop execute capacity opens fuel (round + 1)
                (reopened b (get_pipeline reset_vars rest)) (output ++ more) (executed ++ cs))
            o

    line_lem :
        (fuel round : ℕ) (c : Command) (cs : List Command) (file more output : List ℕ)
        (executed : List Command)
        → opens round ≡ true
        → Commands (c ∷ cs)
        → length (c ∷ cs) < max_subcommands
        → length (written c cs) < max_line_length - 1
        → FlowsTo [] c cs more
        → at_line (suc fuel) round (written c cs ++ b'\n' ∷ file) output executed
          ≡ at_line fuel (round + 1) file (output ++ more) (executed ++ c ∷ cs)
    line_lem fuel round c cs file more output executed o h n l f =
        let rest : Args = drop (length (c ∷ cs)) reset_vars in
        ap (λ r. main_loop execute capacity opens (suc fuel) round r output executed)
          (get_pipeline-written c cs file h (omega (arith, n)) l)
        ∙ main_loop_line fuel round (entries (c ∷ cs) rest) (length cs) file more output (c ∷ cs)
            executed o (start_of-written c cs (omega (arith, n)))
            (exec_recursion-FlowsTo c cs rest more f)

    main_loop-Runs :
        (lines : List Line) (fuel round : ℕ) (result output : List ℕ) (executed : List Command)
        → length lines ≤ fuel
        → ((k : ℕ) → round ≤ k → k < round + length lines → opens k ≡ true)
        → Runs lines result
        → at_line fuel round (written_file lines) output executed
          ≡ returned 0 (output ++ result) (executed ++ commands lines)
    unfolding main_loop get_pipeline
    main_loop-Runs [] fuel round result output executed h o r =
        (λ i. returned 0 (sym (append-nil output) i) (sym (append-nil executed) i))
        ∙ ap (λ l. returned 0 (output ++ l) (executed ++ [])) r
    main_loop-Runs (l ∷ lines) zero round result output executed h o r = absurd (ground (arith, h))
    main_loop-Runs ((c, cs) ∷ lines) (suc fuel) round result output executed h o
          (more, others, k, n, l, f, r, e) =
        line_lem fuel round c cs (written_file lines) more output executed
          (o round (omega arith) (omega arith)) k n l f
        ∙ main_loop-Runs lines fuel (round + 1) others (output ++ more) (executed ++ c ∷ cs)
            (omega (arith, h)) (λ j low high. o j (omega arith) (omega arith)) r
        ∙ λ i.
            returned 0 ((append_assoc output more others ∙ ap (λ t. output ++ t) e) i)
              (append_assoc executed (c ∷ cs) (commands lines) i)

    -- Take a file of lines with fewer than 255 characters before the newline, each of one to four
    -- commands of fewer than 64 words, no word empty or with a blank, a newline, a bar or a null
    -- character. If the file can be opened anew behind each of its lines, while the files opened before
    -- stay open, the commands of each line succeed one after the other, the first on an empty input, and
    -- what goes through a pipe fits into it, then the interpreter returns 0, it has executed exactly
    -- these commands in the order of the file, and what the lines put out stands in this order.
    pub interpret-written :
        (lines : List Line) (output : List ℕ)
        → ((k : ℕ) → k < length lines → opens k ≡ true)
        → Runs lines output
        → interpret execute capacity opens (written_file lines) ≡ returned 0 output (commands lines)
    unfolding interpret
    interpret-written lines output o r =
        main_loop-Runs lines (length (written_file lines)) 0 output [] [] (lines-written lines)
          (λ k low high. o k (omega arith)) r

    -- If the first line has five commands, of fewer than 64 words, no word empty or with a blank, a newline,
    -- a bar or a null character, which fit into a line of fewer than 255
    -- characters, then the interpreter reads behind its table before it runs any of them.
    pub interpret_five :
        (c : Command) (cs : List Command) (file : List ℕ)
        → Commands (c ∷ cs)
        → length (c ∷ cs) ≡ max_subcommands
        → length (written c cs) < max_line_length - 1
        → interpret execute capacity opens (written c cs ++ b'\n' ∷ file) ≡ undefined
    unfolding interpret main_loop
    interpret_five c cs file h n l =
        let args : Args = entries (c ∷ cs) (drop (length (c ∷ cs)) reset_vars) in
        let full : drop (length (c ∷ cs)) reset_vars ≡ [] = ap (λ k. drop k reset_vars) n in
        let fuel : ℕ = length (written c cs) + length file in
        (λ i.
          main_loop execute capacity opens (fuel_lem c cs file i) 0
            (get_pipeline-written c cs file h (omega (arith, n)) l i) [] [])
        ∙ ap
            (λ r.
              after_pipeline (run_pipeline execute capacity args (start_of 0 (entries cs r))) [] []
                (main_loop execute capacity opens fuel 1
                  (reopened (opens 0) (get_pipeline reset_vars file))))
            full
        ∙ ap
            (λ s. after_pipeline (run_pipeline execute capacity args s) [] [] (
              main_loop execute capacity opens fuel 1
                (reopened (opens 0) (get_pipeline reset_vars file))))
            (start_of_full 0 cs)
