-- ===== src/Pipeline/Sequence.antt =====
-- How `exec_recursion` of Operating-systems/lab5/zad1/main.c runs the commands of a pipeline: one after
-- the other, from the first, each on the whole output of the one before.
use agh_ust_projects.Prelude.{
  ℕ, zero, suc, ◌+◌, ◌≤◌, ◌<◌, ◌≡◌, refl, sym, ap, ◌∙◌, List, [], ◌∷◌, ◌++◌, Option, some, map,
  length, length-append, get_elem?, arith,
}
use mathlib.Core.Path.{subst}
use mathlib.Core.List.{append-nil, append_assoc}
use agh_ust_projects.Pipeline.{
  Command, Args, Run, exited, blocked, exit_failure, into_pipe, executed_as, after_wait,
  exec_recursion,
}

-- `args` with the commands `cs` in front of `rest`.
abbrev pub entries : List Command → Args → Args
entries cs rest = map some cs ++ rest

get_elem?-entries :
    (before cs : List Command) (c : Command) (rest : Args)
    → get_elem? (entries (before ++ c ∷ cs) rest) (length before) ≡ some (some c)
get_elem?-entries [] cs c rest = refl
get_elem?-entries (b ∷ before) cs c rest = get_elem?-entries before cs c rest

entries-append :
    (before cs : List Command) (rest : Args)
    → entries before (entries cs rest) ≡ entries (before ++ cs) rest
entries-append [] cs rest = refl
entries-append (b ∷ before) cs rest = ap (λ l. some b ∷ l) (entries-append before cs rest)

into_pipe_fits :
    (capacity status : ℕ) (output : List ℕ) (cs : List Command)
    → length output ≤ capacity
    → into_pipe capacity (exited status output cs) ≡ exited status output cs
into_pipe_fits capacity status output cs h = ground arith

into_pipe_full :
    (capacity status : ℕ) (output : List ℕ) (cs : List Command)
    → capacity < length output
    → into_pipe capacity (exited status output cs) ≡ blocked
into_pipe_full capacity status output cs h = ground arith

module _ (execute : Command → List ℕ → Option (ℕ × List ℕ)) (capacity : ℕ) where
  -- The commands succeed one after the other on what is left in the pipe, and each output fits into it.
  abbrev pub Flow : List ℕ → List Command → List ℕ → Type 0
  Flow input [] output = input ≡ output
  Flow input (c ∷ cs) output =
      (between : List ℕ) × (execute c input ≡ some (0, between))
      × (length between ≤ capacity)
      × Flow between cs output

  -- The child of `exec_recursion`.
  abbrev child : Args → ℕ → Run
  child args zero = exited 0 [] []
  child args (suc i) = into_pipe capacity (exec_recursion execute capacity args i)

  exec_recursion-child :
      (args : Args) (i : ℕ)
      → exec_recursion execute capacity args i
        ≡ after_wait execute capacity (get_elem? args i) (child args i)
  unfolding exec_recursion
  exec_recursion-child args zero = refl
  exec_recursion-child args (suc i) = refl

  exec_recursion_next :
      (before cs : List Command) (c : Command) (rest : Args) (input : List ℕ)
      → child (entries (before ++ c ∷ cs) rest) (length before) ≡ exited 0 input before
      → exec_recursion execute capacity (entries (before ++ c ∷ cs) rest) (length before)
        ≡ executed_as (execute c input) c before
  exec_recursion_next before cs c rest input e =
      exec_recursion-child (entries (before ++ c ∷ cs) rest) (length before) ∙ λ i.
      after_wait execute capacity (get_elem?-entries before cs c rest i) (e i)

  child-Flow :
      (before cs : List Command) (rest : Args) (input output : List ℕ)
      → child (entries (before ++ cs) rest) (length before) ≡ exited 0 input before
      → Flow input cs output
      → child (entries (before ++ cs) rest) (length (before ++ cs)) ≡ exited 0 output (before ++ cs)
  child-Flow before [] rest input output e f =
      subst (λ (cs : List Command). child (entries cs rest) (length cs) ≡ exited 0 output cs)
        (sym (append-nil before))
        (subst
            (λ (cs : List Command). child (entries cs rest) (length before) ≡ exited 0 input before)
            (append-nil before) e
          ∙ ap (λ l. exited 0 l before) f)
  child-Flow before (c ∷ cs) rest input output e (between, r, h, f) =
      let run : List Command = before ++ c ∷ [] in
      let same : run ++ cs ≡ before ++ c ∷ cs = append_assoc before (c ∷ []) cs in
      let len : length run ≡ suc (length before) = omega (arith, length-append before (c ∷ [])) in
      let reached : child (entries (before ++ c ∷ cs) rest) (suc (length before))
          ≡ exited 0 between run =
        ap (into_pipe capacity)
          (exec_recursion_next before cs c rest input e ∙ ap (λ o. executed_as o c before) r)
        ∙ into_pipe_fits capacity 0 between run h in
      subst (λ (l : List Command). child (entries l rest) (length l) ≡ exited 0 output l) same
        (child-Flow run cs rest between output
          ((λ i. child (entries (same i) rest) (len i)) ∙ reached) f)

  -- What the child of the process of `c` leaves.
  ready :
      (before cs : List Command) (c : Command) (rest : Args) (input : List ℕ)
      → Flow [] before input
      → child (entries (before ++ c ∷ cs) rest) (length before) ≡ exited 0 input before
  ready before cs c rest input f =
      ap (λ l. child l (length before)) (sym (entries-append before (c ∷ cs) rest))
      ∙ child-Flow [] before (entries (c ∷ cs) rest) [] input refl f

  exec_recursion_fails :
      (args : Args) (i status n j : ℕ) (output : List ℕ) (run : List Command)
      → j ≡ i + suc n
      → child args (suc i) ≡ exited (suc status) output run
      → exec_recursion execute capacity args j ≡ exited exit_failure [] run
  exec_recursion_fails args i status zero j output run at e =
      ap (exec_recursion execute capacity args) (omega (arith, at))
      ∙ exec_recursion-child args (suc i)
      ∙ ap (after_wait execute capacity (get_elem? args (suc i))) e
  exec_recursion_fails args i status (suc n) j output run at e =
      let k : ℕ = i + suc n in
      ap (exec_recursion execute capacity args) (omega (arith, at))
      ∙ exec_recursion-child args (suc k)
      ∙ ap (λ r. after_wait execute capacity (get_elem? args (suc k)) (into_pipe capacity r))
          (exec_recursion_fails args i status n k output run refl e)
      ∙ ap (after_wait execute capacity (get_elem? args (suc k)))
          (into_pipe_fits capacity 1 [] run (omega arith))

  exec_recursion_hangs :
      (args : Args) (i n j : ℕ)
      → j ≡ i + suc n
      → child args (suc i) ≡ blocked
      → exec_recursion execute capacity args j ≡ blocked
  exec_recursion_hangs args i zero j at e =
      ap (exec_recursion execute capacity args) (omega (arith, at))
      ∙ exec_recursion-child args (suc i)
      ∙ ap (after_wait execute capacity (get_elem? args (suc i))) e
  exec_recursion_hangs args i (suc n) j at e =
      let k : ℕ = i + suc n in
      ap (exec_recursion execute capacity args) (omega (arith, at))
      ∙ exec_recursion-child args (suc k)
      ∙ ap (λ r. after_wait execute capacity (get_elem? args (suc k)) (into_pipe capacity r))
          (exec_recursion_hangs args i n k refl e)

  -- If the first commands succeed one after the other, each with an output that fits into a pipe, then
  -- the command behind them runs after them on the last output, and its status and its output, of any
  -- length, are those of the pipeline that it ends.
  pub exec_recursion_last :
      (before : List Command) (c : Command) (rest : Args) (input output : List ℕ) (status : ℕ)
      → Flow [] before input
      → execute c input ≡ some (status, output)
      → exec_recursion execute capacity (entries (before ++ c ∷ []) rest) (length before)
        ≡ exited status output (before ++ c ∷ [])
  exec_recursion_last before c rest input output status f r =
      exec_recursion_next before [] c rest input (ready before [] c rest input f)
      ∙ ap (λ o. executed_as o c before) r

  -- Take commands that succeed one after the other, the first on an empty input, with outputs that fit
  -- into a pipe, then a command that fails, with an output that fits too, and at least one more. The
  -- failing command is the last that is executed, and the pipeline ends with the status of a failure.
  pub exec_recursion_stops :
      (before cs : List Command) (c d : Command) (rest : Args) (input output : List ℕ) (status : ℕ)
      → Flow [] before input
      → execute c input ≡ some (suc status, output)
      → length output ≤ capacity
      → exec_recursion execute capacity
          (entries (before ++ c ∷ d ∷ cs) rest)
          (length before + suc (length cs))
        ≡ exited exit_failure [] (before ++ c ∷ [])
  exec_recursion_stops before cs c d rest input output status f r h =
      exec_recursion_fails (entries (before ++ c ∷ d ∷ cs) rest) (length before) status (length cs)
        (length before + suc (length cs)) output (before ++ c ∷ []) refl
        (ap (into_pipe capacity) (
            exec_recursion_next before (d ∷ cs) c rest input (ready before (d ∷ cs) c rest input f)
            ∙ ap (λ o. executed_as o c before) r)
          ∙ into_pipe_fits capacity (suc status) output (before ++ c ∷ []) h)

  -- Take commands that succeed one after the other, the first on an empty input, with outputs that fit
  -- into a pipe, then a command whose output does not fit, whatever its status, and at least one more.
  -- The pipeline blocks for ever.
  pub exec_recursion_blocks :
      (before cs : List Command) (c d : Command) (rest : Args) (input output : List ℕ) (status : ℕ)
      → Flow [] before input
      → execute c input ≡ some (status, output)
      → capacity < length output
      → exec_recursion execute capacity
          (entries (before ++ c ∷ d ∷ cs) rest)
          (length before + suc (length cs))
        ≡ blocked
  exec_recursion_blocks before cs c d rest input output status f r h =
      exec_recursion_hangs (entries (before ++ c ∷ d ∷ cs) rest) (length before) (length cs)
        (length before + suc (length cs)) refl
        (ap (into_pipe capacity) (
            exec_recursion_next before (d ∷ cs) c rest input (ready before (d ∷ cs) c rest input f)
            ∙ ap (λ o. executed_as o c before) r)
          ∙ into_pipe_full capacity status output (before ++ c ∷ []) h)
