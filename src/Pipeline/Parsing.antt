-- ===== src/Pipeline/Parsing.antt =====
-- How `get_pipeline` of Operating-systems/lab5/zad1/main.c reads a line that is written from commands,
-- and what it takes from the file.
use agh_ust_projects.Prelude.{
  ℕ, zero, suc, ◌+◌, ◌-◌, ◌≤◌, ◌<◌, ◌≡◌, ◌≢◌, refl, sym, ap, ◌∙◌, Bool, false, List, [], ◌∷◌, ◌++◌,
  map, Option, some, length, length-append, append_cons_ne, set, drop, ◌==◌, ◌||◌, arith,
}
use mathlib.Core.List.{append-nil, append_assoc}
use agh_ust_projects.CLibrary.{tokens, fgets, flush}
use agh_ust_projects.CLibrary.Tokens.{NoDelim, NoDelim-append, NoDelim-weaken, tokens_word}
use agh_ust_projects.Pipeline.{
  Command, Args, done, extract_loop, extract_subcommands, is_separator, fill_args, filled, parsed,
  get_pipeline, reset_vars, max_subcommands, max_args_nr, max_line_length,
}
use agh_ust_projects.Pipeline.Sequence.{entries}

-- The characters that no word holds.
abbrev pub is_special : ℕ → Bool
is_special c = (c == b'\n' || c == 0) || (c == b'|' || c == 32)

abbrev pub IsWord : List ℕ → Type 0
IsWord w = NoDelim is_special w × (w ≢ [])

abbrev pub Words : Command → Type 0
Words [] = Unit {0}
Words (w ∷ ws) = IsWord w × Words ws

abbrev pub Commands : List Command → Type 0
Commands [] = Unit {0}
Commands (c ∷ cs) = (Words c × (length c < max_args_nr)) × Commands cs

-- Each word with a blank behind it.
abbrev pub written_command : Command → List ℕ
written_command [] = []
written_command (w ∷ ws) = w ++ 32 ∷ written_command ws

-- The commands with bars between them, without the newline.
abbrev pub written : Command → List Command → List ℕ
written c [] = written_command c
written c (d ∷ ds) = written_command c ++ b'|' ∷ written d ds

flush_word : (w : List ℕ) → w ≢ [] → flush w ≡ w ∷ []
flush_word [] h = absurd (h refl)
flush_word (c ∷ w) h = refl

tokens-written : (c : Command) → Words c → tokens is_separator [] (written_command c) ≡ c
unfolding tokens
tokens-written [] h = refl
tokens-written (w ∷ ws) h =
    tokens_word is_separator [] w (written_command ws) 32
      (NoDelim-weaken is_special is_separator w (λ c e. ground (arith, e)) h.0.0) refl
    ∙ λ i. flush_word w h.0.1 i ++ tokens-written ws h.1 i

-- The characters of `extract_subcommands` that end a subcommand.
abbrev ends : ℕ → Bool
ends c = (c == b'\n' || c == 0) || c == b'|'

written_command-ends : (c : Command) → Words c → NoDelim ends (written_command c)
written_command-ends [] h = tt
written_command-ends (w ∷ ws) h =
    NoDelim-append ends w (32 ∷ written_command ws)
      (NoDelim-weaken is_special ends w (λ c e. ground (arith, e)) h.0.0)
      (refl, written_command-ends ws h.1)

written_command-newline : (c : Command) → Words c → NoDelim (λ c. c == b'\n') (written_command c)
written_command-newline c h =
    NoDelim-weaken ends (λ c. c == b'\n') (written_command c) (λ c e. ground (arith, e))
      (written_command-ends c h)

extract_other :
    (cs : List ℕ) (before : List (List ℕ)) (current : List ℕ) (c : ℕ)
    → ends c ≡ false
    → extract_loop (c ∷ cs) before current ≡ extract_loop cs before (current ++ c ∷ [])
unfolding extract_loop
extract_other cs before current c e = ground (arith, e)

extract_plain :
    (text rest : List ℕ) (before : List (List ℕ)) (current : List ℕ)
    → NoDelim ends text
    → extract_loop (text ++ rest) before current ≡ extract_loop rest before (current ++ text)
extract_plain [] rest before current n = ap (extract_loop rest before) (sym (append-nil current))
extract_plain (c ∷ text) rest before current n =
    extract_other (text ++ rest) before current c n.0
    ∙ extract_plain text rest before (current ++ c ∷ []) n.1
    ∙ ap (extract_loop rest before) (append_assoc current (c ∷ []) text)

extract_bar :
    (cs : List ℕ) (before : List (List ℕ)) (current : List ℕ)
    → length before + 1 < max_subcommands
    → extract_loop (b'|' ∷ cs) before current ≡ extract_loop cs (before ++ current ∷ []) []
unfolding extract_loop
extract_bar cs before current h = ground (arith, h)

extract-written :
    (c : Command) (cs : List Command) (before : List (List ℕ))
    → Commands (c ∷ cs)
    → length before + length (c ∷ cs) ≤ max_subcommands
    → extract_loop (written c cs ++ b'\n' ∷ []) before []
      ≡ some (before ++ map written_command (c ∷ cs))
unfolding extract_loop
extract-written c [] before h l =
    extract_plain (written_command c) (b'\n' ∷ []) before [] (written_command-ends c h.0.0)
extract-written c (d ∷ ds) before h l =
    let seen : List (List ℕ) = before ++ written_command c ∷ [] in
    let one_more : length seen ≡ length before + 1 =
      length-append before (written_command c ∷ []) in
    ap (λ t. extract_loop t before [])
      (append_assoc (written_command c) (b'|' ∷ written d ds) (b'\n' ∷ []))
    ∙ extract_plain (written_command c) (b'|' ∷ written d ds ++ b'\n' ∷ []) before []
        (written_command-ends c h.0.0)
    ∙ extract_bar (written d ds ++ b'\n' ∷ []) before (written_command c) (omega (arith, l))
    ∙ extract-written d ds seen h.1 (omega (arith, l, one_more))
    ∙ ap some (append_assoc before (written_command c ∷ []) (map written_command (d ∷ ds)))

set-entries :
    (before : List Command) (c : Command) (x : Option Command) (rest : Args)
    → set (entries before (x ∷ rest)) (length before) (some c) ≡ entries (before ++ c ∷ []) rest
set-entries [] c x rest = refl
set-entries (b ∷ before) c x rest = ap (λ l. some b ∷ l) (set-entries before c x rest)

fill_one :
    (i : ℕ) (subcommand : List ℕ) (subcommands : List (List ℕ)) (args : Args) (words : Command)
    → tokens is_separator [] subcommand ≡ words
    → length words < max_args_nr
    → fill_args i (subcommand ∷ subcommands) args
      ≡ fill_args (i + 1) subcommands (set args i (some words))
unfolding fill_args
fill_one i subcommand subcommands args words e h = ground (arith, e, h)

fill_args-written :
    (before cs : List Command) (i : ℕ) (rest : Args)
    → i ≡ length before
    → length cs ≤ length rest
    → Commands cs
    → fill_args i (map written_command cs) (entries before rest)
      ≡ some (entries (before ++ cs) (drop (length cs) rest))
unfolding fill_args
fill_args-written before [] i rest e l h = ap (λ b. some (entries b rest)) (sym (append-nil before))
fill_args-written before (c ∷ cs) i [] e l h = absurd (ground (arith, l))
fill_args-written before (c ∷ cs) i (x ∷ rest) e l h =
    let seen : List Command = before ++ c ∷ [] in
    let one_more : length seen ≡ length before + 1 = length-append before (c ∷ []) in
    fill_one i (written_command c) (map written_command cs) (entries before (x ∷ rest)) c
      (tokens-written c h.0.0) h.0.1
    ∙ ap
        (λ k.
          fill_args (i + 1) (map written_command cs) (set (entries before (x ∷ rest)) k (some c)))
        e
    ∙ ap (fill_args (i + 1) (map written_command cs)) (set-entries before c x rest)
    ∙ fill_args-written seen cs (i + 1) rest (omega (arith, e, one_more)) (omega (arith, l)) h.1
    ∙ ap (λ b. some (entries b (drop (length cs) rest))) (append_assoc before (c ∷ []) cs)

-- A line of fewer than `n` characters is read whole.
fgets_line :
    (text rest : List ℕ) (n : ℕ)
    → NoDelim (λ c. c == b'\n') text
    → length text < n
    → fgets n (text ++ b'\n' ∷ rest) ≡ (text ++ b'\n' ∷ [], rest)
unfolding fgets
fgets_line text rest zero m h = absurd (ground (arith, h))
fgets_line [] rest (suc n) m h = refl
fgets_line (c ∷ text) rest (suc n) m h =
    ground (arith, m.0, fgets_line text rest n m.1 (omega (arith, h)))

written-newline :
    (c : Command) (cs : List Command) → Commands (c ∷ cs) → NoDelim (λ c. c == b'\n') (written c cs)
written-newline c [] h = written_command-newline c h.0.0
written-newline c (d ∷ ds) h =
    NoDelim-append (λ c. c == b'\n') (written_command c) (b'|' ∷ written d ds)
      (written_command-newline c h.0.0) (refl, written-newline d ds h.1)

parsed_line :
    (line rest file : List ℕ) (args : Args)
    → fgets (max_line_length - 1) file ≡ (line, rest)
    → file ≢ []
    → get_pipeline args file ≡ parsed (extract_subcommands line) args rest
unfolding get_pipeline
parsed_line line rest [] args e n = absurd (n refl)
parsed_line line rest (c ∷ cs) args e n =
    ap (λ (r : List ℕ × List ℕ). parsed (extract_subcommands r.0) args r.1) e

-- A line that is written from one to five commands, each of fewer than 64 words, no word empty or with
-- a blank, a newline, a bar or a null character, and that has fewer than 255 characters before its
-- newline, is read back: the commands stand in `args` from its start, null pointers behind them, and
-- the file goes on behind the line.
pub get_pipeline-written :
    (c : Command) (cs : List Command) (file : List ℕ)
    → Commands (c ∷ cs)
    → length (c ∷ cs) ≤ max_subcommands
    → length (written c cs) < max_line_length - 1
    → get_pipeline reset_vars (written c cs ++ b'\n' ∷ file)
      ≡ done (entries (c ∷ cs) (drop (length (c ∷ cs)) reset_vars)) file
get_pipeline-written c cs file h l n =
    parsed_line (written c cs ++ b'\n' ∷ []) file (written c cs ++ b'\n' ∷ file) reset_vars
      (fgets_line (written c cs) file (max_line_length - 1) (written-newline c cs h) n)
      (append_cons_ne (written c cs) file b'\n')
    ∙ ap (λ r. parsed r reset_vars file) (extract-written c cs [] h (omega (arith, l)))
    ∙ ap (λ r. filled r file) (fill_args-written [] (c ∷ cs) 0 reset_vars refl l h)
