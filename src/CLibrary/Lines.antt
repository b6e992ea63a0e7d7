-- ===== src/CLibrary/Lines.antt =====
-- How `getline` splits a text.
use agh_ust_projects.Prelude.{
  ℕ, ◌≡◌, ◌≢◌, sym, ap, ◌∙◌, Bool, false, List, [], ◌∷◌, ◌++◌, refl, ◌==◌, arith,
}
use mathlib.Core.List.{append_assoc, append-nil}
use agh_ust_projects.CLibrary.{lines}
use agh_ust_projects.CLibrary.Tokens.{NoDelim}

abbrev pub is_newline : ℕ → Bool
is_newline c = c == b'\n'

lines_char :
    (current rest : List ℕ) (c : ℕ)
    → is_newline c ≡ false
    → lines current (c ∷ rest) ≡ lines (current ++ c ∷ []) rest
unfolding lines
lines_char [] rest c e = ground (arith, e)
lines_char (b ∷ current) rest c e = ground (arith, e)

pub lines_plain :
    (current text rest : List ℕ)
    → NoDelim is_newline text
    → lines current (text ++ rest) ≡ lines (current ++ text) rest
lines_plain current [] rest n = ap (λ l. lines l rest) (sym (append-nil current))
lines_plain current (c ∷ text) rest n =
    lines_char current (text ++ rest) c n.0
    ∙ lines_plain (current ++ c ∷ []) text rest n.1
    ∙ ap (λ l. lines l rest) (append_assoc current (c ∷ []) text)

pub lines_newline :
    (current rest : List ℕ) → lines current (b'\n' ∷ rest) ≡ (current ++ b'\n' ∷ []) ∷ lines [] rest
unfolding lines
lines_newline [] rest = refl
lines_newline (b ∷ current) rest = refl

pub lines_end : (current : List ℕ) → current ≢ [] → lines current [] ≡ current ∷ []
unfolding lines
lines_end [] n = absurd (n refl)
lines_end (b ∷ current) n = refl
