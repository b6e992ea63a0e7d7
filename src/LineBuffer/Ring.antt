-- ===== src/LineBuffer/Ring.antt =====
-- The circular buffer of Operating-systems/lab9 hands the lines on in order.
use agh_ust_projects.Prelude.{
  ℕ, suc, ◌+◌, ◌-◌, ◌%◌, ◌<◌, ◌≡◌, refl, sym, ap, ◌∙◌, List, [], ◌∷◌, ◌++◌, if◌then◌else◌, arith,
  length, set, get_or, length-set, length-replicate,
}
use native.Mathlib.Nat.{mod-add-mod, mod-eq_of_lt, mod-lt}
use mathlib.Core.List.{append_assoc}
use agh_ust_projects.Prelude.Window.{window, window-set, round_suc}
use agh_ust_projects.LineBuffer.{Line, Buffer, init_buffer, is_printed, put_line, take_line}

-- The lines among a list that a consumer prints.
unfoldable pub chosen : ℕ → ℕ → List Line → List Line
chosen mode_l l [] = []
chosen mode_l l (x ∷ xs) =
    if is_printed mode_l l x then x ∷ chosen mode_l l xs else chosen mode_l l xs

abbrev pub contents : Buffer → List Line
contents b = window [] b.slots b.n b.read_from b.count

-- The buffer while lines of `book` have gone in: what was taken, what is inside and what is still to
-- come make up the book, in order.
pub record Delivers (book : List Line) (b : Buffer) (rest : List Line) : Type 0 where
  pub some_slot : 0 < b.n
  pub room : length b.slots ≡ b.n
  pub read_in : b.read_from < b.n
  pub write_at : b.write_to ≡ (b.read_from + b.count) % b.n
  pub in_order : b.taken ++ (contents b ++ rest) ≡ book
  pub shown : b.printed ≡ chosen b.mode_l b.l b.taken

chosen-append :
    (m l : ℕ) (xs : List Line) (x : Line)
    → chosen m l (xs ++ x ∷ [])
      ≡ (if is_printed m l x then chosen m l xs ++ x ∷ [] else chosen m l xs)
unfolding chosen
chosen-append m l [] x = ground arith
chosen-append m l (y ∷ ys) x = ground (arith, chosen-append m l ys x)

pub init-Delivers :
    (n l mode_l : ℕ) (book : List Line) → 0 < n → Delivers book (init_buffer n l mode_l) book
unfolding init_buffer chosen
init-Delivers n l mode_l book h = record {
  some_slot = h;
  room = length-replicate n [];
  read_in = h;
  write_at = sym (mod-eq_of_lt h);
  in_order = refl;
  shown = refl;
}

pub put_line-Delivers :
    (book : List Line) (b : Buffer) (line : Line) (rest : List Line)
    → Delivers book b (line ∷ rest)
    → b.count < b.n
    → Delivers book (put_line line b) rest
unfolding put_line
put_line-Delivers book b line rest v h = record {
  some_slot = v.some_slot;
  room = length-set b.slots b.write_to line ∙ v.room;
  read_in = v.read_in;
  write_at =
      ap (λ j. (j + 1) % b.n) v.write_at
      ∙ (mod-add-mod (b.read_from + b.count) b.n 1 ∙ ap (λ j. j % b.n) (omega arith));
  in_order =
      ap (λ t. b.taken ++ (t ++ rest))
        (ap (λ k. window [] (set b.slots b.write_to line) b.n b.read_from k)
            (let e : b.count + 1 ≡ suc b.count = omega arith in e)
          ∙ window-set [] b.slots b.n line b.count b.read_from b.write_to (omega (arith, v.room))
              v.read_in h v.write_at)
      ∙ (ap (λ t. b.taken ++ t) (append_assoc (contents b) (line ∷ []) rest) ∙ v.in_order);
  shown = v.shown;
}

pub take_line-Delivers :
    (book : List Line) (b : Buffer) (rest : List Line)
    → Delivers book b rest
    → 0 < b.count
    → Delivers book (take_line b) rest
unfolding take_line
take_line-Delivers book b rest v h = record {
  some_slot = v.some_slot;
  room = v.room;
  read_in = mod-lt (b.read_from + 1) v.some_slot;
  write_at =
      v.write_at
      ∙ (ap (λ j. (b.read_from + j) % b.n) (let e : b.count ≡ suc (b.count - 1) = omega arith in e)
          ∙ round_suc b.read_from (b.count - 1) b.n);
  in_order = append_assoc b.taken _ _ ∙ (ap (λ k. b.taken ++ (k ++ rest)) opened ∙ v.in_order);
  shown =
      ap (λ t. if is_printed b.mode_l b.l line then t ++ line ∷ [] else t) v.shown
      ∙ sym (chosen-append b.mode_l b.l b.taken line);
}
  where
    line : Line
    line = get_or b.slots b.read_from []

    opened :
        get_or b.slots b.read_from []
          ∷ window [] b.slots b.n ((b.read_from + 1) % b.n) (b.count - 1)
        ≡ contents b
    opened =
        ap (λ k. window [] b.slots b.n b.read_from k)
          (let e : suc (b.count - 1) ≡ b.count = omega arith in e)
