-- ===== src/LineBuffer/Semaphores/Progress.antt =====
-- The threads of Operating-systems/lab9/zad2/main.c come to a halt, and not before the whole book is
-- consumed.
use agh_ust_projects.Prelude.{
  ℕ, ◌+◌, ◌*◌, ◌≤◌, ◌<◌, ◌≡◌, ◌≢◌, ◌⊎◌, inl, inr, refl, sym, ap, ◌∙◌, List, [], ◌∷◌, ◌++◌, length,
  dec_lt, arith,
}
use mathlib.Core.List.{append-nil}
use agh_ust_projects.Prelude.Window.{window}
use agh_ust_projects.LineBuffer.{Line, Buffer}
use agh_ust_projects.LineBuffer.Ring.{contents, chosen}
use agh_ust_projects.LineBuffer.Semaphores.{
  System, init, Step, p_wait_slot, p_wait_turn, p_put, p_end_of_book, p_post_line, p_post_turn,
  p_exit, c_wait_line, c_wait_turn, c_take, c_post_slot, c_post_turn, Reach, here, next,
}
use agh_ust_projects.LineBuffer.Semaphores.Invariant.{inside, Counts, Reach-Counts, lines_in_order}

-- How many steps are left at most: ten for a line, and four for a producer that stops.
abbrev potential : System → ℕ
potential s =
    10 * length s.book
    + 4 * s.p_start
    + 3 * s.p_slot
    + 2 * s.p_inside
    + s.p_at_end
    + 5 * s.p_posted
    + 11 * s.p_filled
    + 5 * s.not_empty
    + 4 * s.c_line
    + 3 * s.c_inside
    + 2 * s.c_emptied
    + s.c_posted

Step-potential : {s t : System} → Step s t → potential t < potential s
Step-potential (p_wait_slot a b) = omega arith
Step-potential (p_wait_turn a b) = omega arith
Step-potential (p_put line rest a e) = omega (arith, ap length e)
Step-potential (p_end_of_book a e) = omega arith
Step-potential (p_post_line a) = omega arith
Step-potential (p_post_turn a) = omega arith
Step-potential (p_exit a) = omega arith
Step-potential (c_wait_line a b) = omega arith
Step-potential (c_wait_turn a b) = omega arith
Step-potential (c_take a) = omega arith
Step-potential (c_post_slot a) = omega arith
Step-potential (c_post_turn a) = omega arith

abbrev pub steps : {s t : System} → Reach s t → ℕ
steps here = 0
steps (next r st) = steps r + 1

Reach-potential : {s t : System} (r : Reach s t) → steps r + potential t ≤ potential s
Reach-potential here = omega arith
Reach-potential (next r st) = omega (arith, Reach-potential r, Step-potential st)

-- A producer that stops has seen the end of the book.
AtEnd : System → Type 0
AtEnd s = (s.p_at_end + s.p_exited ≡ 0) ⊎ (s.book ≡ [])

cons_ne_nil : {line : Line} {rest : List Line} → line ∷ rest ≢ []
cons_ne_nil e = cc

Step-AtEnd : {s t : System} → Step s t → AtEnd s → AtEnd t
unfolding AtEnd
Step-AtEnd (p_wait_slot a b) v = v
Step-AtEnd (p_wait_turn a b) v = v
Step-AtEnd (p_put line rest a e) (inl v) = inl v
Step-AtEnd (p_put line rest a e) (inr v) = absurd (cons_ne_nil (sym e ∙ v))
Step-AtEnd (p_end_of_book a e) v = inr e
Step-AtEnd (p_post_line a) v = v
Step-AtEnd (p_post_turn a) v = v
Step-AtEnd (p_exit a) (inl v) = absurd (omega arith)
Step-AtEnd (p_exit a) (inr v) = inr v
Step-AtEnd (c_wait_line a b) v = v
Step-AtEnd (c_wait_turn a b) v = v
Step-AtEnd (c_take a) v = v
Step-AtEnd (c_post_slot a) v = v
Step-AtEnd (c_post_turn a) v = v

-- No thread is lost.
abbrev consumers : System → ℕ
consumers s = s.c_start + s.c_line + s.c_inside + s.c_emptied + s.c_posted

Step-consumers : {s t : System} → Step s t → consumers t ≡ consumers s
Step-consumers (p_wait_slot a b) = refl
Step-consumers (p_wait_turn a b) = refl
Step-consumers (p_put line rest a e) = refl
Step-consumers (p_end_of_book a e) = refl
Step-consumers (p_post_line a) = refl
Step-consumers (p_post_turn a) = refl
Step-consumers (p_exit a) = refl
Step-consumers (c_wait_line a b) = omega arith
Step-consumers (c_wait_turn a b) = omega arith
Step-consumers (c_take a) = omega arith
Step-consumers (c_post_slot a) = omega arith
Step-consumers (c_post_turn a) = omega arith

abbrev pub Stuck : System → Type 0
Stuck s = (t : System) → ¬ Step s t

none_of : {m : ℕ} → ¬ (0 < m) → m ≡ 0
none_of h = omega (arith, h)

record Halted (s : System) : Type 0 where
  outside : inside s ≡ 0
  slot : s.p_slot ≡ 0
  line : s.c_line ≡ 0
  no_line : (s.c_start ≡ 0) ⊎ (s.not_empty ≡ 0)
  no_slot : (s.p_start ≡ 0) ⊎ (s.not_full ≡ 0)

some_book :
    (book : List Line) → (book ≡ []) ⊎ ((line : Line) × (rest : List Line) × (book ≡ line ∷ rest))
some_book [] = inl refl
some_book (line ∷ rest) = inr (line, rest, refl)

-- A producer inside can always go on.
Stuck-p_inside : {s : System} → Stuck s → s.p_inside ≡ 0
Stuck-p_inside {s} stuck = none_of (λ one. elim (some_book s.book) [
  | inl e ↦ stuck _ (p_end_of_book one e)
  | inr more ↦ stuck _ (p_put more.0 more.1 one more.2)
])

Stuck-Halted : {p n : ℕ} {s : System} → Stuck s → Counts p n s → Halted s
Stuck-Halted {s} stuck v = record {
  outside = none_inside;
  slot = none_of (λ one. stuck _ (p_wait_turn one free));
  line = none_of (λ one. stuck _ (c_wait_turn one free));
  no_line = either (λ one two. stuck _ (c_wait_line one two));
  no_slot = either (λ one two. stuck _ (p_wait_slot one two));
}
  where
    none_inside : inside s ≡ 0
    none_inside = omega (
      arith,
      Stuck-p_inside stuck,
      none_of (λ one. stuck _ (p_post_line one)),
      none_of (λ one. stuck _ (p_post_turn one)),
      none_of (λ one. stuck _ (p_exit one)),
      none_of (λ one. stuck _ (c_take one)),
      none_of (λ one. stuck _ (c_post_slot one)),
      none_of (λ one. stuck _ (c_post_turn one)),
    )

    free : 0 < s.counting
    free = omega (arith, v.one_inside, none_inside)

    either : {a b : ℕ} → (0 < a → 0 < b → ⊥) → (a ≡ 0) ⊎ (b ≡ 0)
    either {a} {b} h = elim (dec_lt 0 a) [
      | yes one ↦ inr (none_of (h one))
      | no none ↦ inl (none_of none)
    ]

contents-empty : (b : Buffer) → b.count ≡ 0 → contents b ≡ []
contents-empty b e = ap (λ m. window [] b.slots b.n b.read_from m) e

module _ (n l mode_l p k : ℕ) (book : List Line) where
  Reach-AtEnd : {s : System} → Reach (init n l mode_l p k book) s → AtEnd s
  unfolding AtEnd
  Reach-AtEnd here = inl refl
  Reach-AtEnd (next r st) = Step-AtEnd st (Reach-AtEnd r)

  Reach-consumers : {s : System} → Reach (init n l mode_l p k book) s → consumers s ≡ k
  Reach-consumers here = omega arith
  Reach-consumers (next r st) = Step-consumers st ∙ Reach-consumers r

  -- In every interleaving of any number of producers and consumers, a run has at most ten steps for
  -- each line of the book, and four for each producer.
  pub run_bounded :
      {s : System} → (r : Reach (init n l mode_l p k book) s) → steps r ≤ 10 * length book + 4 * p
  run_bounded r = omega (arith, Reach-potential r)

  -- With at least one slot, one producer and one consumer, in every interleaving: when no thread can
  -- go on, the whole book was read and consumed, in order, and the chosen ones of its lines were
  -- printed, in order.
  pub delivers_all :
      {s : System}
      → 0 < n
      → 0 < p
      → 0 < k
      → Reach (init n l mode_l p k book) s
      → Stuck s
      → (s.book ≡ [])
        × (s.buffer.taken ≡ book)
        × (s.buffer.printed ≡ chosen s.buffer.mode_l s.buffer.l book)
  unfolding AtEnd
  delivers_all {s} some_slot producer consumer r stuck =
      (at_end, all_taken, delivered.1 ∙ ap (chosen s.buffer.mode_l s.buffer.l) all_taken)
    where
      v : Counts p n s
      v = Reach-Counts n l mode_l p k book r

      h : Halted s
      h = Stuck-Halted stuck v

      empty : s.buffer.count ≡ 0
      empty = omega (arith, v.lines, h.outside, h.line, h.no_line, Reach-consumers r)

      exited : 0 < s.p_at_end + s.p_exited
      exited = omega (arith, v.slots, v.producers, h.outside, h.slot, h.no_slot, empty)

      at_end : s.book ≡ []
      at_end = elim (Reach-AtEnd r) [
        | inl none_exited ↦ absurd (omega (arith, none_exited, exited))
        | inr e ↦ e
      ]

      delivered :
          (s.buffer.taken ++ (contents s.buffer ++ s.book) ≡ book)
          × (s.buffer.printed ≡ chosen s.buffer.mode_l s.buffer.l s.buffer.taken)
      delivered = lines_in_order n l mode_l p k book some_slot r

      nothing_left : contents s.buffer ++ s.book ≡ []
      nothing_left = (λ i. contents-empty s.buffer empty i ++ at_end i)

      all_taken : s.buffer.taken ≡ book
      all_taken =
          sym (append-nil s.buffer.taken)
          ∙ ap (λ rest. s.buffer.taken ++ rest) (sym nothing_left)
          ∙ delivered.0
