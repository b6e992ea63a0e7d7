-- ===== src/MessageQueue/Table.antt =====
-- Registering, leaving and mirroring at the server of Operating-systems/lab6/zad1/server.c.
use agh_ust_projects.Prelude.{
  ℕ, zero, suc, ◌+◌, ◌<◌, ◌≡◌, ◌≢◌, refl, sym, ap, ◌∙◌, Bool, true, false, List, [], ◌∷◌, ◌++◌, ◌⊎◌,
  inl, inr, Option, none, some, length, set, get_or, length-set, arith,
}
use mathlib.Core.Path.{subst}
use mathlib.Core.List.{reverse, reverse-cons}
use agh_ust_projects.Prelude.Int.{ℤ, pos, negsuc}
use agh_ust_projects.MessageQueue.{
  Message, Server, free, is_free, find_free, new_client, delete_client, mirror_fun, mirror_loop,
  reply, error, queue_full, max_clients, register_at,
}
use agh_ust_projects.CLibrary.{digits_value, atoi, print_ℕ}
use agh_ust_projects.CLibrary.Numerals.{atoi-print_ℕ}

-- Slot `i` is the first free one.
abbrev pub FirstFree : List ℤ → ℕ → Type 0
FirstFree [] i = ⊥
FirstFree (c ∷ cs) zero = c ≡ free
FirstFree (c ∷ cs) (suc i) = (c ≢ free) × FirstFree cs i

abbrev pub NoneFree : List ℤ → Type 0
NoneFree [] = Unit {0}
NoneFree (c ∷ cs) = (c ≢ free) × NoneFree cs

pub is_free-cases : (c : ℤ) → ((is_free c ≡ true) × (c ≡ free)) ⊎ ((is_free c ≡ false) × (c ≢ free))
is_free-cases (pos n) = inr (refl, λ e. cc)
is_free-cases (negsuc zero) = inl (refl, refl)
is_free-cases (negsuc (suc n)) = inr (ground arith, λ e. ground arith)

pub find_free_lem :
    (cs : List ℤ) (k : ℕ)
    → ((i : ℕ) × (find_free k cs ≡ some (k + i)) × FirstFree cs i)
      ⊎ ((find_free k cs ≡ none) × NoneFree cs)
unfolding find_free
find_free_lem [] k = inr (refl, tt)
find_free_lem (c ∷ cs) k = elim (is_free-cases c) [
  | inl (e, f) ↦ inl (0, ground (arith, e), f)
  | inr (e, f) ↦ elim (find_free_lem cs (k + 1)) [
    | inl (i, p, q) ↦ inl (suc i, ground (arith, e, p), (f, q))
    | inr (p, q) ↦ inr (ground (arith, e, p), (f, q))
  ]
]

pub set-set_free : (cs : List ℤ) (i : ℕ) (v : ℤ) → FirstFree cs i → set (set cs i v) i free ≡ cs
set-set_free [] i v f = refl
set-set_free (c ∷ cs) zero v f = ap (λ x. x ∷ cs) (sym f)
set-set_free (c ∷ cs) (suc i) v f = ap (λ l. c ∷ l) (set-set_free cs i v f.1)

pub FirstFree-lt : (cs : List ℤ) (i : ℕ) → FirstFree cs i → i < length cs
FirstFree-lt [] i f = elim f [ ]
FirstFree-lt (c ∷ cs) zero f = omega arith
FirstFree-lt (c ∷ cs) (suc i) f = omega (arith, FirstFree-lt cs i f.1)

mirror_loop-cons :
    (k x : ℕ) (t out : List ℕ) → mirror_loop (suc k) (x ∷ t) out ≡ mirror_loop k t out ++ x ∷ []
unfolding mirror_loop
mirror_loop-cons zero x t out = refl
mirror_loop-cons (suc k) x t out = mirror_loop-cons k x t (out ++ get_or t k 0 ∷ [])

mirror_loop-reverse : (t : List ℕ) → mirror_loop (length t) t [] ≡ reverse t
unfolding mirror_loop
mirror_loop-reverse [] = refl
mirror_loop-reverse (x ∷ t) =
    mirror_loop-cons (length t) x t []
    ∙ (ap (λ l. l ++ x ∷ []) (mirror_loop-reverse t) ∙ sym (reverse-cons x t))

-- What `new_client` comes to when the reply can be sent.
abbrev pub Registered : Message → Server → Server → Type 0
Registered m s s' =
    ((i : ℕ) × FirstFree s.clients i
      × (s'.clients ≡ set s.clients i (atoi m.mtext))
      × (s'.sent ≡ s.sent ++ record { queue = atoi m.mtext; mtype = reply; mtext = print_ℕ i } ∷ [])
      × (atoi (print_ℕ i) ≡ pos i))
    ⊎ (NoneFree s.clients
        × (s'.clients ≡ s.clients)
        × (s'.sent ≡ s.sent ++ record { queue = pos 0; mtype = error; mtext = queue_full } ∷ []))

pub FirstFree-unique : (cs : List ℤ) (i j : ℕ) → FirstFree cs i → FirstFree cs j → i ≡ j
FirstFree-unique [] i j f g = elim f [ ]
FirstFree-unique (c ∷ cs) zero zero f g = refl
FirstFree-unique (c ∷ cs) zero (suc j) f g = absurd (g.0 f)
FirstFree-unique (c ∷ cs) (suc i) zero f g = absurd (f.0 g)
FirstFree-unique (c ∷ cs) (suc i) (suc j) f g = ap suc (FirstFree-unique cs i j f.1 g.1)

pub NoneFree-FirstFree : (cs : List ℤ) (i : ℕ) → NoneFree cs → FirstFree cs i → ⊥
NoneFree-FirstFree [] i n f = f
NoneFree-FirstFree (c ∷ cs) zero n f = n.0 f
NoneFree-FirstFree (c ∷ cs) (suc i) n f = NoneFree-FirstFree cs i n.1 f.1

-- "Queue full" does not start with a number.
full-queue_zero : atoi queue_full ≡ pos 0
unfolding atoi digits_value
full-queue_zero = refl

pub find_free-FirstFree : (cs : List ℤ) (i : ℕ) → find_free 0 cs ≡ some i → FirstFree cs i
find_free-FirstFree cs i e = elim (find_free_lem cs 0) [
  | inl (j, p, f) ↦
      let found : find_free 0 cs ≡ some j = p ∙ ap some (omega arith) in
      let same : j ≡ i = cc in subst (FirstFree cs) same f
  | inr (p, f) ↦ cc
]

pub find_free-first : (cs : List ℤ) (i : ℕ) → FirstFree cs i → find_free 0 cs ≡ some i
find_free-first cs i f = elim (find_free_lem cs 0) [
  | inl (j, p, g) ↦
      let same : j ≡ i = FirstFree-unique cs j i g f in p ∙ ap some (omega (arith, same))
  | inr (p, n) ↦ absurd (NoneFree-FirstFree cs i n f)
]

pub find_free-none : (cs : List ℤ) → NoneFree cs → find_free 0 cs ≡ none
find_free-none cs n = elim (find_free_lem cs 0) [
  | inl (j, p, g) ↦ absurd (NoneFree-FirstFree cs j n g)
  | inr (p, m) ↦ p
]

module _ (os : ℕ → Bool) where
  registered :
      (id : ℕ) (text : List ℕ) (s : Server)
      → os s.calls ≡ true
      → register_at os (some id) text s ≡ record s {
        clients = set s.clients id (atoi text);
        calls = s.calls + 1;
        sent = s.sent ++ record { queue = atoi text; mtype = reply; mtext = print_ℕ id } ∷ [];
      }
  registered id text s u = rw u

  refused :
      (text : List ℕ) (s : Server)
      → os s.calls ≡ true
      → register_at os none text s ≡ record s {
        calls = s.calls + 1;
        sent = s.sent ++ record { queue = pos 0; mtype = error; mtext = queue_full } ∷ [];
      }
  refused text s u = ground (arith, u, full-queue_zero)

  unsent :
      (id : Option ℕ) (text : List ℕ) (s : Server)
      → os s.calls ≡ false
      → ((i : ℕ) → id ≡ some i → FirstFree s.clients i)
      → (register_at os id text s).clients ≡ s.clients
  unsent none text s u f = ground (arith, u)
  unsent (some i) text s u f = ground (arith, u, set-set_free s.clients i (atoi text) (f i refl))

  -- If the message can be sent, a newcomer gets the first free slot, the queue that its text names is
  -- entered there, and the reply in that queue reads back as the slot. If no slot is free, the table
  -- stays, and the error goes to queue 0, whatever queue the newcomer named.
  pub new_client-Registered :
      (m : Message) (s : Server) → os s.calls ≡ true → Registered m s (new_client os m s)
  unfolding new_client
  new_client-Registered m s u = elim (find_free_lem s.clients 0) [
    | inl (i, p, f) ↦
        let found : find_free 0 s.clients ≡ some i = p ∙ ap some (omega arith) in
        let run = ap (λ o. register_at os o m.mtext s) found ∙ registered i m.mtext s u in
        inl (i, f, ap (λ r. r.clients) run, ap (λ r. r.sent) run, atoi-print_ℕ i)
    | inr (p, f) ↦
        let run = ap (λ o. register_at os o m.mtext s) p ∙ refused m.mtext s u in
        inr (f, ap (λ r. r.clients) run, ap (λ r. r.sent) run)
  ]

  -- If the message cannot be sent, the table is as it was.
  pub new_client_unsent :
      (m : Message) (s : Server) → os s.calls ≡ false → (new_client os m s).clients ≡ s.clients
  unfolding new_client
  new_client_unsent m s u =
      unsent (find_free 0 s.clients) m.mtext s u (λ i e. find_free-FirstFree s.clients i e)

  -- In a table of ten entries, if the reply can be sent: a client that registers when slot `i` is
  -- the first free one, and then leaves under the number `i`, restores the table.
  pub delete_client-new_client :
      (m n : Message) (s : Server) (i : ℕ)
      → length s.clients ≡ max_clients
      → os s.calls ≡ true
      → FirstFree s.clients i
      → n.client_id ≡ pos i
      → (s' : Server) × (delete_client n (new_client os m s) ≡ some s') × (s'.clients ≡ s.clients)
  unfolding delete_client
  delete_client-new_client m n s i l u f e = elim (new_client-Registered m s u) [
    | inl (j, g, c, t, a) ↦
        let same : j ≡ i = FirstFree-unique s.clients j i g f in
        let lt : i < length s.clients = FirstFree-lt s.clients i f in
        let kept : length (new_client os m s).clients ≡ length s.clients =
          ap (λ l. length l) c ∙ length-set s.clients j (atoi m.mtext) in
        let back : set (new_client os m s).clients i free ≡ s.clients =
          ap (λ l. set l i free) (c ∙ ap (λ k. set s.clients k (atoi m.mtext)) same)
          ∙ set-set_free s.clients i (atoi m.mtext) f in
        (
          record (new_client os m s) { clients = set (new_client os m s).clients i free },
          rw e (ground (arith, lt, kept, l)),
          back,
        )
    | inr (g, c, t) ↦ absurd (NoneFree-FirstFree s.clients i g f)
  ]

  -- If the message can be sent, a mirror request is answered in the given queue with the reversed
  -- text, and the table stays.
  pub mirror_fun-reverse :
      (queue : ℤ) (text : List ℕ) (s : Server)
      → os s.calls ≡ true
      → mirror_fun os queue text s ≡ record s {
        calls = s.calls + 1;
        sent = s.sent ++ record { queue = queue; mtype = reply; mtext = reverse text } ∷ [];
      }
  unfolding mirror_fun
  mirror_fun-reverse queue text s u = ground (arith, u, mirror_loop-reverse text)
