-- ===== src/SocketServer/Server/Table.antt =====
-- The client table of lab10/zad1/server.c as a list: what its array operations come to.
use agh_ust_projects.Prelude.{
  ℕ, zero, suc, ◌+◌, ◌<◌, ◌≡◌, refl, Bool, true, false, List, [], ◌∷◌, ◌++◌, none, some, arith,
  if◌then◌else◌, ◌==◌, ◌⊎◌, inl, inr, Bool-cases, length, set, get_or, take, ◌||◌, remove_at,
}
use agh_ust_projects.SocketServer.Protocol.{Client, client_max}
use agh_ust_projects.CLibrary.{str_eq}
use agh_ust_projects.SocketServer.Server.{no_client, find_name, u8_inc, u8_dec}

-- The specification: a list of clients with distinct names.
unfoldable pub has : List Client → List ℕ → Bool
has [] name = false
has (c ∷ cs) name = if str_eq c.name name then true else has cs name

unfoldable pub without : List Client → List ℕ → List Client
without [] name = []
without (c ∷ cs) name = if str_eq c.name name then cs else c ∷ without cs name

abbrev pub newcomer : List ℕ → ℕ → Client
newcomer name fd = record { fd = fd; name = name; is_inactive = 0 }

-- A client joins unless the table is full or has the name.
abbrev pub register : List Client → List ℕ → ℕ → List Client
register t name fd =
    if length t == client_max then t else if has t name then t else t ++ newcomer name fd ∷ []

-- The client of that name.
unfoldable pub found : List Client → List ℕ → Client
found [] name = no_client
found (c ∷ cs) name = if str_eq c.name name then c else found cs name

-- A client's answer takes back one ping.
abbrev pub acknowledged : Client → Client
acknowledged c = record c { is_inactive = u8_dec c.is_inactive }

unfoldable pub answered : List Client → List ℕ → List Client
answered [] name = []
answered (c ∷ cs) name = if str_eq c.name name then acknowledged c ∷ cs else c ∷ answered cs name

-- A ping round drops who has not answered the last ping, and counts one ping for the others.
unfoldable pub sweep : List Client → List Client
sweep [] = []
sweep (c ∷ cs) =
    if c.is_inactive == 0 then record c { is_inactive = u8_inc 0 } ∷ sweep cs else sweep cs

abbrev pub Distinct : List Client → Type 0
Distinct [] = Unit {0}
Distinct (c ∷ cs) = (has cs c.name ≡ false) × Distinct cs

-- Names in the table.
pub find_name-has :
    (k i : ℕ) (slots : List Client) (name : List ℕ)
    → ((find_name k i slots name ≡ none) × (has (take k slots) name ≡ false))
      ⊎ ((j : ℕ) × (find_name k i slots name ≡ some (i + j))
          × (has (take k slots) name ≡ true)
          × (j < k)
          × (j < length slots)
          × (remove_at j (take k slots) ≡ without (take k slots) name)
          × (get_or slots j no_client ≡ found (take k slots) name)
          × (set (take k slots) j (acknowledged (get_or slots j no_client))
              ≡ answered (take k slots) name))
unfolding find_name has without found answered
find_name-has zero i slots name = inl (refl, refl)
find_name-has (suc k) i [] name = inl (refl, refl)
find_name-has (suc k) i (c ∷ cs) name = elim (Bool-cases (str_eq c.name name)) [
  | inl e ↦ inr (
    0,
    ground arith,
    ground arith,
    omega arith,
    omega arith,
    ground arith,
    ground arith,
    ground arith,
  )
  | inr e ↦ elim (find_name-has k (i + 1) cs name) [
    | inl (p, q) ↦ inl (ground arith, ground arith)
    | inr (j, p, q, r, l, w, t, u) ↦ inr (
      suc j,
      ground arith,
      ground arith,
      omega arith,
      omega arith,
      ground arith,
      ground arith,
      ground arith,
    )
  ]
]

module _ (name : List ℕ) where
  pub has-append : (xs ys : List Client) → has (xs ++ ys) name ≡ (has xs name || has ys name)
  unfolding has
  has-append [] ys = refl
  has-append (x ∷ xs) ys = ground (arith, has-append xs ys)

pub has-without :
    (t : List Client) (name other : List ℕ)
    → has t other ≡ false
    → has (without t name) other ≡ false
unfolding has without
has-without [] name other h = refl
has-without (c ∷ cs) name other h = ground (arith, has-without cs name other)

pub has-sweep :
    (t : List Client) (other : List ℕ) → has t other ≡ false → has (sweep t) other ≡ false
unfolding has sweep
has-sweep [] other h = refl
has-sweep (c ∷ cs) other h = ground (arith, has-sweep cs other)

pub without-Distinct : (t : List Client) (name : List ℕ) → Distinct t → Distinct (without t name)
unfolding without
without-Distinct [] name d = tt
without-Distinct (c ∷ cs) name d =
    ground (arith, without-Distinct cs name, has-without cs name c.name)

pub sweep-Distinct : (t : List Client) → Distinct t → Distinct (sweep t)
unfolding sweep
sweep-Distinct [] d = tt
sweep-Distinct (c ∷ cs) d = ground (arith, sweep-Distinct cs, has-sweep cs c.name)

pub str_eq-eq : (xs ys : List ℕ) → str_eq xs ys ≡ true → xs ≡ ys
unfolding str_eq
str_eq-eq [] [] h = refl
str_eq-eq [] (y ∷ ys) h = cc
str_eq-eq (x ∷ xs) [] h = cc
str_eq-eq (x ∷ xs) (y ∷ ys) h = ground (arith, str_eq-eq xs ys)

str_eq_sym : (xs ys : List ℕ) → str_eq xs ys ≡ str_eq ys xs
unfolding str_eq
str_eq_sym [] [] = refl
str_eq_sym [] (y ∷ ys) = refl
str_eq_sym (x ∷ xs) [] = refl
str_eq_sym (x ∷ xs) (y ∷ ys) = ground (arith, str_eq_sym xs ys)

append-Distinct :
    (t : List Client) (c : Client) → Distinct t → has t c.name ≡ false → Distinct (t ++ c ∷ [])
unfolding has
append-Distinct [] c d h = (refl, tt)
append-Distinct (x ∷ xs) c d h =
    ground
      (arith, append-Distinct xs c d.1, has-append x.name xs (c ∷ []), str_eq_sym c.name x.name)

pub register-Distinct :
    (t : List Client) (name : List ℕ) (fd : ℕ) → Distinct t → Distinct (register t name fd)
register-Distinct t name fd d = ground (arith, append-Distinct t (newcomer name fd) d)

pub without_missing : (t : List Client) (name : List ℕ) → has t name ≡ false → without t name ≡ t
unfolding has without
without_missing [] name h = refl
without_missing (c ∷ cs) name h = ground (arith, without_missing cs name)

pub answered_missing : (t : List Client) (name : List ℕ) → has t name ≡ false → answered t name ≡ t
unfolding has answered
answered_missing [] name h = refl
answered_missing (c ∷ cs) name h = ground (arith, answered_missing cs name)

pub has-answered :
    (t : List Client) (name other : List ℕ) → has (answered t name) other ≡ has t other
unfolding has answered
has-answered [] name other = refl
has-answered (c ∷ cs) name other = ground (arith, has-answered cs name other)

pub answered-Distinct : (t : List Client) (name : List ℕ) → Distinct t → Distinct (answered t name)
unfolding answered
answered-Distinct [] name d = tt
answered-Distinct (c ∷ cs) name d =
    ground (arith, answered-Distinct cs name, has-answered cs name c.name)
