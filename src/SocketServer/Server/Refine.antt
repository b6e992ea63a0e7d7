-- ===== src/SocketServer/Server/Refine.antt =====
-- The handlers of lab10/zad1/server.c against the table: while no system call fails, each of them
-- comes to its end, releases the mutex and does to the table what the specification says.
use agh_ust_projects.Prelude.{
  ℕ, zero, suc, ◌+◌, ◌≤◌, ◌<◌, ◌≡◌, refl, ap, ◌∙◌, Bool, true, false, List, [], ◌∷◌, ◌++◌, none,
  some, arith, if◌then◌else◌, ◌==◌, ◌⊎◌, inl, inr, Bool-cases, length, set, get_or, take,
  length-set, remove_at, take-set_add_one,
}
use mathlib.Core.List.{append_assoc}
use agh_ust_projects.SocketServer.Protocol.{Client, client_max, MessageType}
use agh_ust_projects.SocketServer.Server.{
  Server, Outcome, ok, Effect, send, epoll_del, shutdown, close, no_client, must, ◌>>◌,
  close_socket, login_client, check_name, lock, unlock,
}
use agh_ust_projects.SocketServer.Server.Table.{
  has, without, newcomer, register, found, answered, acknowledged, Distinct, find_name-has,
  register-Distinct,
}

-- The clients that the server knows.
abbrev pub registered : Server → List Client
registered s = take s.client_counter s.clients

-- Between two handlers.
pub record WellFormed (s : Server) : Type 0 where
  pub slots : length s.clients ≡ client_max
  pub few : s.client_counter ≤ client_max
  pub distinct : Distinct (registered s)
  pub free : s.locked ≡ false

-- A handler ended, and left this table and these effects behind the earlier ones.
abbrev pub Leaves : Server → Outcome (Unit {0}) → List Client → List Effect → Type 0
Leaves s r t effects =
    (s' : Server) × (r ≡ ok tt s')
    × WellFormed s'
    × (registered s' ≡ t)
    × (s'.log ≡ s.log ++ effects)

abbrev pub login_effects : List Client → List ℕ → ℕ → List Effect
login_effects t name fd =
    if length t == client_max
    then send fd MessageType.wrong_size ∷ epoll_del fd ∷ shutdown fd ∷ close fd ∷ []
    else if has t name
    then send fd MessageType.wrong_name ∷ epoll_del fd ∷ shutdown fd ∷ close fd ∷ []
    else send fd MessageType.success ∷ []

pub length-take_le {ℓ} : {A : Type ℓ} (k : ℕ) (xs : List A) → k ≤ length xs → length (take k xs) ≡ k
length-take_le zero xs h = refl
length-take_le (suc k) [] h = elim h [ ]
length-take_le (suc k) (x ∷ xs) h = ap suc (length-take_le k xs (omega arith))

pub check_name-has :
    (s : Server) (name : List ℕ)
    → ((check_name name s ≡ none) × (has (registered s) name ≡ false))
      ⊎ ((j : ℕ) × (check_name name s ≡ some j)
          × (has (registered s) name ≡ true)
          × (j < s.client_counter)
          × (j < length s.clients)
          × (remove_at j (registered s) ≡ without (registered s) name)
          × (get_or s.clients j no_client ≡ found (registered s) name)
          × (set (registered s) j (acknowledged (get_or s.clients j no_client))
              ≡ answered (registered s) name))
unfolding check_name
check_name-has s name = elim (find_name-has s.client_counter 0 s.clients name) [
  | inl h ↦ inl h
  | inr (j, p, q, r, l, w, t, u) ↦ inr (j, p ∙ ap some (omega arith), q, r, l, w, t, u)
]

module _ (os : ℕ → Effect → Bool) (up : (k : ℕ) (e : Effect) → os k e ≡ true) where
  abbrev pub did : Effect → Server → Server
  did e s = record s { calls = s.calls + 1; log = s.log ++ e ∷ [] }

  pub must_lem : (e : Effect) (s : Server) → must os e s ≡ ok tt (did e s)
  unfolding must
  must_lem e s = rw (up s.calls e)

  pub close_socket_lem :
      (fd : ℕ) (s : Server)
      → close_socket os fd s ≡ ok tt (did (close fd) (did (shutdown fd) (did (epoll_del fd) s)))
  unfolding close_socket
  close_socket_lem fd s = ground (
    arith,
    must_lem (epoll_del fd) s,
    must_lem (shutdown fd) (did (epoll_del fd) s),
    must_lem (close fd) (did (shutdown fd) (did (epoll_del fd) s)),
  )

  -- `send` and then `close_socket`, as a refused login does.
  refused : MessageType → ℕ → Server → Server
  refused m fd s = record s {
    calls = s.calls + 1 + 1 + 1 + 1;
    log = s.log ++ send fd m ∷ epoll_del fd ∷ shutdown fd ∷ close fd ∷ [];
  }

  refuse_lem :
      (m : MessageType) (fd : ℕ) (s : Server)
      → (must os (send fd m) >> close_socket os fd) s ≡ ok tt (refused m fd s)
  unfolding refused
  refuse_lem m fd s =
      ground (
        arith,
        must_lem (send fd m) s,
        close_socket_lem fd (did (send fd m) s),
        simp_log m fd s.log,
      )
    where
      simp_log :
          (m : MessageType) (fd : ℕ) (l : List Effect)
          → (((l ++ send fd m ∷ []) ++ epoll_del fd ∷ []) ++ shutdown fd ∷ []) ++ close fd ∷ []
            ≡ l ++ send fd m ∷ epoll_del fd ∷ shutdown fd ∷ close fd ∷ []
      simp_log m fd l = simp append_assoc

  login_full :
      (s : Server) (name : List ℕ) (fd : ℕ)
      → s.locked ≡ false
      → (s.client_counter == client_max) ≡ true
      → login_client os name fd s
        ≡ ok tt (record (refused MessageType.wrong_size fd s) { locked = false })
  unfolding login_client lock unlock refused
  login_full s name fd f e =
      ground (arith, refuse_lem MessageType.wrong_size fd (record s { locked = true }))

  login_taken :
      (s : Server) (name : List ℕ) (fd : ℕ) (j : ℕ)
      → s.locked ≡ false
      → (s.client_counter == client_max) ≡ false
      → check_name name s ≡ some j
      → login_client os name fd s
        ≡ ok tt (record (refused MessageType.wrong_name fd s) { locked = false })
  unfolding login_client lock unlock refused check_name
  login_taken s name fd j f e p =
      ground (arith, refuse_lem MessageType.wrong_name fd (record s { locked = true }))

  login_fresh :
      (s : Server) (name : List ℕ) (fd : ℕ)
      → s.locked ≡ false
      → (s.client_counter == client_max) ≡ false
      → check_name name s ≡ none
      → login_client os name fd s
        ≡ ok tt (record s {
          clients = set s.clients s.client_counter (newcomer name fd);
          client_counter = s.client_counter + 1;
          locked = false;
          calls = s.calls + 1;
          log = s.log ++ send fd MessageType.success ∷ [];
        })
  unfolding login_client lock unlock must check_name
  login_fresh s name fd f e p = ground (arith, up s.calls (send fd MessageType.success))

  pub WellFormed-as :
      {s : Server} (s' : Server)
      → WellFormed s
      → s'.clients ≡ s.clients
      → s'.client_counter ≡ s.client_counter
      → s'.locked ≡ false
      → WellFormed s'
  WellFormed-as s' v c k f = record {
    slots = rw c v.slots;
    few = rw k v.few;
    distinct = rw (c, k) v.distinct;
    free = f;
  }

  length-registered : {s : Server} → WellFormed s → length (registered s) ≡ s.client_counter
  length-registered {s} v =
      length-take_le s.client_counter s.clients (omega (arith, v.slots, v.few))

  -- Between two handlers (a table of eight slots with distinct names, the mutex free) and while no
  -- system call fails: a login is answered and, if it is refused, its socket is closed. The table
  -- takes the newcomer last unless it is full or knows the name, and the mutex is released.
  pub login_client_refines :
      (s : Server) (name : List ℕ) (fd : ℕ)
      → WellFormed s
      → Leaves s
          (login_client os name fd s)
          (register (registered s) name fd)
          (login_effects (registered s) name fd)
  unfolding refused
  login_client_refines s name fd v = elim (Bool-cases (s.client_counter == client_max)) [
    | inl e ↦ (
      _,
      login_full s name fd v.free e,
      WellFormed-as _ v refl refl refl,
      ground (arith, length-registered v),
      ground (arith, length-registered v),
    )
    | inr e ↦ elim (check_name-has s name) [
      | inl (p, q) ↦ (
        _,
        login_fresh s name fd v.free e p,
        joined e q,
        ground (arith, length-registered v, added e),
        ground (arith, length-registered v),
      )
      | inr (j, p, q, _, _, _, _, _) ↦ (
        _,
        login_taken s name fd j v.free e p,
        WellFormed-as _ v refl refl refl,
        ground (arith, length-registered v),
        ground (arith, length-registered v),
      )
    ]
  ]
    where
      added :
          (s.client_counter == client_max) ≡ false
          → take (s.client_counter + 1) (set s.clients s.client_counter (newcomer name fd))
            ≡ registered s ++ newcomer name fd ∷ []
      added e =
          take-set_add_one s.client_counter s.clients (newcomer name fd)
            (ground (arith, v.slots, v.few))

      joined :
          (s.client_counter == client_max) ≡ false
          → has (registered s) name ≡ false
          → WellFormed (record s {
            clients = set s.clients s.client_counter (newcomer name fd);
            client_counter = s.client_counter + 1;
            locked = false;
            calls = s.calls + 1;
            log = s.log ++ send fd MessageType.success ∷ [];
          })
      joined e q = record {
        slots = length-set s.clients s.client_counter (newcomer name fd) ∙ v.slots;
        few = ground (arith, v.few);
        distinct = ground (
          arith,
          added e,
          length-registered v,
          register-Distinct (registered s) name fd v.distinct,
        );
        free = refl;
      }
