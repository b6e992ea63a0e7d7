-- ===== src/SocketServer/Server/Logout.antt =====
-- Operating-systems/lab10/zad1/server.c: leaving the table, and answering a ping.
use agh_ust_projects.Prelude.{
  ℕ, suc, ◌+◌, ◌-◌, ◌≤◌, ◌<◌, ◌≡◌, refl, sym, ap, ◌∙◌, Bool, true, false, List, [], ◌∷◌, ◌++◌, none,
  some, arith, if◌then◌else◌, inl, inr, length, get_or, take, length-set, remove_at, take-move_down,
  length-move_down, take-set_lt,
}
use mathlib.Core.List.{append_assoc, append-nil}
use agh_ust_projects.SocketServer.Protocol.{Client, client_max}
use agh_ust_projects.SocketServer.Server.{
  Server, ok, Effect, put, epoll_del, shutdown, close, logged_out, no_client, remove_client,
  logout_client, pong_client, check_name, lock, unlock, shift_down, answer,
}
use agh_ust_projects.SocketServer.Server.Table.{
  has, without, found, answered, acknowledged, without-Distinct, answered-Distinct, without_missing,
  answered_missing,
}
use agh_ust_projects.SocketServer.Server.Refine.{
  registered, WellFormed, Leaves, close_socket_lem, WellFormed-as, check_name-has,
}

abbrev pub logout_effects : List Client → List ℕ → List Effect
logout_effects t name =
    if has t name
    then epoll_del (found t name).fd
      ∷ shutdown (found t name).fd
      ∷ close (found t name).fd
      ∷ put (logged_out name)
      ∷ []
    else []

module _ (os : ℕ → Effect → Bool) (up : (k : ℕ) (e : Effect) → os k e ≡ true) where
  abbrev pub removed : ℕ → Server → Server
  removed i s =
      let fd = (get_or s.clients i no_client).fd in
      record s {
        client_counter = s.client_counter - 1;
        clients = shift_down (s.client_counter - 1 - i) i s.clients;
        calls = s.calls + 1 + 1 + 1;
        log = ((s.log ++ epoll_del fd ∷ []) ++ shutdown fd ∷ []) ++ close fd ∷ [];
      }

  pub remove_client_lem : (i : ℕ) (s : Server) → remove_client os i s ≡ ok tt (removed i s)
  unfolding remove_client
  remove_client_lem i s = ground (arith, close_socket_lem os up (get_or s.clients i no_client).fd s)

  pub registered-removed :
      (i : ℕ) (s : Server)
      → length s.clients ≡ client_max
      → s.client_counter ≤ client_max
      → i < s.client_counter
      → registered (removed i s) ≡ remove_at i (registered s)
  registered-removed i s slots few h =
      take-move_down no_client (s.client_counter - 1 - i) i (s.client_counter - 1) s.clients
        (omega arith) (omega (arith, slots))
      ∙ ap (λ k. remove_at i (take k s.clients))
          (let e : suc (s.client_counter - 1) ≡ s.client_counter = omega arith in e)

  logout_found :
      (s : Server) (name : List ℕ) (j : ℕ)
      → s.locked ≡ false
      → check_name name s ≡ some j
      → logout_client os name s
        ≡ ok tt (
            let t = removed j s in
            record t { locked = false; log = t.log ++ put (logged_out name) ∷ [] })
  unfolding logout_client lock unlock check_name
  logout_found s name j f p = ground (arith, remove_client_lem j (record s { locked = true }))

  logout_missing :
      (s : Server) (name : List ℕ)
      → s.locked ≡ false
      → check_name name s ≡ none
      → logout_client os name s ≡ ok tt (record s { locked = false })
  unfolding logout_client lock unlock check_name
  logout_missing s name f p = ground arith

  removed-WellFormed :
      (i : ℕ) (s : Server) (name : List ℕ)
      → WellFormed s
      → i < s.client_counter
      → remove_at i (registered s) ≡ without (registered s) name
      → WellFormed (
          let t = removed i s in
          record t { locked = false; log = t.log ++ put (logged_out name) ∷ [] })
  removed-WellFormed i s name v h w = record {
    slots = length-move_down no_client (s.client_counter - 1 - i) i s.clients ∙ v.slots;
    few = omega (arith, v.few);
    distinct =
        rw (registered-removed i s v.slots v.few h, w)
          (without-Distinct (registered s) name v.distinct);
    free = refl;
  }

  -- Between two handlers (a table of eight slots with distinct names, the mutex free) and while no
  -- system call fails: a client that logs out leaves the table, its socket is closed, and the
  -- others keep their order; an unknown name changes nothing. The mutex is released.
  pub logout_client_refines :
      (s : Server) (name : List ℕ)
      → WellFormed s
      → Leaves s
          (logout_client os name s)
          (without (registered s) name)
          (logout_effects (registered s) name)
  logout_client_refines s name v = elim (check_name-has s name) [
    | inl (p, q) ↦ (
      _,
      logout_missing s name v.free p,
      WellFormed-as os up _ v refl refl refl,
      sym (without_missing (registered s) name q),
      rw q (sym (append-nil s.log)),
    )
    | inr (j, p, q, r, l, w, t, u) ↦ (
      _,
      logout_found s name j v.free p,
      removed-WellFormed j s name v r w,
      registered-removed j s v.slots v.few r ∙ w,
      rw (q, t) (simp append_assoc),
    )
  ]

  pong_found :
      (s : Server) (name : List ℕ) (j : ℕ)
      → s.locked ≡ false
      → check_name name s ≡ some j
      → pong_client os name s ≡ ok tt (record (answer j s) { locked = false })
  unfolding pong_client lock unlock check_name
  pong_found s name j f p = ground arith

  pong_missing :
      (s : Server) (name : List ℕ)
      → s.locked ≡ false
      → check_name name s ≡ none
      → pong_client os name s ≡ ok tt (record s { locked = false })
  unfolding pong_client lock unlock check_name
  pong_missing s name f p = ground arith

  -- Between two handlers (a table of eight slots with distinct names, the mutex free) and while no
  -- system call fails: an answer takes one ping back, modulo 256, from the client that sent it, and
  -- touches no other client; an unknown name changes nothing.
  pub pong_client_refines :
      (s : Server) (name : List ℕ)
      → WellFormed s
      → Leaves s (pong_client os name s) (answered (registered s) name) []
  pong_client_refines s name v = elim (check_name-has s name) [
    | inl (p, q) ↦ (
      _,
      pong_missing s name v.free p,
      WellFormed-as os up _ v refl refl refl,
      sym (answered_missing (registered s) name q),
      sym (append-nil s.log),
    )
    | inr (j, p, q, r, l, w, t, u) ↦ (
      _,
      pong_found s name j v.free p,
      record {
        slots = length-set s.clients j _ ∙ v.slots;
        few = v.few;
        distinct =
            rw
              (
                take-set_lt s.client_counter j s.clients
                    (acknowledged (get_or s.clients j no_client)) r,
                u,
              )
              (answered-Distinct (registered s) name v.distinct);
        free = refl;
      },
      take-set_lt s.client_counter j s.clients _ r ∙ u,
      sym (append-nil s.log),
    )
  ]
