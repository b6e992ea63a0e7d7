-- ===== src/SocketServer/Server/Ping.antt =====
-- Operating-systems/lab10/zad1/server.c: a round of `ping_procedure`. Its loop removes clients from
-- the array that it walks through.
use agh_ust_projects.Prelude.{
  ℕ, suc, ◌+◌, ◌≤◌, ◌<◌, ◌≡◌, refl, sym, ap, ◌∙◌, Bool, true, false, List, [], ◌∷◌, ◌++◌, arith,
  if◌then◌else◌, ◌==◌, inl, inr, length, length-append, set, get_or, length-set, Bool-cases,
  remove_at, length-move_down, take-set_lt, get_or-take, get_or-append, set-append,
  remove_at-append,
}
use mathlib.Core.Path.{subst}
use mathlib.Core.List.{append_assoc, append-nil}
use agh_ust_projects.SocketServer.Protocol.{Client, client_max, MessageType}
use agh_ust_projects.SocketServer.Server.{
  Server, Outcome, ok, Effect, send, put, epoll_del, shutdown, close, inactive, no_client, ping_one,
  ping_loop, ping_round, lock, unlock, u8_inc,
}
use agh_ust_projects.SocketServer.Server.Table.{sweep, sweep-Distinct}
use agh_ust_projects.SocketServer.Server.Refine.{
  registered, WellFormed, Leaves, did, must_lem, length-take_le,
}
use agh_ust_projects.SocketServer.Server.Logout.{removed, remove_client_lem, registered-removed}

-- The pings that are sent, and what is said and closed for the clients that leave.
pub sweep_effects : List Client → List Effect
sweep_effects [] = []
sweep_effects (c ∷ cs) =
    (if c.is_inactive == 0
      then send c.fd MessageType.ping ∷ []
      else put (inactive c.name) ∷ epoll_del c.fd ∷ shutdown c.fd ∷ close c.fd ∷ [])
    ++ sweep_effects cs

module _ (c : Client) (cs : List Client) where
  sweep_active :
      (c.is_inactive == 0) ≡ true
      → sweep (c ∷ cs) ≡ record c { is_inactive = u8_inc c.is_inactive } ∷ sweep cs
  unfolding sweep
  sweep_active h = ground arith

  sweep_inactive : (c.is_inactive == 0) ≡ false → sweep (c ∷ cs) ≡ sweep cs
  unfolding sweep
  sweep_inactive h = ground arith

  sweep_effects_active :
      (c.is_inactive == 0) ≡ true
      → sweep_effects (c ∷ cs) ≡ send c.fd MessageType.ping ∷ sweep_effects cs
  unfolding sweep_effects
  sweep_effects_active h = rw h

  sweep_effects_inactive :
      (c.is_inactive == 0) ≡ false
      → sweep_effects (c ∷ cs)
        ≡ put (inactive c.name) ∷ epoll_del c.fd ∷ shutdown c.fd ∷ close c.fd ∷ sweep_effects cs
  unfolding sweep_effects
  sweep_effects_inactive h = rw h

-- What the loop keeps while it runs: `ps` is behind the index, `rs` is still to be visited.
record Midway (s : Server) (ps rs : List Client) : Type 0 where
  slots : length s.clients ≡ client_max
  few : s.client_counter ≤ client_max
  seen : registered s ≡ ps ++ rs
  held : s.locked ≡ true

module _ (os : ℕ → Effect → Bool) (up : (k : ℕ) (e : Effect) → os k e ≡ true) where
  abbrev pinged : ℕ → Server → Server
  pinged i s =
      let c = get_or s.clients i no_client in
      record (did os up (send c.fd MessageType.ping) s) {
        clients = set s.clients i (record c { is_inactive = u8_inc c.is_inactive });
      }

  ping_active :
      (i : ℕ) (s : Server)
      → ((get_or s.clients i no_client).is_inactive == 0) ≡ true
      → ping_one os i s ≡ ok (i + 1) (pinged i s)
  unfolding ping_one
  ping_active i s e =
      ground (arith, must_lem os up (send (get_or s.clients i no_client).fd MessageType.ping) s)

  abbrev dropped : ℕ → Server → Server
  dropped i s =
      removed os up i
        (record s { log = s.log ++ put (inactive (get_or s.clients i no_client).name) ∷ [] })

  ping_inactive :
      (i : ℕ) (s : Server)
      → ((get_or s.clients i no_client).is_inactive == 0) ≡ false
      → ping_one os i s ≡ ok i (dropped i s)
  unfolding ping_one
  ping_inactive i s e = ground (
    arith,
    remove_client_lem os up i
        (record s { log = s.log ++ put (inactive (get_or s.clients i no_client).name) ∷ [] }),
  )

  -- The slot at the index holds the first client still to be visited.
  Midway-at :
      (s : Server) (ps : List Client) (c : Client) (rs : List Client)
      → Midway s ps (c ∷ rs)
      → (length ps < s.client_counter) × (get_or s.clients (length ps) no_client ≡ c)
  Midway-at s ps c rs m = (inside, here)
    where
      inside : length ps < s.client_counter
      inside = omega (
        arith,
        ap length m.seen,
        length-append ps (c ∷ rs),
        length-take_le s.client_counter s.clients (omega (arith, m.slots, m.few)),
      )

      here : get_or s.clients (length ps) no_client ≡ c
      here =
          sym (get_or-take s.client_counter (length ps) s.clients no_client inside)
          ∙ (rw (m.seen) (get_or-append ps rs c no_client))

  pinged-Midway :
      (s : Server) (ps : List Client) (c : Client) (rs : List Client)
      → Midway s ps (c ∷ rs)
      → Midway
          (pinged (length ps) s)
          (ps ++ record c { is_inactive = u8_inc c.is_inactive } ∷ [])
          rs
  pinged-Midway s ps c rs m =
      let (inside, here) = Midway-at s ps c rs m in
      record {
        slots = length-set s.clients (length ps) _ ∙ m.slots;
        few = m.few;
        seen = rw here (
            take-set_lt s.client_counter (length ps) s.clients
              (record c { is_inactive = u8_inc c.is_inactive }) inside
            ∙ (ap (λ t. set t (length ps) (record c { is_inactive = u8_inc c.is_inactive })) m.seen
                ∙ (set-append ps rs c _ ∙ sym (append_assoc ps _ rs))));
        held = m.held;
      }

  dropped-Midway :
      (s : Server) (ps : List Client) (c : Client) (rs : List Client)
      → Midway s ps (c ∷ rs)
      → Midway (dropped (length ps) s) ps rs
  dropped-Midway s ps c rs m =
      let (inside, here) = Midway-at s ps c rs m in
      record {
        slots = length-move_down no_client _ (length ps) s.clients ∙ m.slots;
        few = omega (arith, m.few);
        seen =
            registered-removed os up (length ps) s m.slots m.few inside
            ∙ (ap (remove_at (length ps)) m.seen ∙ remove_at-append ps rs c);
        held = m.held;
      }

  -- One round of the loop, followed by the others.
  ping_loop-suc :
      (f i j : ℕ) (s t : Server)
      → i < s.client_counter
      → ping_one os i s ≡ ok j t
      → ping_loop os (suc f) i s ≡ ping_loop os f j t
  unfolding ping_loop
  ping_loop-suc f i j s t h e = ground arith

  Swept : Server → List Client → List Client → Outcome (Unit {0}) → Type 0
  Swept s ps rs r =
      (s' : Server) × (r ≡ ok tt s')
      × Midway s' (ps ++ sweep rs) []
      × (s'.log ≡ s.log ++ sweep_effects rs)

  ping_loop_refines :
      (rs : List Client) (s : Server) (ps : List Client)
      → Midway s ps rs
      → Swept s ps rs (ping_loop os (length rs) (length ps) s)
  unfolding Swept ping_loop sweep sweep_effects
  ping_loop_refines [] s ps m = (
    s,
    refl,
    record { slots = m.slots; few = m.few; seen = rw (m.seen) (sym (append-nil _)); held = m.held },
    sym (append-nil s.log),
  )
  ping_loop_refines (c ∷ rs) s ps m =
      let (inside, here) = Midway-at s ps c rs m in
      elim (Bool-cases (c.is_inactive == 0)) [
        | inl a ↦
            let c' : Client = record c { is_inactive = u8_inc c.is_inactive } in
            let (s', p, m', l) =
              ping_loop_refines rs (pinged (length ps) s) (ps ++ c' ∷ [])
                (pinged-Midway s ps c rs m) in
            (
              s',
              ping_loop-suc (length rs) (length ps) (length ps + 1) s (pinged (length ps) s) inside
                    (ping_active (length ps) s (rw here a))
                  ∙ (ap (λ j. ping_loop os (length rs) j (pinged (length ps) s))
                        (omega (arith, length-append ps (c' ∷ [])))
                      ∙ p),
              subst (λ t. Midway s' t [])
                  (append_assoc ps (c' ∷ []) (sweep rs)
                    ∙ ap (λ t. ps ++ t) (sym (sweep_active c rs a)))
                  m',
              l
                  ∙ rw (here, append_assoc)
                      (ap (λ t. s.log ++ t) (sym (sweep_effects_active c rs a))),
            )
        | inr a ↦
            let (s', p, m', l) =
              ping_loop_refines rs (dropped (length ps) s) ps (dropped-Midway s ps c rs m) in
            (
              s',
              ping_loop-suc (length rs) (length ps) (length ps) s (dropped (length ps) s) inside
                    (ping_inactive (length ps) s (rw here a))
                  ∙ p,
              subst (λ t. Midway s' t []) (ap (λ t. ps ++ t) (sym (sweep_inactive c rs a))) m',
              l
                  ∙ rw here (
                      simp append_assoc
                        (ap (λ t. s.log ++ t) (sym (sweep_effects_inactive c rs a)))),
            )
      ]

  ping_round_lem :
      (s s' : Server)
      → s.locked ≡ false
      → ping_loop os s.client_counter 0 (record s { locked = true }) ≡ ok tt s'
      → ping_round os s ≡ ok tt (record s' { locked = false })
  unfolding ping_round lock unlock
  ping_round_lem s s' f p = ground arith

  -- Between two handlers (a table of eight slots with distinct names, the mutex free) and while no
  -- system call fails: a round of pings comes to its end, drops exactly the clients that have not
  -- answered the last one, closes their sockets, sends and counts one ping for each of the others,
  -- whose order it keeps, and releases the mutex.
  pub ping_round_refines :
      (s : Server)
      → WellFormed s
      → Leaves s (ping_round os s) (sweep (registered s)) (sweep_effects (registered s))
  unfolding Swept
  ping_round_refines s v =
      let (s', p, m, l) = ping_loop_refines (registered s) locked_s [] start in
      let seen : registered s' ≡ sweep (registered s) = m.seen ∙ append-nil _ in
      (
        record s' { locked = false },
        ping_round_lem s s' v.free (
            ap (λ f. ping_loop os f 0 locked_s)
              (sym (length-take_le s.client_counter s.clients (omega (arith, v.slots, v.few))))
            ∙ p),
        record {
          slots = m.slots;
          few = m.few;
          distinct = rw seen (sweep-Distinct (registered s) v.distinct);
          free = refl;
        },
        seen,
        l,
      )
    where
      locked_s : Server
      locked_s = record s { locked = true }

      start : Midway locked_s [] (registered s)
      start = record { slots = v.slots; few = v.few; seen = refl; held = refl }
