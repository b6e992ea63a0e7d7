-- ===== src/DatagramServer/Handlers/Pinging.antt =====
-- `ping_procedure` of Operating-systems/lab10/zad2/server.c, one round of it.
use agh_ust_projects.Prelude.{
  ℕ, suc, ◌+◌, ◌-◌, ◌≤◌, ◌<◌, ◌≡◌, refl, sym, ap, ◌∙◌, Bool, true, false, Bool-cases, List, [], ◌∷◌,
  ◌++◌, inl, inr, length, length-append, set, get_or, remove_at, take-set_lt, get_or-take,
  get_or-append, set-append, remove_at-append, length-move_down, length-set, ◌==◌, arith,
}
use mathlib.Core.Path.{subst}
use mathlib.Core.List.{append-nil, append_assoc}
use agh_ust_projects.SocketServer.Protocol.{MessageType, client_max}
use agh_ust_projects.DatagramServer.{
  Client, no_client, Datagram, Server, Outcome, unlock, print, inactive, remove_client, ping_one,
  ping_at, ping_client, ping_loop, socket_of, byte, ping_round,
}
use agh_ust_projects.DatagramServer.Table.{
  registered, sweep, sweep_sent, sweep_printed, counted, ping_of, sweep_active, sweep_inactive,
}
use agh_ust_projects.DatagramServer.Handlers.{
  WellFormed, Leaves, length-registered, registered-remove_client, lock_lem, did, unless_failed_lem,
}

-- What the loop keeps: `ps` is behind the index, `rs` is still to be visited.
record Midway (s : Server) (ps rs : List Client) : Type 0 where
  slots : length s.clients ≡ client_max
  few : s.client_counter ≤ client_max
  seen : registered s ≡ ps ++ rs

-- The slot at the index holds the first client still to be visited.
Midway-at :
    (s : Server) (ps : List Client) (c : Client) (rs : List Client)
    → Midway s ps (c ∷ rs)
    → (length ps < s.client_counter) × (get_or s.clients (length ps) no_client ≡ c)
Midway-at s ps c rs m =
    let inside : length ps < s.client_counter =
      omega
        (arith, ap length m.seen, length-append ps (c ∷ rs), length-registered s m.slots m.few) in
    (
      inside,
      sym (get_or-take s.client_counter (length ps) s.clients no_client inside)
          ∙ ap (λ l. get_or l (length ps) no_client) m.seen
          ∙ get_or-append ps rs c no_client,
    )

abbrev dropped : ℕ → Client → Server → Server
dropped i c s = remove_client i (print (inactive c.name) s)

dropped-Midway :
    (s : Server) (ps : List Client) (c : Client) (rs : List Client)
    → Midway s ps (c ∷ rs)
    → Midway (dropped (length ps) c s) ps rs
dropped-Midway s ps c rs m =
    let (inside, here) = Midway-at s ps c rs m in
    record {
      slots =
          length-move_down no_client (s.client_counter - 1 - length ps) (length ps) s.clients
          ∙ m.slots;
      few = omega (arith, m.few);
      seen =
          registered-remove_client (length ps) (print (inactive c.name) s) m.slots m.few inside
          ∙ ap (remove_at (length ps)) m.seen
          ∙ remove_at-append ps rs c;
    }

module _ (os : ℕ → Datagram → Bool) (up : (k : ℕ) (d : Datagram) → os k d ≡ true) where
  abbrev pinged : ℕ → Client → Server → Server
  pinged i c s = record (did os up (ping_of c) s) { clients = set s.clients i (counted c) }

  pinged-Midway :
      (s : Server) (ps : List Client) (c : Client) (rs : List Client)
      → Midway s ps (c ∷ rs)
      → Midway (pinged (length ps) c s) (ps ++ counted c ∷ []) rs
  pinged-Midway s ps c rs m =
      let (inside, here) = Midway-at s ps c rs m in
      record {
        slots = length-set s.clients (length ps) (counted c) ∙ m.slots;
        few = m.few;
        seen =
            take-set_lt s.client_counter (length ps) s.clients (counted c) inside
            ∙ ap (λ l. set l (length ps) (counted c)) m.seen
            ∙ set-append ps rs c (counted c)
            ∙ sym (append_assoc ps (counted c ∷ []) rs);
      }

  loop_round :
      (fuel i : ℕ) (s : Server)
      → i < s.client_counter
      → ping_loop os (suc fuel) i s ≡ ping_one os i (ping_loop os fuel) s
  unfolding ping_loop
  loop_round fuel i s h = ground (arith, h)

  one_active :
      (i : ℕ) (next : ℕ → Server → Outcome) (s : Server) (c : Client)
      → get_or s.clients i no_client ≡ c
      → (c.is_inactive == 0) ≡ true
      → ping_one os i next s ≡ next (i + 1) (pinged i c s)
  one_active i next s c e a =
      ap (λ x. ping_at os i x next s) e
      ∙ ap (λ b. ping_client os b i c next s) a
      ∙ unless_failed_lem os up (socket_of c.connect_type) c.sockaddr (byte MessageType.ping) _ s

  one_inactive :
      (i : ℕ) (next : ℕ → Server → Outcome) (s : Server) (c : Client)
      → get_or s.clients i no_client ≡ c
      → (c.is_inactive == 0) ≡ false
      → ping_one os i next s ≡ next i (dropped i c s)
  one_inactive i next s c e a =
      ap (λ x. ping_at os i x next s) e ∙ ap (λ b. ping_client os b i c next s) a

  abbrev Swept : Server → List Client → List Client → Outcome → Type 0
  Swept s ps rs r =
      (s' : Server) × (r ≡ unlock s')
      × Midway s' (ps ++ sweep rs) []
      × (s'.sent ≡ s.sent ++ sweep_sent rs)
      × (s'.printed ≡ s.printed ++ sweep_printed rs)

  ping_loop_lem :
      (rs : List Client) (s : Server) (ps : List Client)
      → Midway s ps rs
      → Swept s ps rs (ping_loop os (length rs) (length ps) s)
  unfolding ping_loop sweep sweep_sent sweep_printed
  ping_loop_lem [] s ps m = (
    s,
    refl,
    record { slots = m.slots; few = m.few; seen = m.seen ∙ sym (append-nil (ps ++ [])) },
    sym (append-nil s.sent),
    sym (append-nil s.printed),
  )
  ping_loop_lem (c ∷ rs) s ps m =
      let (inside, here) = Midway-at s ps c rs m in
      elim (Bool-cases (c.is_inactive == 0)) [
        | inl a ↦
            let (l1, l2, l3) = sweep_active c rs a in
            let (s', p, m', q, o) =
              ping_loop_lem rs (pinged (length ps) c s) (ps ++ counted c ∷ [])
                (pinged-Midway s ps c rs m) in
            (
              s',
              loop_round (length rs) (length ps) s inside
                  ∙ one_active (length ps) (ping_loop os (length rs)) s c here a
                  ∙ ap (λ j. ping_loop os (length rs) j (pinged (length ps) c s))
                      (omega (arith, length-append ps (counted c ∷ [])))
                  ∙ p,
              subst (λ l. Midway s' l [])
                  (append_assoc ps (counted c ∷ []) (sweep rs) ∙ ap (λ l. ps ++ l) (sym l1)) m',
              q
                  ∙ append_assoc s.sent (ping_of c ∷ []) (sweep_sent rs)
                  ∙ ap (λ l. s.sent ++ l) (sym l2),
              o ∙ ap (λ l. s.printed ++ l) (sym l3),
            )
        | inr a ↦
            let (l1, l2, l3) = sweep_inactive c rs a in
            let (s', p, m', q, o) =
              ping_loop_lem rs (dropped (length ps) c s) ps (dropped-Midway s ps c rs m) in
            (
              s',
              loop_round (length rs) (length ps) s inside
                  ∙ one_inactive (length ps) (ping_loop os (length rs)) s c here a
                  ∙ p,
              subst (λ l. Midway s' l []) (ap (λ l. ps ++ l) (sym l1)) m',
              q ∙ ap (λ l. s.sent ++ l) (sym l2),
              o
                  ∙ append_assoc s.printed (inactive c.name ∷ []) (sweep_printed rs)
                  ∙ ap (λ l. s.printed ++ l) (sym l3),
            )
      ]

  -- Between two handlers (eight slots, at most eight clients, the mutex free) and while every `sendto` succeeds: a round of
  -- pings comes to its end, takes exactly the clients that have not answered the last ping out of the
  -- table and says so, sends and counts one ping for each of the others, through the socket of the
  -- kind it named, keeps their order, and releases the mutex.
  pub ping_round_lem :
      (s : Server)
      → WellFormed s
      → Leaves s
          (ping_round os s)
          (sweep (registered s))
          (sweep_sent (registered s))
          (sweep_printed (registered s))
  unfolding ping_round
  ping_round_lem s v =
      let taken : Server = record s { locked = true } in
      let len : length (registered s) ≡ s.client_counter = length-registered s v.slots v.few in
      let (s', p, m, q, o) =
        ping_loop_lem (registered s) taken []
          (record { slots = v.slots; few = v.few; seen = refl }) in
      (
        record s' { locked = false },
        lock_lem _ s v.free ∙ ap (λ k. ping_loop os k 0 taken) (sym len) ∙ p,
        record { slots = m.slots; few = m.few; free = refl },
        m.seen ∙ append-nil (sweep (registered s)),
        q,
        o,
      )
