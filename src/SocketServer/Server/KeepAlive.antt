-- ===== src/SocketServer/Server/KeepAlive.antt =====
-- Operating-systems/lab10/zad1/server.c: pings, answers and who stays connected.
use agh_ust_projects.Prelude.{
  ℕ, ◌+◌, ◌≡◌, refl, sym, ap, inl, inr, ◌∙◌, ◌%◌, ◌≢◌, Bool, true, false, List, [], ◌∷◌, arith,
  Bool-cases,
}
use agh_ust_projects.SocketServer.Protocol.{Client}
use agh_ust_projects.CLibrary.{str_eq}
use agh_ust_projects.SocketServer.Server.{
  Server, Outcome, ok, M, Effect, ◌>>◌, ◌>>=◌, ping_round, pong_client,
}
use agh_ust_projects.SocketServer.Server.Table.{
  has, found, answered, sweep, Distinct, has-sweep, has-answered, str_eq-eq,
}
use agh_ust_projects.SocketServer.Server.Refine.{registered, WellFormed}
use agh_ust_projects.SocketServer.Server.Ping.{ping_round_refines}
use agh_ust_projects.SocketServer.Server.Logout.{pong_client_refines}

-- The table after a ping round: who had answered all pings has one open.
sweep_open :
    (t : List Client) (name : List ℕ)
    → Distinct t
    → has t name ≡ true
    → (found t name).is_inactive ≡ 0
    → (has (sweep t) name ≡ true) × ((found (sweep t) name).is_inactive ≡ 1)
unfolding has found sweep
sweep_open [] name d h e = cc
sweep_open (c ∷ cs) name d h e = ground (arith, sweep_open cs name, has-sweep cs name)

-- Who has a ping open is dropped.
sweep_dropped :
    (t : List Client) (name : List ℕ)
    → Distinct t
    → (found t name).is_inactive ≢ 0
    → has (sweep t) name ≡ false
unfolding has found sweep
sweep_dropped [] name d e = refl
sweep_dropped (c ∷ cs) name d e = elim (Bool-cases (str_eq c.name name)) [
  | inl m ↦
      let gone : has cs name ≡ false = ap (has cs) (sym (str_eq-eq c.name name m)) ∙ d.0 in
      ground (arith, has-sweep cs name gone)
  | inr m ↦ ground (arith, sweep_dropped cs name d.1)
]

-- After a round everyone who is left has one ping open.
sweep_opens :
    (t : List Client) (name : List ℕ)
    → has (sweep t) name ≡ true
    → (found (sweep t) name).is_inactive ≡ 1
unfolding has found sweep
sweep_opens [] name h = cc
sweep_opens (c ∷ cs) name h = ground (arith, sweep_opens cs name)

-- The answer of another client changes nothing for this one.
found-answered_other :
    (t : List Client) (name other : List ℕ)
    → name ≢ other
    → found (answered t other) name ≡ found t name
unfolding found answered
found-answered_other [] name other h = refl
found-answered_other (c ∷ cs) name other h =
    ground
      (arith, found-answered_other cs name other, str_eq-eq c.name name, str_eq-eq c.name other)

found-answered :
    (t : List Client) (name : List ℕ)
    → has t name ≡ true
    → (found (answered t name) name).is_inactive ≡ ((found t name).is_inactive + 255) % 256
unfolding has found answered
found-answered [] name h = cc
found-answered (c ∷ cs) name h = ground (arith, found-answered cs name)

and_then :
    (m k : M (Unit {0})) (s t : Server) {r : Outcome (Unit {0})}
    → m s ≡ ok tt t
    → k t ≡ r
    → (m >> k) s ≡ r
and_then m k s t p q = rw (p, ◌>>◌, ◌>>=◌) q

abbrev pub open_pings : List Client → List ℕ → ℕ
open_pings t name = (found t name).is_inactive

module _ (os : ℕ → Effect → Bool) (up : (k : ℕ) (e : Effect) → os k e ≡ true) where
  -- Between two handlers (a table of eight slots with distinct names, the mutex free) and while no
  -- system call fails: a client with no open ping that answers the ping of a round is still
  -- registered after the next round, with one ping open again.
  pub answering_client_stays :
      (s : Server) (name : List ℕ)
      → WellFormed s
      → has (registered s) name ≡ true
      → open_pings (registered s) name ≡ 0
      → (s' : Server) × ((ping_round os >> (pong_client os name >> ping_round os)) s ≡ ok tt s')
        × WellFormed s'
        × (has (registered s') name ≡ true)
        × (open_pings (registered s') name ≡ 1)
  answering_client_stays s name v h e =
      let (s1, p1, v1, t1, l1) = ping_round_refines os up s v in
      let (s2, p2, v2, t2, l2) = pong_client_refines os up s1 name v1 in
      let (s3, p3, v3, t3, l3) = ping_round_refines os up s2 v2 in
      let (h1, o1) = sweep_open (registered s) name v.distinct h e in
      let at1 : has (registered s1) name ≡ true = ap (λ t. has t name) t1 ∙ h1 in
      let has2 : has (registered s2) name ≡ true =
        ap (λ t. has t name) t2 ∙ (has-answered (registered s1) name name ∙ at1) in
      let open2 : open_pings (registered s2) name ≡ 0 =
        ap (λ t. open_pings t name) t2
        ∙ (found-answered (registered s1) name at1
            ∙ ap (λ n. (n + 255) % 256) (ap (λ t. open_pings t name) t1 ∙ o1)) in
      let (h3, o3) = sweep_open (registered s2) name v2.distinct has2 open2 in
      (
        s3,
        and_then (ping_round os) (pong_client os name >> ping_round os) s s1 p1
            (and_then (pong_client os name) (ping_round os) s1 s2 p2 p3),
        v3,
        ap (λ t. has t name) t3 ∙ h3,
        ap (λ t. open_pings t name) t3 ∙ o3,
      )

  -- Between two handlers (a table of eight slots with distinct names, the mutex free) and while no
  -- system call fails: after a round of pings, an answer of another client and a second round, a
  -- client that did not answer is not registered.
  pub silent_client_is_dropped :
      (s : Server) (name other : List ℕ)
      → WellFormed s
      → name ≢ other
      → (s' : Server) × ((ping_round os >> (pong_client os other >> ping_round os)) s ≡ ok tt s')
        × WellFormed s'
        × (has (registered s') name ≡ false)
  silent_client_is_dropped s name other v ne =
      let (s1, p1, v1, t1, l1) = ping_round_refines os up s v in
      let (s2, p2, v2, t2, l2) = pong_client_refines os up s1 other v1 in
      let (s3, p3, v3, t3, l3) = ping_round_refines os up s2 v2 in
      (
        s3,
        and_then (ping_round os) (pong_client os other >> ping_round os) s s1 p1
            (and_then (pong_client os other) (ping_round os) s1 s2 p2 p3),
        v3,
        ap (λ t. has t name) t3
            ∙ gone (registered s) (registered s1) (registered s2) v2.distinct t1 t2,
      )
    where
      gone :
          (t t' t'' : List Client)
          → Distinct t''
          → t' ≡ sweep t
          → t'' ≡ answered t' other
          → has (sweep t'') name ≡ false
      gone t t' t'' d e f = elim (Bool-cases (has t'' name)) [
        | inr out ↦ has-sweep t'' name out
        | inl in_it ↦
            let there : has (sweep t) name ≡ true =
              ap (λ u. has u name) (sym e)
              ∙ (sym (has-answered t' other name) ∙ (ap (λ u. has u name) (sym f) ∙ in_it)) in
            let one : open_pings t'' name ≡ 1 =
              ap (λ u. open_pings u name) f
              ∙ (ap (λ c. c.is_inactive) (found-answered_other t' name other ne)
                  ∙ (ap (λ u. open_pings u name) e ∙ sweep_opens t name there)) in
            sweep_dropped t'' name d (omega (arith, one))
      ]

  -- Between two handlers (a table of eight slots with distinct names, the mutex free) and while no
  -- system call fails: a client with no open ping that sends an answer is not registered any more
  -- after the next round of pings.
  pub unasked_answer_drops :
      (s : Server) (name : List ℕ)
      → WellFormed s
      → has (registered s) name ≡ true
      → open_pings (registered s) name ≡ 0
      → (s' : Server) × ((pong_client os name >> ping_round os) s ≡ ok tt s')
        × WellFormed s'
        × (has (registered s') name ≡ false)
  unasked_answer_drops s name v h e =
      let (s1, p1, v1, t1, l1) = pong_client_refines os up s name v in
      let (s2, p2, v2, t2, l2) = ping_round_refines os up s1 v1 in
      let wrapped : open_pings (registered s1) name ≡ 255 =
        ap (λ t. open_pings t name) t1
        ∙ (found-answered (registered s) name h ∙ ap (λ n. (n + 255) % 256) e) in
      (
        s2,
        and_then (pong_client os name) (ping_round os) s s1 p1 p2,
        v2,
        ap (λ t. has t name) t2
            ∙ sweep_dropped (registered s1) name v1.distinct (omega (arith, wrapped)),
      )
