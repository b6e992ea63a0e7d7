-- ===== src/SocketServer/Server/Deadlock.antt =====
-- Operating-systems/lab10/zad1/server.c, `terminal_procedure`: what an order does when nobody is
-- connected.
use agh_ust_projects.Prelude.{
  ℕ, ◌+◌, ◌≡◌, refl, Bool, true, false, List, [], ◌∷◌, ◌++◌, some, arith,
}
use agh_ust_projects.SocketServer.Server.{
  Server, ok, blocked, Effect, login_client, logout_client, pong_client, ping_round, terminal_round,
  known_operator, lock, put, no_clients,
}

-- Whoever wants the table waits for the mutex.
pub record Stuck (os : ℕ → Effect → Bool) (s : Server) : Type 0 where
  pub no_login : (name : List ℕ) (fd : ℕ) → login_client os name fd s ≡ blocked s
  pub no_logout : (name : List ℕ) → logout_client os name s ≡ blocked s
  pub no_pong : (name : List ℕ) → pong_client os name s ≡ blocked s
  pub no_ping : ping_round os s ≡ blocked s

module _ (os : ℕ → Effect → Bool) where
  locked-Stuck : (s : Server) → s.locked ≡ true → Stuck os s
  unfolding login_client logout_client pong_client ping_round lock
  locked-Stuck s h = record {
    no_login = λ name fd. ground arith;
    no_logout = λ name. ground arith;
    no_pong = λ name. ground arith;
    no_ping = ground arith;
  }

  -- If the mutex is free and nobody is connected, an order with a known operator ends with the
  -- mutex still locked: after it every login, logout, answer and ping round waits, and so does a
  -- second order with a known operator.
  pub terminal_round_no_clients :
      (s : Server) (arg1 operand arg2 dice : ℕ) (a o b d : ℕ)
      → s.locked ≡ false
      → s.client_counter ≡ 0
      → known_operator operand ≡ true
      → known_operator o ≡ true
      → (s' : Server) × (terminal_round os (some (arg1, operand, arg2)) dice s ≡ ok tt s')
        × Stuck os s'
        × ((s'' : Server) × (terminal_round os (some (a, o, b)) d s' ≡ blocked s''))
  unfolding terminal_round lock
  terminal_round_no_clients s arg1 operand arg2 dice a o b d f e h k =
      (_, first, locked-Stuck _ refl, (_, again))
    where
      left : Server
      left = record s {
        operation_counter = s.operation_counter + 1;
        locked = true;
        log = s.log ++ put no_clients ∷ [];
      }

      first : terminal_round os (some (arg1, operand, arg2)) dice s ≡ ok tt left
      first = ground arith

      again :
          terminal_round os (some (a, o, b)) d left
          ≡ blocked (record left { operation_counter = left.operation_counter + 1 })
      again = ground arith
