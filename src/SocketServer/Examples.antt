-- ===== src/SocketServer/Examples.antt =====
-- The theorems on Operating-systems/lab10/zad1 at concrete tables and messages.
use agh_ust_projects.Prelude.{
  ℕ, ◌+◌, ◌≡◌, refl, Bool, true, false, List, [], ◌∷◌, ◌++◌, replicate, arith, ◌==◌, ◌&&◌, not,
  if◌then◌else◌, ◌%◌,
}
use agh_ust_projects.SocketServer.Protocol.{Operation}
use agh_ust_projects.CLibrary.{str_eq}
use agh_ust_projects.SocketServer.Server.{
  Server, Effect, ok, no_client, login_client, logout_client, pong_client, ping_round, message,
  ◌>>◌, put, divided_by_zero, got_result,
}
use agh_ust_projects.SocketServer.Server.Table.{has, without, register, sweep, found}
use agh_ust_projects.SocketServer.Server.Refine.{
  registered, WellFormed, Leaves, login_effects, login_client_refines,
}
use agh_ust_projects.SocketServer.Server.Logout.{logout_effects, logout_client_refines}
use agh_ust_projects.SocketServer.Server.Ping.{sweep_effects, ping_round_refines}
use agh_ust_projects.SocketServer.Server.KeepAlive.{open_pings, answering_client_stays}
use agh_ust_projects.SocketServer.Calculator.{Doubles, evaluate, calc}
use agh_ust_projects.SocketServer.Wire.{IsText, Fits, message-calc}

-- No system call fails.
abbrev os_up : ℕ → Effect → Bool
os_up k e = true

abbrev all_up : (k : ℕ) (e : Effect) → os_up k e ≡ true
all_up k e = refl

abbrev anna : List ℕ
anna = 97 ∷ 110 ∷ []

abbrev jan : List ℕ
jan = 106 ∷ 97 ∷ []

-- Anna has not answered her ping, Jan has.
abbrev two : Server
two = record {
  clients =
      record { fd = 4; name = anna; is_inactive = 1 }
      ∷ record { fd = 5; name = jan; is_inactive = 0 }
      ∷ replicate 6 no_client;
  client_counter = 2;
  operation_counter = 0;
  locked = false;
  calls = 0;
  log = [];
}

two-WellFormed : WellFormed two
unfolding has str_eq
two-WellFormed = record {
  slots = refl;
  few = omega arith;
  distinct = (refl, (refl, tt));
  free = refl;
}

has-jan : has (registered two) jan ≡ true
unfolding has str_eq
has-jan = refl

jan_idle : open_pings (registered two) jan ≡ 0
unfolding found str_eq
jan_idle = refl

ping_round_refines_example :
    Leaves two (ping_round os_up two) (sweep (registered two)) (sweep_effects (registered two))
ping_round_refines_example = ping_round_refines os_up all_up two two-WellFormed

login_client_refines_example :
    Leaves two
      (login_client os_up jan 6 two)
      (register (registered two) jan 6)
      (login_effects (registered two) jan 6)
login_client_refines_example = login_client_refines os_up all_up two jan 6 two-WellFormed

logout_client_refines_example :
    Leaves two
      (logout_client os_up anna two)
      (without (registered two) anna)
      (logout_effects (registered two) anna)
logout_client_refines_example = logout_client_refines os_up all_up two anna two-WellFormed

answering_client_stays_example :
    (s' : Server) × ((ping_round os_up >> (pong_client os_up jan >> ping_round os_up)) two
      ≡ ok tt s')
    × WellFormed s'
    × (has (registered s') jan ≡ true)
    × (open_pings (registered s') jan ≡ 1)
answering_client_stays_example =
    answering_client_stays os_up all_up two jan two-WellFormed has-jan jan_idle

jan-IsText : IsText jan
jan-IsText = (omega arith, (omega arith, tt))

-- Numbers in place of doubles.
abbrev numbers : Doubles
numbers = record {
  add = λ a b. (a + b) % 256;
  sub = λ a b. a;
  mul = λ a b. a;
  div = λ a b. a;
  is_nonzero = λ a. not (a == 0);
}

abbrev order : Operation
order = record { operation = 7; operand = b'+'; arg1 = 1; arg2 = 2 }

order-Fits : Fits (evaluate numbers order)
unfolding evaluate
order-Fits = record { flag = omega arith; number = omega arith; double = omega arith }

message-calc_example :
    message os_up 5 (calc numbers jan order ++ 8 ∷ []) two
    ≡ ok (8 ∷ []) (record two {
      log =
          two.log
          ++ put (
              if order.operand == b'/' && not (numbers.is_nonzero order.arg2)
              then divided_by_zero
              else got_result (evaluate numbers order) jan)
            ∷ [];
    })
message-calc_example =
    message-calc os_up 5 numbers jan (8 ∷ []) order two refl jan-IsText (omega arith) order-Fits
