-- ===== src/MessageQueue/Examples.antt =====
-- The theorems on Operating-systems/lab6/zad1/server.c at concrete tables.
use agh_ust_projects.Prelude.{ℕ, ◌≡◌, refl, Bool, true, [], ◌∷◌, ◌++◌, ◌<◌, length, some, arith}
use mathlib.Core.List.{reverse}
use agh_ust_projects.Prelude.Int.{pos}
use agh_ust_projects.CLibrary.{print_ℕ}
use agh_ust_projects.MessageQueue.{
  Message, Server, running, initial_clients, new_client, dispatch, reply,
}
use agh_ust_projects.MessageQueue.Calc.{calc_answer, msg_maxsize}
use agh_ust_projects.MessageQueue.Calc.Answers.{
  Op, short_statement, long_statement, value, answer_of, calc_answer_lem,
}
use agh_ust_projects.MessageQueue.Client.{introduction, accepted_id, word_mirror, request, farewell}
use agh_ust_projects.MessageQueue.Table.{Registered, new_client-Registered}
use agh_ust_projects.MessageQueue.Session.{session}

abbrev always : ℕ → Bool
always k = true

abbrev empty : Server
empty = record { clients = initial_clients; calls = 0; sent = [] }

-- The queue 42 asks for a number.
abbrev hello : Message
hello = record { mtype = 6; mtext = 52 ∷ 50 ∷ []; client_id = pos 0; pid = 300 }

new_client-Registered_example : Registered hello empty (new_client always hello empty)
new_client-Registered_example = new_client-Registered always hello empty refl

fits_buffer : length (long_statement Op.sub 2 30) < msg_maxsize
unfolding print_ℕ
fits_buffer = ground arith

calc_answer_lem_example :
    (calc_answer (short_statement Op.sub 2 30) ≡ answer_of (value Op.sub 2 30))
    × (calc_answer (long_statement Op.sub 2 30) ≡ answer_of (value Op.sub 2 30))
calc_answer_lem_example = calc_answer_lem Op.sub 2 30 (omega arith) (omega arith) refl fits_buffer

session_example :
    (s1 : Server) × (s2 : Server) × (s3 : Server) × (m : Message) × (dispatch always []
        (introduction 42 300)
        empty
      ≡ running s1)
    × (accepted_id reply (print_ℕ 0) ≡ some (pos 0))
    × (request (pos 0) 300 ((word_mirror ++ 32 ∷ b'a' ∷ b'b' ∷ []) ++ 10 ∷ []) ≡ some m)
    × (dispatch always [] m s1 ≡ running s2)
    × (dispatch always [] (farewell (pos 0) 300) s2 ≡ running s3)
    × (s3.clients ≡ empty.clients)
    × (s3.sent
        ≡ []
          ++ (record { queue = pos 42; mtype = reply; mtext = print_ℕ 0 }
              ∷ record { queue = pos 42; mtype = reply; mtext = reverse (b'a' ∷ b'b' ∷ []) }
              ∷ []))
session_example =
    session always (λ k. refl) [] empty 0 42 300 b'a' (b'b' ∷ []) refl refl (λ e. ground (arith, e))
      (ground arith)
