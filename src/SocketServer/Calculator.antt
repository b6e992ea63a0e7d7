-- ===== src/SocketServer/Calculator.antt =====
-- Operating-systems/lab10/zad1/client.c: what a client does with each message of the server.
-- Floating-point arithmetic is a parameter on bit patterns.
use agh_ust_projects.Prelude.{
  ℕ, suc, ◌+◌, ◌/◌, ◌%◌, ◌^◌, Bool, List, [], ◌∷◌, ◌++◌, if◌then◌else◌, ◌==◌, length, take,
}
use agh_ust_projects.SocketServer.Protocol.{MessageType, code, Result, Operation, u16_bytes}

pub record Doubles : Type 0 where
  pub add : ℕ → ℕ → ℕ
  pub sub : ℕ → ℕ → ℕ
  pub mul : ℕ → ℕ → ℕ
  pub div : ℕ → ℕ → ℕ
  pub is_nonzero : ℕ → Bool

-- `n` bytes of a number, the lowest first.
abbrev pub le_bytes : ℕ → ℕ → List ℕ
le_bytes ℕ.zero v = []
le_bytes (suc n) v = v % 256 ∷ le_bytes n (v / 256)

abbrev pub result_bytes : Result → List ℕ
result_bytes r = le_bytes 4 r.wrong_flag ++ (le_bytes 4 r.operation ++ le_bytes 8 r.value)

-- `send_msg`: the type, the size as `uint16_t`, and that many bytes of the name with its 0.
unfoldable pub send_msg : List ℕ → MessageType → List ℕ
send_msg name type =
    let size = (length name + 1) % 2 ^ 16 in
    code type ∷ (u16_bytes size ++ take size (name ++ 0 ∷ []))

-- The `switch` of `calc`; `/` by zero sets the flag, and `/` never runs on into `*`.
unfoldable pub evaluate : Doubles → Operation → Result
evaluate d o =
    if o.operand == b'+'
    then answer 0 (d.add o.arg1 o.arg2)
    else if o.operand == b'-'
    then answer 0 (d.sub o.arg1 o.arg2)
    else if o.operand == b'/'
    then (if d.is_nonzero o.arg2 then answer 0 (d.div o.arg1 o.arg2) else answer 1 0)
    else if o.operand == b'*'
    then answer 0 (d.mul o.arg1 o.arg2)
    else answer 1 0
  where
    answer : ℕ → ℕ → Result
    answer flag v = record { wrong_flag = flag; operation = o.operation; value = v }

-- `calc`: the bytes written in answer to a request.
unfoldable pub calc : Doubles → List ℕ → Operation → List ℕ
calc d name o = send_msg name MessageType.result ++ result_bytes (evaluate d o)

-- The `switch` on the reply to the login: whether the client goes on.
unfoldable pub accepted : ℕ → Bool
accepted reply = reply == code MessageType.success

-- One round of the reading loop of `main`: the bytes written in answer.
unfoldable pub respond : Doubles → List ℕ → ℕ → Operation → List ℕ
respond d name msg_type order =
    if msg_type == code MessageType.request
    then calc d name order
    else if msg_type == code MessageType.ping
    then send_msg name MessageType.pong
    else []
