-- ===== src/DatagramServer/Calculator.antt =====
-- Operating-systems/lab10/zad2/client.c: what a client sends, and what the server makes of its
-- results. Floating-point arithmetic is a parameter on bit patterns; `garbage` is the value of a double
-- that was never written.
use agh_ust_projects.Prelude.{
  ℕ, ◌≡◌, ap, ◌∙◌, Bool, true, Bool-cases, inl, inr, List, Option, none, some, take, ◌==◌, ◌||◌,
  ◌&&◌, not, if◌then◌else◌, arith,
}
use agh_ust_projects.SocketServer.Protocol.{MessageType, code, Operation}
use agh_ust_projects.SocketServer.Calculator.{Doubles}
use agh_ust_projects.DatagramServer.{
  Family, Address, Message, Datagram, divided_by_zero, result, Server, running, print, print_result,
  message, dispatch,
}

-- What the client is given and what it uses of `double`: MINDOUBLE and `==`.
pub record Setup : Type 0 where
  pub name : List ℕ
  pub c_type : ℕ
  pub doubles : Doubles
  pub min_double : ℕ
  pub equal : ℕ → ℕ → Bool
  pub garbage : ℕ

-- `snprintf` of the name into 64 bytes.
unfoldable pub send_msg : Setup → MessageType → ℕ → ℕ → Message
send_msg u type op val =
    let wrong = u.equal val u.min_double in
    record {
      msg_type = code type;
      name = take 63 u.name;
      connect_type = u.c_type;
      op = op;
      val = if wrong then u.garbage else val;
      wrong_flag = if wrong then 1 else 0;
    }

-- The `switch` of `calc`; a division by zero gives MINDOUBLE, an unknown operator 0.
unfoldable pub evaluate : Setup → Operation → ℕ
evaluate u o =
    if o.operand == b'+'
    then u.doubles.add o.arg1 o.arg2
    else if o.operand == b'-'
    then u.doubles.sub o.arg1 o.arg2
    else if o.operand == b'/'
    then (if u.doubles.is_nonzero o.arg2 then u.doubles.div o.arg1 o.arg2 else u.min_double)
    else if o.operand == b'*'
    then u.doubles.mul o.arg1 o.arg2
    else 0

unfoldable pub calc : Setup → Operation → Message
calc u o = send_msg u MessageType.result o.operation (evaluate u o)

-- The `switch` on the reply to the login: whether the client goes on.
unfoldable pub accepted : ℕ → Bool
accepted reply = reply == code MessageType.success

-- One round of the reading loop of `main`: what is sent in answer.
unfoldable pub respond : Setup → ℕ → Operation → Option Message
respond u msg_type operation =
    if msg_type == code MessageType.request
    then some (calc u operation)
    else if msg_type == code MessageType.ping
    then some (send_msg u MessageType.pong 0 0)
    else none

-- A division by zero.
abbrev pub divides_by_zero : Setup → Operation → Bool
divides_by_zero u o = o.operand == b'/' && not (u.doubles.is_nonzero o.arg2)

evaluate_zero :
    (u : Setup) (o : Operation) → divides_by_zero u o ≡ true → evaluate u o ≡ u.min_double
unfolding evaluate
evaluate_zero u o h = ground (arith, h)

evaluate_flag :
    (u : Setup) (o : Operation)
    → u.equal u.min_double u.min_double ≡ true
    → u.equal (evaluate u o) u.min_double
      ≡ (divides_by_zero u o || u.equal (evaluate u o) u.min_double)
evaluate_flag u o h = elim (Bool-cases (divides_by_zero u o)) [
  | inl e ↦ ap (λ v. u.equal v u.min_double) (evaluate_zero u o e) ∙ ground (arith, e, h)
  | inr e ↦ ground (arith, e)
]

print_result-calc :
    (u : Setup) (o : Operation) (s : Server)
    → print_result (calc u o) s
      ≡ running (
          print
            (if u.equal (evaluate u o) u.min_double
              then divided_by_zero
              else result o.operation (evaluate u o) (take 63 u.name))
            s)
unfolding calc send_msg
print_result-calc u o s = elim (Bool-cases (u.equal (evaluate u o) u.min_double)) [
  | inl e ↦ ground (arith, e)
  | inr e ↦ ground (arith, e)
]

-- What the server prints for the answer to any operation, if MINDOUBLE equals itself: an error for a
-- division by zero and also for every other result that equals MINDOUBLE, and the number of the
-- operation with its value and the first 63 bytes of the client's name for all others.
pub dispatch-calc :
    (os : ℕ → Datagram → Bool) (u : Setup) (o : Operation) (socket : Family) (address : Address)
    (s : Server)
    → u.equal u.min_double u.min_double ≡ true
    → message os socket (some (calc u o)) address s
      ≡ running (
          print
            (if divides_by_zero u o || u.equal (evaluate u o) u.min_double
              then divided_by_zero
              else result o.operation (evaluate u o) (take 63 u.name))
            s)
unfolding calc send_msg dispatch
dispatch-calc os u o socket address s h =
    print_result-calc u o s
    ∙ ap
        (λ (w : Bool). running (
          print (if w then divided_by_zero else result o.operation (evaluate u o) (take 63 u.name))
            s))
        (evaluate_flag u o h)
