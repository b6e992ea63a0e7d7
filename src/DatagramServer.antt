-- ===== src/DatagramServer.antt =====
-- Operating-systems/lab10/zad2/server.c: the calculator server over datagrams. The handlers hold
-- `clients_mutex` while they touch the table; `os k e` says whether the k-th `sendto`, `e`, succeeds.
pub mod Table
pub mod Handlers
pub mod Families
pub mod Sessions
pub mod Calculator
mod Examples
use agh_ust_projects.Prelude.{
  ℕ, zero, suc, ◌+◌, ◌-◌, ◌%◌, Bool, true, false, List, [], ◌∷◌, ◌++◌, Option, none, some, ltb,
  ◌==◌, ◌&&◌, if◌then◌else◌, set, get_or, move_down,
}
use agh_ust_projects.CLibrary.{str_eq}
use agh_ust_projects.SocketServer.Protocol.{MessageType, code, Operation, client_max}
use agh_ust_projects.SocketServer.Server.{u8_inc, u8_dec, known_operator}

-- The two sockets of the server, and the kinds of addresses that `recvfrom` gives on them.
pub data Family : Type 0 where
  local web : Family

-- `connect_type`
abbrev pub web_type : ℕ
web_type = 1

pub record Address : Type 0 where
  pub family : Family
  pub data_bytes : List ℕ

-- `message_t`, its name up to the terminator; a double is its bit pattern.
pub record Message : Type 0 where
  pub msg_type : ℕ
  pub name : List ℕ
  pub connect_type : ℕ
  pub op : ℕ
  pub val : ℕ
  pub wrong_flag : ℕ

pub record Client : Type 0 where
  pub sockaddr : Address
  pub connect_type : ℕ
  pub name : List ℕ
  pub is_inactive : ℕ

abbrev pub no_client : Client
no_client = record {
  sockaddr = record { family = Family.local; data_bytes = [] };
  connect_type = 0;
  name = [];
  is_inactive = 0;
}

pub data Payload : Type 0 where
  byte : MessageType → Payload
  order : Operation → Payload

-- A `sendto`: the socket, the address and what is sent.
pub record Datagram : Type 0 where
  pub socket : Family
  pub address : Address
  pub payload : Payload

-- What is printed on the terminal.
pub data Line : Type 0 where
  inactive : List ℕ → Line
  logged_out : List ℕ → Line
  divided_by_zero : Line
  result : ℕ → ℕ → List ℕ → Line
  unknown_type : Line
  wrong_format : Line
  wrong_operator : Line
  no_clients : Line
  order_sent : ℕ → List ℕ → Line
  order_failed : List ℕ → Line

-- The globals of server.c, the datagrams sent and the lines printed so far, oldest first.
pub record Server : Type 0 where
  pub clients : List Client
  pub client_counter : ℕ
  pub operation_counter : ℕ
  pub locked : Bool
  pub calls : ℕ
  pub sent : List Datagram
  pub printed : List Line

-- `failed` is `print_err_ext_failure`; `blocked` waits for the mutex.
pub data Outcome : Type 0 where
  running : Server → Outcome
  failed : Server → Outcome
  blocked : Server → Outcome

abbrev pub print : Line → Server → Server
print l s = record s { printed = s.printed ++ l ∷ [] }

-- `pthread_mutex_lock`, and the rest of the handler.
abbrev pub lock_if : Bool → (Server → Outcome) → Server → Outcome
lock_if true next s = blocked s
lock_if false next s = next (record s { locked = true })

abbrev pub lock : (Server → Outcome) → Server → Outcome
lock next s = lock_if s.locked next s

abbrev pub unlock : Server → Outcome
unlock s = running (record s { locked = false })

-- The socket that fits a client's `connect_type`.
abbrev pub socket_of : ℕ → Family
socket_of connect_type = if connect_type == web_type then Family.web else Family.local

-- The index of the first of `k` slots, from `i` on, whose client has the name.
unfoldable pub find_name : ℕ → ℕ → List Client → List ℕ → Option ℕ
find_name zero i slots name = none
find_name (suc k) i [] name = none
find_name (suc k) i (c ∷ cs) name =
    let later = find_name k (i + 1) cs name in if str_eq c.name name then some i else later

-- `check_name`; `none` is -1.
abbrev pub check_name : List ℕ → Server → Option ℕ
check_name name s = find_name s.client_counter 0 s.clients name

-- The counter goes down first, then the later clients move down.
abbrev pub remove_client : ℕ → Server → Server
remove_client i s = record s {
  client_counter = s.client_counter - 1;
  clients = move_down no_client (s.client_counter - 1 - i) i s.clients;
}

abbrev pub logout_found : Option ℕ → List ℕ → Server → Outcome
logout_found none name s = unlock s
logout_found (some i) name s = unlock (print (logged_out name) (remove_client i s))

unfoldable pub logout_client : List ℕ → Server → Outcome
logout_client name s = lock (λ t. logout_found (check_name name t) name t) s

abbrev pub answer : ℕ → Server → Server
answer i s =
    let c = get_or s.clients i no_client in
    record s { clients = set s.clients i (record c { is_inactive = u8_dec c.is_inactive }) }

abbrev pub pong_found : Option ℕ → Server → Outcome
pong_found none s = unlock s
pong_found (some i) s = unlock (answer i s)

-- The `PONG` case of `message`.
unfoldable pub pong_client : List ℕ → Server → Outcome
pong_client name s = lock (λ t. pong_found (check_name name t) t) s

-- The rest of the handler, unless the `sendto` failed.
abbrev pub unless_failed : Bool × Server → (Server → Outcome) → Outcome
unless_failed (true, s) next = next s
unless_failed (false, s) next = failed s

abbrev pub newcomer : Message → Address → Client
newcomer msg address = record {
  sockaddr = address;
  connect_type = msg.connect_type;
  name = msg.name;
  is_inactive = 0;
}

abbrev pub print_result : Message → Server → Outcome
print_result msg s =
    running
      (print (if msg.wrong_flag == 1 then divided_by_zero else result msg.op msg.val msg.name) s)

module _ (os : ℕ → Datagram → Bool) where
  abbrev pub sendto : Family → Address → Payload → Server → Bool × Server
  sendto socket address payload s =
      let d : Datagram = record { socket = socket; address = address; payload = payload } in
      if os s.calls d
      then (true, record s { calls = s.calls + 1; sent = s.sent ++ d ∷ [] })
      else (false, record s { calls = s.calls + 1 })

  abbrev pub reply : Family → Address → MessageType → Server → Outcome
  reply socket address type s = unless_failed (sendto socket address (byte type) s) unlock

  abbrev pub login_found : Option ℕ → Family → Message → Address → Server → Outcome
  login_found (some i) socket msg address s = reply socket address MessageType.wrong_name s
  login_found none socket msg address s = reply socket address MessageType.success (record s {
    clients = set s.clients s.client_counter (newcomer msg address);
    client_counter = s.client_counter + 1;
  })

  unfoldable pub login_client : Family → Message → Address → Server → Outcome
  login_client socket msg address s =
      lock
        (λ t.
          if t.client_counter == client_max
          then reply socket address MessageType.wrong_size t
          else login_found (check_name msg.name t) socket msg address t)
        s

  -- The `switch` of `message`.
  unfoldable pub dispatch : Family → Message → Address → Server → Outcome
  dispatch socket msg address s =
      if msg.msg_type == code MessageType.login
      then login_client socket msg address s
      else if msg.msg_type == code MessageType.logout
      then logout_client msg.name s
      else if msg.msg_type == code MessageType.result
      then print_result msg s
      else if msg.msg_type == code MessageType.pong
      then pong_client msg.name s
      else running (print unknown_type s)

  -- `message` on the datagram that waits in a socket, where `none` is one of another size.
  abbrev pub message : Family → Option Message → Address → Server → Outcome
  message socket none address s = failed s
  message socket (some msg) address s = dispatch socket msg address s

  -- The body of the loop of `ping_procedure` at a client, and what follows at the next index; the
  -- first argument says whether the client has answered the last ping.
  abbrev pub ping_client : Bool → ℕ → Client → (ℕ → Server → Outcome) → Server → Outcome
  ping_client true i c next s =
      unless_failed (sendto (socket_of c.connect_type) c.sockaddr (byte MessageType.ping) s) (λ t.
        next (i + 1) (record t {
          clients = set t.clients i (record c { is_inactive = u8_inc c.is_inactive });
        }))
  ping_client false i c next s = next i (remove_client i (print (inactive c.name) s))

  abbrev pub ping_at : ℕ → Client → (ℕ → Server → Outcome) → Server → Outcome
  ping_at i c next s = ping_client (c.is_inactive == 0) i c next s

  abbrev pub ping_one : ℕ → (ℕ → Server → Outcome) → Server → Outcome
  ping_one i next s = ping_at i (get_or s.clients i no_client) next s

  -- The `for` loop; every round brings `i` and `client_counter` one closer together.
  unfoldable pub ping_loop : ℕ → ℕ → Server → Outcome
  ping_loop zero i s = unlock s
  ping_loop (suc fuel) i s = elim (ltb i s.client_counter) [
    | true ↦ ping_one i (ping_loop fuel) s
    | false ↦ unlock s
  ]

  unfoldable pub ping_round : Server → Outcome
  ping_round s = lock (λ t. ping_loop t.client_counter 0 t) s

  -- The order to the client that `dice`, the value of `rand`, chooses.
  abbrev pub send_to_one : ℕ → ℕ → ℕ → ℕ → Server → Outcome
  send_to_one arg1 operand arg2 dice s =
      let c = get_or s.clients (dice % s.client_counter) no_client in
      let o : Operation = record {
        operation = s.operation_counter;
        operand = operand;
        arg1 = arg1;
        arg2 = arg2;
      } in
      let first : Bool × Server =
        sendto (socket_of c.connect_type) c.sockaddr (byte MessageType.request) s in
      let second : Bool × Server = sendto (socket_of c.connect_type) c.sockaddr (order o) first.1 in
      unlock (
        print
          (if first.0 && second.0
            then order_sent s.operation_counter c.name
            else order_failed c.name)
          second.1)

  -- One round of `terminal_procedure` on what `sscanf` reads; without clients the mutex stays locked.
  unfoldable pub terminal_round : Option (ℕ × ℕ × ℕ) → ℕ → Server → Outcome
  terminal_round none dice s = running (print wrong_format s)
  terminal_round (some (arg1, operand, arg2)) dice s =
      if known_operator operand
      then lock
          (λ t.
            if t.client_counter == 0
            then running (print no_clients t)
            else send_to_one arg1 operand arg2 dice t)
          (record s { operation_counter = s.operation_counter + 1 })
      else running (print wrong_operator s)
