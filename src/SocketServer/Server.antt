-- ===== src/SocketServer/Server.antt =====
-- Operating-systems/lab10/zad1/server.c. Each handler runs in one of three threads and holds
-- `clients_mutex` while it touches the table; a handler that finds the mutex taken is `blocked`.
-- `os k e` says whether the k-th system call with an effect, `e`, succeeds.
pub mod Table
pub mod Refine
pub mod Logout
pub mod Ping
pub mod Deadlock
pub mod KeepAlive
use agh_ust_projects.Prelude.{
  ℕ, zero, suc, ◌+◌, ◌-◌, ◌%◌, Bool, true, false, List, [], ◌∷◌, ◌++◌, Option, none, some,
  if◌then◌else◌, ◌==◌, ltb, set, get_or, move_down, ◌&&◌, not, ◌*◌, take, drop,
}
use agh_ust_projects.SocketServer.Protocol.{
  Client, Result, Operation, MessageType, code, client_max, read, u16_value,
}
use agh_ust_projects.CLibrary.{str_eq, c_string}

-- A `printf` to the terminal: its format, and the arguments as they are passed. `got_result` passes the
-- double `value` by its 64 bits to `%lf`; the text with six decimals that `printf` makes of it is not
-- part of the model.
pub data Line : Type 0 where
  inactive : List ℕ → Line
  logged_out : List ℕ → Line
  divided_by_zero : Line
  got_result : Result → List ℕ → Line
  unknown_type : Line
  wrong_format : Line
  wrong_operator : Line
  no_clients : Line
  order_sent : ℕ → List ℕ → Line
  order_failed : List ℕ → Line

pub data Effect : Type 0 where
  send : ℕ → MessageType → Effect
  send_order : ℕ → Operation → Effect
  accept : ℕ → Effect
  epoll_add : ℕ → Effect
  epoll_del : ℕ → Effect
  shutdown : ℕ → Effect
  close : ℕ → Effect
  put : Line → Effect

-- The globals of server.c; `log` lists the effects so far, oldest first.
pub record Server : Type 0 where
  pub clients : List Client
  pub client_counter : ℕ
  pub operation_counter : ℕ
  pub locked : Bool
  pub calls : ℕ
  pub log : List Effect

-- `failed` is `print_err_ext_failure`: the process ends.
pub data Outcome (A : Type 0) : Type 0 where
  ok : A → Server → Outcome A
  failed : Server → Outcome A
  blocked : Server → Outcome A

abbrev pub M : Type 0 → Type 0
M A = Server → Outcome A

infixl 5 ◌>>=◌ ◌>>◌
abbrev pub ◌>>=◌ : {A B : Type 0} → M A → (A → M B) → M B
◌>>=◌ m f s = elim (m s) [ ok a t ↦ f a t | failed t ↦ failed t | blocked t ↦ blocked t ]

abbrev pub ◌>>◌ : {B : Type 0} → M (Unit {0}) → M B → M B
m >> k = m >>= λ _. k

-- `if (b) m else k`
abbrev pub choose : {A : Type 0} → Bool → M A → M A → M A
choose b m k s = elim b [ true ↦ m s | false ↦ k s ]

abbrev pub pure : {A : Type 0} → A → M A
pure a s = ok a s

abbrev pub get : M Server
get s = ok s s

abbrev pub modify : (Server → Server) → M (Unit {0})
modify f s = ok tt (f s)

abbrev pub print : Line → M (Unit {0})
print l s = ok tt (record s { log = s.log ++ put l ∷ [] })

unfoldable pub lock : M (Unit {0})
lock s = elim s.locked [ true ↦ blocked s | false ↦ ok tt (record s { locked = true }) ]

unfoldable pub unlock : M (Unit {0})
unlock s = ok tt (record s { locked = false })

abbrev pub no_client : Client
no_client = record { fd = 0; name = []; is_inactive = 0 }

-- `uint8_t` counters
abbrev pub u8_inc : ℕ → ℕ
u8_inc n = (n + 1) % 256

abbrev pub u8_dec : ℕ → ℕ
u8_dec n = (n + 255) % 256

-- The index of the first of `k` slots, from `i` on, whose client has the name.
pub find_name : ℕ → ℕ → List Client → List ℕ → Option ℕ
find_name zero i slots name = none
find_name (suc k) i [] name = none
find_name (suc k) i (c ∷ cs) name =
    if str_eq c.name name then some i else find_name k (i + 1) cs name

-- `check_name`; `none` is -1.
unfoldable pub check_name : List ℕ → Server → Option ℕ
check_name name s = find_name s.client_counter 0 s.clients name

-- `for (j = i; j < client_counter; ++j) clients[j] = clients[j + 1];` with the rounds left.
abbrev pub shift_down : ℕ → ℕ → List Client → List Client
shift_down k j slots = move_down no_client k j slots

abbrev pub on_found : {A : Type 0} → Option ℕ → (ℕ → M A) → M A → M A
on_found o f m s = elim o [ none ↦ m s | some i ↦ f i s ]

abbrev pub answer : ℕ → Server → Server
answer i t =
    let c = get_or t.clients i no_client in
    record t { clients = set t.clients i (record c { is_inactive = u8_dec c.is_inactive }) }

abbrev pub known_operator : ℕ → Bool
known_operator c = not (not (c == b'+') && not (c == b'-') && not (c == b'*') && not (c == b'/'))

-- `read` of exactly `n` bytes, or the process ends.
read_or_fail : ℕ → List ℕ → M (List ℕ × List ℕ)
read_or_fail n bytes s = elim (read n bytes) [ none ↦ failed s | some r ↦ ok r s ]

-- `result_t` in memory: two `int`s and a double.
abbrev pub little_endian : List ℕ → ℕ
little_endian [] = 0
little_endian (b ∷ bs) = b + 256 * little_endian bs

abbrev pub result_of : List ℕ → Result
result_of bytes = record {
  wrong_flag = little_endian (take 4 bytes);
  operation = little_endian (take 4 (drop 4 bytes));
  value = little_endian (drop 8 bytes);
}

module _ (os : ℕ → Effect → Bool) where
  -- A call whose failure ends the process.
  pub must : Effect → M (Unit {0})
  must e s =
      if os s.calls e
      then ok tt (record s { calls = s.calls + 1; log = s.log ++ e ∷ [] })
      else failed s

  -- A call whose result is tested and passed on.
  pub try : Effect → M Bool
  try e s =
      if os s.calls e
      then ok true (record s { calls = s.calls + 1; log = s.log ++ e ∷ [] })
      else ok false (record s { calls = s.calls + 1 })

  unfoldable pub connect_fun : ℕ → ℕ → M (Unit {0})
  connect_fun socket client = do must (accept socket); must (epoll_add client)

  unfoldable pub close_socket : ℕ → M (Unit {0})
  close_socket socket = do must (epoll_del socket); must (shutdown socket); must (close socket)

  unfoldable pub remove_client : ℕ → M (Unit {0})
  remove_client i = do
    s ← get
    close_socket ((get_or s.clients i no_client).fd)
    modify λ t. record t {
      client_counter = t.client_counter - 1;
      clients = shift_down (t.client_counter - 1 - i) i t.clients;
    }

  abbrev pub refuse : ℕ → MessageType → M (Unit {0})
  refuse socket type = do must (send socket type); close_socket socket

  abbrev pub admit : List ℕ → ℕ → M (Unit {0})
  admit name socket = do
    modify λ t. record t {
      clients =
          set t.clients t.client_counter (record { fd = socket; name = name; is_inactive = 0 });
      client_counter = t.client_counter + 1;
    }
    must (send socket MessageType.success)

  unfoldable pub login_client : List ℕ → ℕ → M (Unit {0})
  login_client name socket = do
    lock
    s ← get
    choose (s.client_counter == client_max) (refuse socket MessageType.wrong_size) (
        on_found (check_name name s) (λ i. refuse socket MessageType.wrong_name)
          (admit name socket))
    unlock

  unfoldable pub logout_client : List ℕ → M (Unit {0})
  logout_client name = do
    lock
    s ← get
    on_found (check_name name s) (λ i. do remove_client i; print (logged_out name)) (pure tt)
    unlock

  -- The `PONG` case of `message`.
  unfoldable pub pong_client : List ℕ → M (Unit {0})
  pong_client name = do
    lock
    s ← get
    on_found (check_name name s) (λ i. modify (answer i)) (pure tt)
    unlock

  -- The body of the loop of `ping_procedure` at index `i`; the result is the next index.
  unfoldable pub ping_one : ℕ → M ℕ
  ping_one i = do
    s ← get
    let c = get_or s.clients i no_client
    choose (c.is_inactive == 0)
        (do
          must (send c.fd MessageType.ping)
          modify λ t. record t {
            clients = set t.clients i (record c { is_inactive = u8_inc c.is_inactive });
          }
          pure (i + 1))
        (do print (inactive c.name); remove_client i; pure i)

  -- The `for` loop; every round brings `i` and `client_counter` one closer together.
  pub ping_loop : ℕ → ℕ → M (Unit {0})
  ping_loop zero i = pure tt
  ping_loop (suc fuel) i = do
    s ← get
    choose (ltb i s.client_counter) (ping_one i >>= λ i'. ping_loop fuel i') (pure tt)

  unfoldable pub ping_round : M (Unit {0})
  ping_round = do lock; s ← get; ping_loop s.client_counter 0; unlock

  -- The order to one of the clients, chosen by `dice`, which is what `rand` returns.
  unfoldable pub send_to_one : ℕ → ℕ → ℕ → ℕ → M (Unit {0})
  send_to_one arg1 operand arg2 dice = do
    s ← get
    let c = get_or s.clients (dice % s.client_counter) no_client
    let n = s.operation_counter
    first ← try (send c.fd MessageType.request)
    second ←
        try
          (send_order c.fd (record { operation = n; operand = operand; arg1 = arg1; arg2 = arg2 }))
    print (if first && second then order_sent n c.name else order_failed c.name)
    unlock

  -- One round of `terminal_procedure`: `order` is what `sscanf` reads.
  unfoldable pub terminal_round : Option (ℕ × ℕ × ℕ) → ℕ → M (Unit {0})
  terminal_round none dice = print wrong_format
  terminal_round (some (arg1, operand, arg2)) dice =
      choose (known_operator operand)
        (do
          modify λ t. record t { operation_counter = t.operation_counter + 1 }
          lock
          s ← get
          choose (s.client_counter == 0) (print no_clients) (send_to_one arg1 operand arg2 dice))
        (print wrong_operator)

  -- A message that holds only the client's name.
  with_name : ℕ → List ℕ → (List ℕ → M (Unit {0})) → M (List ℕ)
  unfolding read_or_fail
  with_name msg_size bytes handler = do
    (name, rest) ← read_or_fail msg_size bytes
    handler (c_string name)
    pure rest

  with_result : ℕ → List ℕ → M (List ℕ)
  unfolding read_or_fail
  with_result msg_size bytes = do
    (name, more) ← read_or_fail msg_size bytes
    (struct, rest) ← read_or_fail 16 more
    let r = result_of struct
    print (if r.wrong_flag == 1 then divided_by_zero else got_result r (c_string name))
    pure rest

  -- The `switch` of `message`, after the header was read.
  unfoldable pub dispatch : ℕ → ℕ → ℕ → List ℕ → M (List ℕ)
  unfolding with_name with_result
  dispatch socket type size bytes =
      choose (type == code MessageType.login)
        (with_name size bytes (λ name. login_client name socket))
        (choose (type == code MessageType.logout) (with_name size bytes logout_client) (
          choose (type == code MessageType.result) (with_result size bytes) (
            choose (type == code MessageType.pong) (with_name size bytes pong_client)
              (do print unknown_type; pure bytes))))

  -- `message` on the bytes that stand in the socket; the result is what it leaves unread.
  unfoldable pub message : ℕ → List ℕ → M (List ℕ)
  unfolding read_or_fail
  message socket bytes = do
    (head, bytes') ← read_or_fail 1 bytes
    (size, bytes'') ← read_or_fail 2 bytes'
    dispatch socket (get_or head 0 0) (u16_value (get_or size 0 0) (get_or size 1 0)) bytes''
