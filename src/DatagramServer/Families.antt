-- ===== src/DatagramServer/Families.antt =====
-- Through which socket the server of Operating-systems/lab10/zad2/server.c sends: the handlers trust
-- the `connect_type` that a client names at its login.
use agh_ust_projects.Prelude.{
  ℕ, zero, suc, ◌+◌, ◌-◌, ◌%◌, ◌≡◌, refl, Bool, true, false, List, [], ◌∷◌, ◌++◌, Option, none,
  some, All, All-set, All-get_or, All-append, All-move_down, get_or, ltb, ◌==◌, if◌then◌else◌,
}
use agh_ust_projects.SocketServer.Protocol.{MessageType, code, client_max}
use agh_ust_projects.SocketServer.Server.{known_operator}
use agh_ust_projects.DatagramServer.{
  Family, Address, Message, Client, no_client, Payload, byte, Datagram, Server, Outcome, running,
  failed, blocked, lock_if, lock, socket_of, check_name, remove_client, answer, logout_found,
  logout_client, pong_found, pong_client, sendto, unless_failed, reply, newcomer, login_found,
  login_client, dispatch, message, ping_one, ping_client, ping_loop, ping_round, unlock,
  terminal_round, inactive, print,
}

-- The client's kind of connection is that of its address.
abbrev pub Matches : Client → Type 0
Matches c = socket_of c.connect_type ≡ c.sockaddr.family

-- A datagram goes through the socket for addresses of its kind.
abbrev pub GoesWell : Datagram → Type 0
GoesWell d = d.socket ≡ d.address.family

abbrev pub Sound : Server → Type 0
Sound s = All Matches s.clients × All GoesWell s.sent

-- `P` holds of the server if it goes on.
abbrev pub OnRunning : (Server → Type 0) → Outcome → Type 0
OnRunning P (running s) = P s
OnRunning P (failed s) = Unit {0}
OnRunning P (blocked s) = Unit {0}

remove_client-Sound : (i : ℕ) (s : Server) → Sound s → Sound (remove_client i s)
remove_client-Sound i s a =
    (All-move_down Matches no_client (s.client_counter - 1 - i) i s.clients refl a.0, a.1)

lock-Sound :
    (next : Server → Outcome) (s : Server)
    → ((t : Server) → Sound t → OnRunning Sound (next t))
    → Sound s
    → OnRunning Sound (lock next s)
lock-Sound next s h a = by_lock s.locked
  where
    by_lock : (b : Bool) → OnRunning Sound (lock_if b next s)
    by_lock true = tt
    by_lock false = h (record s { locked = true }) a

if-Sound :
    (b : Bool) (x y : Outcome)
    → OnRunning Sound x
    → OnRunning Sound y
    → OnRunning Sound (if b then x else y)
if-Sound true x y p q = p
if-Sound false x y p q = q

logout_client-Sound :
    (name : List ℕ) (s : Server) → Sound s → OnRunning Sound (logout_client name s)
unfolding logout_client
logout_client-Sound name s a = lock-Sound _ s (λ t b. by_name (check_name name t) t b) a
  where
    by_name : (o : Option ℕ) (t : Server) → Sound t → OnRunning Sound (logout_found o name t)
    by_name none t b = b
    by_name (some i) t b = remove_client-Sound i t b

answer-Sound : (i : ℕ) (s : Server) → Sound s → Sound (answer i s)
answer-Sound i s a =
    (All-set Matches s.clients i _ a.0 (All-get_or Matches s.clients i no_client a.0 refl), a.1)

pong_client-Sound : (name : List ℕ) (s : Server) → Sound s → OnRunning Sound (pong_client name s)
unfolding pong_client
pong_client-Sound name s a = lock-Sound _ s (λ t b. by_name (check_name name t) t b) a
  where
    by_name : (o : Option ℕ) (t : Server) → Sound t → OnRunning Sound (pong_found o t)
    by_name none t b = b
    by_name (some i) t b = answer-Sound i t b

-- What arrives: the address is of the socket's kind, and so is the connection the message names.
abbrev pub Honest : Family → Option Message → Address → Type 0
Honest socket none address = Unit {0}
Honest socket (some msg) address =
    (socket ≡ address.family) × (socket_of msg.connect_type ≡ address.family)

module _ (os : ℕ → Datagram → Bool) where
  unless_failed-Sound :
      (socket : Family) (address : Address) (payload : Payload) (next : Server → Outcome)
      (s : Server)
      → socket ≡ address.family
      → ((t : Server) → Sound t → OnRunning Sound (next t))
      → Sound s
      → OnRunning Sound (unless_failed (sendto os socket address payload s) next)
  unless_failed-Sound socket address payload next s e h a = by_result (os s.calls d)
    where
      d : Datagram
      d = record { socket = socket; address = address; payload = payload }

      by_result :
          (b : Bool)
          → let r : Bool × Server =
              if b
              then (true, record s { calls = s.calls + 1; sent = s.sent ++ d ∷ [] })
              else (false, record s { calls = s.calls + 1 }) in
            OnRunning Sound (unless_failed r next)
      by_result true =
          h (record s { calls = s.calls + 1; sent = s.sent ++ d ∷ [] })
            (a.0, All-append GoesWell s.sent d a.1 e)
      by_result false = tt

  sendto-Sound :
      (socket : Family) (address : Address) (payload : Payload) (s : Server)
      → socket ≡ address.family
      → Sound s
      → Sound (sendto os socket address payload s).1
  sendto-Sound socket address payload s e a = by_result (os s.calls d)
    where
      d : Datagram
      d = record { socket = socket; address = address; payload = payload }

      by_result :
          (b : Bool)
          → let r : Bool × Server =
              if b
              then (true, record s { calls = s.calls + 1; sent = s.sent ++ d ∷ [] })
              else (false, record s { calls = s.calls + 1 }) in
            Sound r.1
      by_result true = (a.0, All-append GoesWell s.sent d a.1 e)
      by_result false = a

  reply-Sound :
      (socket : Family) (address : Address) (type : MessageType) (s : Server)
      → socket ≡ address.family
      → Sound s
      → OnRunning Sound (reply os socket address type s)
  reply-Sound socket address type s e a =
      unless_failed-Sound socket address (byte type) unlock s e (λ t b. b) a

  login_client-Sound :
      (socket : Family) (msg : Message) (address : Address) (s : Server)
      → Honest socket (some msg) address
      → Sound s
      → OnRunning Sound (login_client os socket msg address s)
  unfolding login_client
  login_client-Sound socket msg address s h a =
      lock-Sound _ s
        (λ t b.
          if-Sound (t.client_counter == client_max) _ _
            (reply-Sound socket address MessageType.wrong_size t h.0 b)
            (by_name (check_name msg.name t) t b))
        a
    where
      by_name :
          (o : Option ℕ) (t : Server)
          → Sound t
          → OnRunning Sound (login_found os o socket msg address t)
      by_name (some i) t b = reply-Sound socket address MessageType.wrong_name t h.0 b
      by_name none t b =
          reply-Sound socket address MessageType.success _ h.0
            (All-set Matches t.clients t.client_counter (newcomer msg address) b.0 h.1, b.1)

  pub message-Sound :
      (socket : Family) (msg : Option Message) (address : Address) (s : Server)
      → Honest socket msg address
      → Sound s
      → OnRunning Sound (message os socket msg address s)
  unfolding dispatch
  message-Sound socket none address s h a = tt
  message-Sound socket (some msg) address s h a =
      if-Sound (msg.msg_type == code MessageType.login) _ _
        (login_client-Sound socket msg address s h a)
        (if-Sound (msg.msg_type == code MessageType.logout) _ _ (logout_client-Sound msg.name s a) (
          if-Sound (msg.msg_type == code MessageType.result) _ _ a (
            if-Sound (msg.msg_type == code MessageType.pong) _ _ (pong_client-Sound msg.name s a)
              a)))

  ping_one-Sound :
      (i : ℕ) (next : ℕ → Server → Outcome) (s : Server)
      → ((j : ℕ) (t : Server) → Sound t → OnRunning Sound (next j t))
      → Sound s
      → OnRunning Sound (ping_one os i next s)
  ping_one-Sound i next s h a =
      let c : Client = get_or s.clients i no_client in
      let m : Matches c = All-get_or Matches s.clients i no_client a.0 refl in
      by_answer c m (c.is_inactive == 0)
    where
      by_answer :
          (c : Client) → Matches c → (b : Bool) → OnRunning Sound (ping_client os b i c next s)
      by_answer c m true =
          unless_failed-Sound (socket_of c.connect_type) c.sockaddr (byte MessageType.ping) _ s m
            (λ t b. h (i + 1) _ (All-set Matches t.clients i _ b.0 m, b.1)) a
      by_answer c m false = h i _ (remove_client-Sound i (print (inactive c.name) s) a)

  ping_loop-Sound : (fuel i : ℕ) (s : Server) → Sound s → OnRunning Sound (ping_loop os fuel i s)
  unfolding ping_loop
  ping_loop-Sound zero i s a = a
  ping_loop-Sound (suc fuel) i s a =
      by_index (ltb i s.client_counter)
        (ping_one-Sound i (ping_loop os fuel) s (ping_loop-Sound fuel) a)
    where
      by_index :
          (b : Bool)
          → OnRunning Sound (ping_one os i (ping_loop os fuel) s)
          → OnRunning Sound
              (elim b [ true ↦ ping_one os i (ping_loop os fuel) s | false ↦ unlock s ])
      by_index true r = r
      by_index false r = a

  pub ping_round-Sound : (s : Server) → Sound s → OnRunning Sound (ping_round os s)
  unfolding ping_round
  ping_round-Sound s a = lock-Sound _ s (λ t b. ping_loop-Sound t.client_counter 0 t b) a

  pub terminal_round-Sound :
      (order : Option (ℕ × ℕ × ℕ)) (dice : ℕ) (s : Server)
      → Sound s
      → OnRunning Sound (terminal_round os order dice s)
  unfolding terminal_round
  terminal_round-Sound none dice s a = a
  terminal_round-Sound (some (arg1, operand, arg2)) dice s a =
      if-Sound (known_operator operand) _ _
        (lock-Sound _ (record s { operation_counter = s.operation_counter + 1 })
          (λ t b. if-Sound (t.client_counter == 0) _ _ b (
            let c : Client = get_or t.clients (dice % t.client_counter) no_client in
            let m : Matches c =
              All-get_or Matches t.clients (dice % t.client_counter) no_client b.0 refl in
            sendto-Sound (socket_of c.connect_type) c.sockaddr _ _ m
              (sendto-Sound (socket_of c.connect_type) c.sockaddr _ t m b)))
          a)
        a
