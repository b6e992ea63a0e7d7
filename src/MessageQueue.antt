-- ===== src/MessageQueue.antt =====
-- Operating-systems/lab6/zad1/server.c: the table of client queues and the requests. A string is the
-- list of its characters before the terminator. `os k` says whether the k-th `msgsnd` succeeds.
pub mod Calc
pub mod Table
pub mod Client
pub mod Session
mod Examples
use agh_ust_projects.Prelude.{
  ℕ, zero, suc, ◌+◌, ◌-◌, ◌*◌, ◌/◌, ◌%◌, Bool, true, false, List, [], ◌∷◌, ◌++◌, Option, none, some,
  length, take, get_elem?, set, get_or, ltb, leb, ◌==◌, ◌&&◌, ◌||◌, if◌then◌else◌,
}
use agh_ust_projects.Prelude.Int.{ℤ, pos, negsuc}
use agh_ust_projects.MessageQueue.Calc.{Answer, replied, refused, crashed, calc_answer}
use agh_ust_projects.CLibrary.{print_ℕ, atoi}

abbrev pub max_clients : ℕ
max_clients = 10

abbrev pub mirror_code : ℕ
mirror_code = 1

abbrev pub calc_code : ℕ
calc_code = 2

abbrev pub time_code : ℕ
time_code = 3

abbrev pub end_code : ℕ
end_code = 4

abbrev pub stop_code : ℕ
stop_code = 5

abbrev pub introduce_code : ℕ
introduce_code = 6

abbrev pub reply : ℕ
reply = 8

abbrev pub error : ℕ
error = 9

-- `struct msgbuf1`. `mtext` is the string in a buffer of 30 characters: the texts that the client writes
-- are shorter (`Client.request`), and so are those of the server but for the answers to longer ones.
pub record Message : Type 0 where
  pub mtype : ℕ
  pub mtext : List ℕ
  pub client_id : ℤ
  pub pid : ℕ

-- A queue id, and the type and the text put into that queue.
pub record Sent : Type 0 where
  pub queue : ℤ
  pub mtype : ℕ
  pub mtext : List ℕ

-- `clients`, a list of MAX_CLIENTS entries, the calls of `msgsnd` so far, and the messages that it
-- sent, oldest first.
pub record Server : Type 0 where
  pub clients : List ℤ
  pub calls : ℕ
  pub sent : List Sent

-- The entry -1.
abbrev pub free : ℤ
free = negsuc 0

abbrev pub is_free : ℤ → Bool
is_free (pos n) = false
is_free (negsuc n) = n == 0

-- The `while` loop of `new_client`, with the slots left.
unfoldable pub find_free : ℕ → List ℤ → Option ℕ
find_free id [] = none
find_free id (c ∷ cs) = if is_free c then some id else find_free (id + 1) cs

-- `none` is a write behind the table.
unfoldable pub delete_client : Message → Server → Option Server
delete_client m s = at m.client_id
  where
    at : ℤ → Option Server
    at (negsuc k) = some s
    at (pos id) =
        if ltb max_clients id
        then some s
        else if ltb id (length s.clients)
        then some (record s { clients = set s.clients id free })
        else none

abbrev pub msg_maxsize : ℕ
msg_maxsize = 30

-- `undefined`: an access outside the table, or a crash in `calc`.
pub data Outcome : Type 0 where
  running : Server → Outcome
  ended : Server → Outcome
  undefined : Server → Outcome

abbrev pub left : Option Server → Server → Outcome
left none s = undefined s
left (some s') s = running s'

-- `clients[id]`
abbrev pub client_queue : List ℤ → ℤ → Option ℤ
client_queue clients (negsuc k) = none
client_queue clients (pos id) = get_elem? clients id

-- "Queue full"
abbrev pub queue_full : List ℕ
queue_full = 81 ∷ 117 ∷ 101 ∷ 117 ∷ 101 ∷ 32 ∷ 102 ∷ 117 ∷ 108 ∷ 108 ∷ []

abbrev pub initial_clients : List ℤ
initial_clients = free ∷ free ∷ free ∷ free ∷ free ∷ free ∷ free ∷ free ∷ free ∷ free ∷ []

-- The `while` loop of `mirror_fun`, with the characters left of `ptr`.
pub mirror_loop : ℕ → List ℕ → List ℕ → List ℕ
mirror_loop zero mtext to_send = to_send
mirror_loop (suc k) mtext to_send = mirror_loop k mtext (to_send ++ get_or mtext k 0 ∷ [])

abbrev pub with_queue : Option ℤ → (ℤ → Outcome) → Server → Outcome
with_queue none handler s = undefined s
with_queue (some queue) handler s = handler queue

module _ (os : ℕ → Bool) where
  abbrev pub msgsnd : ℤ → ℕ → List ℕ → Server → Bool × Server
  msgsnd queue mtype mtext s =
      if os s.calls
      then (
        true,
        record s {
          calls = s.calls + 1;
          sent = s.sent ++ record { queue = queue; mtype = mtype; mtext = mtext } ∷ [];
        },
      )
      else (false, record s { calls = s.calls + 1 })

  -- The body of `new_client` behind the loop.
  abbrev pub register_at : Option ℕ → List ℕ → Server → Server
  register_at none mtext s = (msgsnd (atoi queue_full) error queue_full s).1
  register_at (some id) mtext s =
      let entered = record s { clients = set s.clients id (atoi mtext) } in
      let (was_sent, s') = msgsnd (atoi mtext) reply (print_ℕ id) entered in
      if was_sent then s' else record s' { clients = set s'.clients id free }

  unfoldable pub new_client : Message → Server → Server
  new_client m s = register_at (find_free 0 s.clients) m.mtext s

  unfoldable pub mirror_fun : ℤ → List ℕ → Server → Server
  mirror_fun q_id mtext s = (msgsnd q_id reply (mirror_loop (length mtext) mtext []) s).1

  unfoldable pub error_send : List ℕ → ℤ → Server → Server
  error_send text queue s = (msgsnd queue error text s).1

  abbrev pub send_answer : ℤ → Answer → Server → Outcome
  send_answer queue (replied text) s = running ((msgsnd queue reply text s).1)
  send_answer queue (refused text) s = running (error_send text queue s)
  send_answer queue crashed s = undefined s

  unfoldable pub calc : ℤ → List ℕ → Server → Outcome
  calc queue text s = send_answer queue (calc_answer text) s

  -- `date` is the line that the program `date` prints, its newline included.
  unfoldable pub time_fun : List ℕ → ℤ → Server → Outcome
  time_fun date queue s =
      let mtext = take (msg_maxsize - 1) date in
      running ((msgsnd queue reply (take (length mtext - 1) mtext) s).1)

  -- The `switch` of `main` on a message.
  unfoldable pub dispatch : List ℕ → Message → Server → Outcome
  dispatch date m s =
      let queue = client_queue s.clients m.client_id in
      if m.mtype == introduce_code
      then running (new_client m s)
      else if m.mtype == mirror_code
      then with_queue queue (λ q. running (mirror_fun q m.mtext s)) s
      else if m.mtype == calc_code
      then with_queue queue (λ q. calc q m.mtext s) s
      else if m.mtype == time_code
      then with_queue queue (λ q. time_fun date q s) s
      else if m.mtype == end_code
      then ended s
      else if m.mtype == stop_code
      then left (delete_client m s) s
      else running s
