-- ===== src/PosixQueue.antt =====
-- Operating-systems/lab6/zad2/server.c: the server of lab6/zad1 over POSIX queues. `calc` is the same
-- function; the table holds descriptors that the server opens and closes. `open_queue k` says which
-- descriptor the k-th `mq_open` gives for a name, and `os k` whether the k-th `mq_send` succeeds.
pub mod Descriptors
pub mod Serving
pub mod Newcomers
pub mod Shutdown
pub mod Client
pub mod Visit
mod Examples
use agh_ust_projects.Prelude.{
  ℕ, zero, suc, ◌+◌, ◌-◌, Bool, true, false, List, [], ◌∷◌, ◌++◌, Option, none, some, length, take,
  set, ltb, ◌==◌, if◌then◌else◌,
}
use agh_ust_projects.Prelude.Int.{ℤ, pos, negsuc}
use agh_ust_projects.CLibrary.{print_ℕ}
use agh_ust_projects.MessageQueue.{
  Sent, free, is_free, find_free, client_queue, max_clients, reply, error, mirror_code, calc_code,
  time_code, end_code, stop_code, introduce_code, mirror_loop,
}
use agh_ust_projects.MessageQueue.Calc.{Answer, replied, refused, crashed, calc_answer}

-- A message: the type in its first byte, the client's number in its second, and the text behind them.
pub record Message : Type 0 where
  pub mtype : ℤ
  pub client_id : ℤ
  pub mtext : List ℕ

-- `clients`, a list of MAX_CLIENTS entries, the calls of `mq_send` so far, the messages that it sent,
-- and the descriptors opened and closed, oldest first.
pub record Server : Type 0 where
  pub clients : List ℤ
  pub calls : ℕ
  pub sent : List Sent
  pub opened : List ℤ
  pub closed : List ℤ

-- `undefined`: an access outside the table, or a crash in `calc`.
pub data Outcome : Type 0 where
  running : Server → Outcome
  ended : Server → Outcome
  undefined : Server → Outcome

abbrev pub msg_max : ℕ
msg_max = 8192

abbrev pub close_queue : ℤ → Server → Server
close_queue d s = record s { closed = s.closed ++ d ∷ [] }

-- `removeQAtExit` on the entries of the table.
unfoldable pub remove_q_at_exit : List ℤ → Server → Server
remove_q_at_exit [] s = s
remove_q_at_exit (d ∷ ds) s = remove_q_at_exit ds (if is_free d then s else close_queue d s)

-- The entry is closed and becomes free.
abbrev pub delete_entry : Option ℤ → ℕ → Server → Outcome
delete_entry none id s = undefined s
delete_entry (some d) id s = running (record (close_queue d s) { clients = set s.clients id free })

abbrev pub delete_at : ℤ → Server → Outcome
delete_at (negsuc k) s = undefined s
delete_at (pos id) s =
    if ltb max_clients id then running s else delete_entry (client_queue s.clients (pos id)) id s

-- The guard tests the type, where it means the number.
abbrev pub delete_checked : ℤ → ℤ → Server → Outcome
delete_checked (negsuc k) id s = running s
delete_checked (pos k) id s = delete_at id s

abbrev pub delete_client : Message → Server → Outcome
delete_client m s = delete_checked m.mtype m.client_id s

abbrev pub with_queue : Option ℤ → (ℤ → Outcome) → Server → Outcome
with_queue none handler s = undefined s
with_queue (some queue) handler s = handler queue

module _ (os : ℕ → Bool) where
  abbrev pub mq_send : ℤ → ℕ → List ℕ → Server → Bool × Server
  mq_send queue mtype mtext s =
      if os s.calls
      then (
        true,
        record s {
          calls = s.calls + 1;
          sent = s.sent ++ record { queue = queue; mtype = mtype; mtext = mtext } ∷ [];
        },
      )
      else (false, record s { calls = s.calls + 1 })

  -- `new_client` behind `mq_open` and the loop; the full table sends to the entry behind its end.
  abbrev pub register_at : Option ℕ → ℤ → Server → Outcome
  register_at none d s = undefined s
  register_at (some id) d s =
      let entered = record s { clients = set s.clients id d } in
      let (was_sent, s') = mq_send d reply (print_ℕ id) entered in
      running (if was_sent then s' else record s' { clients = set s'.clients id free })

  abbrev pub register_opened : Option ℕ → Server → Outcome
  register_opened none s = ended s
  register_opened (some d) s =
      register_at (find_free 0 s.clients) (pos d) (record s { opened = s.opened ++ pos d ∷ [] })

  unfoldable pub new_client : (ℕ → List ℕ → Option ℕ) → Message → Server → Outcome
  new_client open_queue m s = register_opened (open_queue (length s.opened) m.mtext) s

  unfoldable pub mirror_fun : ℤ → List ℕ → Server → Outcome
  mirror_fun q_id mtext s = running ((mq_send q_id reply (mirror_loop (length mtext) mtext []) s).1)

  unfoldable pub error_send : List ℕ → ℤ → Server → Outcome
  error_send text queue s = running ((mq_send queue error text s).1)

  abbrev pub send_answer : ℤ → Answer → Server → Outcome
  send_answer queue (replied text) s = running ((mq_send queue reply text s).1)
  send_answer queue (refused text) s = error_send text queue s
  send_answer queue crashed s = undefined s

  unfoldable pub calc : ℤ → List ℕ → Server → Outcome
  calc queue text s = send_answer queue (calc_answer text) s

  -- `date` is the line that the program `date` prints, its newline included.
  unfoldable pub time_fun : List ℕ → ℤ → Server → Outcome
  time_fun date queue s =
      let mtext = take (msg_max - 3) date in
      running ((mq_send queue reply (take (length mtext - 1) mtext) s).1)

  -- The `switch` of `main` on a message whose type is not negative.
  abbrev pub dispatch_code : (ℕ → List ℕ → Option ℕ) → List ℕ → ℕ → Message → Server → Outcome
  dispatch_code open_queue date code m s =
      let queue = client_queue s.clients m.client_id in
      if code == introduce_code
      then new_client open_queue m s
      else if code == mirror_code
      then with_queue queue (λ q. mirror_fun q m.mtext s) s
      else if code == calc_code
      then with_queue queue (λ q. calc q m.mtext s) s
      else if code == time_code
      then with_queue queue (λ q. time_fun date q s) s
      else if code == end_code
      then ended s
      else if code == stop_code
      then delete_client m s
      else running s

  -- The `switch` on the type of the message, a signed character.
  abbrev pub dispatch_type : (ℕ → List ℕ → Option ℕ) → List ℕ → ℤ → Message → Server → Outcome
  dispatch_type open_queue date (negsuc k) m s = running s
  dispatch_type open_queue date (pos code) m s = dispatch_code open_queue date code m s

  abbrev pub dispatch : (ℕ → List ℕ → Option ℕ) → List ℕ → Message → Server → Outcome
  dispatch open_queue date m s = dispatch_type open_queue date m.mtype m s
