-- ===== src/PosixQueue/Client.antt =====
-- Operating-systems/lab6/zad2/client.c: the messages that a client sends. Its `parse_command` and its
-- switch on the reply to the introduction are those of lab6/zad1/client.c.
use agh_ust_projects.Prelude.{ℕ, List, [], ◌∷◌, ◌++◌, Option, none, some, length}
use agh_ust_projects.Prelude.Int.{ℤ, pos, negsuc}
use agh_ust_projects.CLibrary.{print_ℕ, print_ℤ}
use agh_ust_projects.MessageQueue.{stop_code, introduce_code}
use agh_ust_projects.MessageQueue.Client as Shared
use agh_ust_projects.MessageQueue.Client.{chomp, text_of}
use agh_ust_projects.PosixQueue.{Message}

-- `sprintf(queue_name, "/%iq", getpid())`
abbrev pub queue_name : ℕ → List ℕ
queue_name pid = b'/' ∷ print_ℕ pid ++ b'q' ∷ []

-- The message of `connect`.
unfoldable pub introduction : ℕ → Message
introduction pid = record {
  mtype = pos introduce_code;
  client_id = negsuc 0;
  mtext = queue_name pid;
}

abbrev pub accepted_id : ℕ → List ℕ → Option ℤ
accepted_id mtype mtext = Shared.accepted_id mtype mtext

abbrev pub parse_command : List ℕ → ℕ → Option ℕ × ℕ
parse_command line len = Shared.parse_command line len

abbrev pub request_with : Option ℕ × ℕ → List ℕ → ℤ → Option Message
request_with (none, position) line client_id = none
request_with (some code, position) line client_id =
    some (record { mtype = pos code; client_id = client_id; mtext = text_of code position line })

-- The message of one round of the loop of `main`; `none` where the command is not recognised.
unfoldable pub request : ℤ → List ℕ → Option Message
request client_id buf = request_with (parse_command (chomp buf) (length buf)) (chomp buf) client_id

-- The message of `removeQAtExit`, of a client that was given a number.
unfoldable pub farewell : ℤ → Option Message
farewell (negsuc k) = none
farewell (pos id) =
    some (record { mtype = pos stop_code; client_id = pos id; mtext = print_ℤ (pos id) })
