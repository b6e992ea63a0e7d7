-- ===== src/PosixQueue/Shutdown.antt =====
-- The server of Operating-systems/lab6/zad2/server.c from its start to its exit.
use agh_ust_projects.Prelude.{ℕ, ◌≡◌, Bool, true, List, Option}
use mathlib.Core.Path.{subst}
use mathlib.Core.List.{Perm}
use agh_ust_projects.PosixQueue.{Message, Server, running, dispatch, remove_q_at_exit}
use agh_ust_projects.PosixQueue.Descriptors.{Accounted, remove_q_at_exit-perm}
use agh_ust_projects.PosixQueue.Serving.{OnRunning, LeavesOnce, dispatch-Accounted}

-- The servers that a sequence of messages leads to while the server goes on: no reply is lost, no client
-- leaves twice, and no message ends the server or is undefined, as that of a newcomer is when the table
-- is full.
pub data Serves (os : ℕ → Bool) (open_queue : ℕ → List ℕ → Option ℕ) (date : List ℕ) (s : Server)
    : Server → Type 0 where
  start : Serves os open_queue date s s
  next :
      {t u : Server} (m : Message)
      → Serves os open_queue date s t
      → os t.calls ≡ true
      → LeavesOnce m t
      → dispatch os open_queue date m t ≡ running u
      → Serves os open_queue date s u

module _ (os : ℕ → Bool) (open_queue : ℕ → List ℕ → Option ℕ) (date : List ℕ) where
  Serves-Accounted : (s t : Server) → Accounted s → Serves os open_queue date s t → Accounted t
  Serves-Accounted s t a start = a
  Serves-Accounted s t a (next {t = u} m r h l e) =
      subst (OnRunning Accounted) e
        (dispatch-Accounted os open_queue date m u h l (Serves-Accounted s u a r))

  -- If every descriptor opened so far is in the table or was closed: take any sequence of messages on
  -- which the server goes on, that is, no newcomer finds the table full or a queue that cannot be opened,
  -- `calc` does not crash, and no message has a number outside the table; where also no reply is lost
  -- and a client leaves only while it is registered. Behind it the exit closes what is left in the
  -- table, and then each descriptor has been closed as often as `mq_open` gave it.
  pub remove_q_at_exit-Serves :
      (s t : Server)
      → Accounted s
      → Serves os open_queue date s t
      → Perm t.opened ((remove_q_at_exit t.clients t).closed)
  remove_q_at_exit-Serves s t a r = remove_q_at_exit-perm t (Serves-Accounted s t a r)
