-- ===== src/PosixQueue/Examples.antt =====
-- The theorems on Operating-systems/lab6/zad2/server.c at concrete tables.
use agh_ust_projects.Prelude.{ℕ, ◌+◌, refl, Bool, true, List, [], ◌∷◌, Option, some, replicate}
use mathlib.Core.List.{Perm}
use mathlib.Core.List.Perm
use agh_ust_projects.Prelude.Int.{pos}
use agh_ust_projects.MessageQueue.{free, initial_clients}
use agh_ust_projects.PosixQueue.{Message, Server, remove_q_at_exit}
use agh_ust_projects.PosixQueue.Descriptors.{kept, Accounted}
use agh_ust_projects.PosixQueue.Shutdown.{start, next, remove_q_at_exit-Serves}

abbrev always : ℕ → Bool
always k = true

-- Every queue opens as descriptor 4.
abbrev open_queue : ℕ → List ℕ → Option ℕ
open_queue k queue = some (k + 4)

abbrev empty : Server
empty = record { clients = initial_clients; calls = 0; sent = []; opened = []; closed = [] }

-- Descriptor 3 is in the first slot.
abbrev busy : Server
busy = record empty { clients = pos 3 ∷ replicate 9 free; opened = pos 3 ∷ [] }

busy-Accounted : Accounted busy
unfolding kept
busy-Accounted = Perm.refl (pos 3 ∷ [])

abbrev bye : Message
bye = record { mtype = pos 5; client_id = pos 0; mtext = [] }

abbrev left : Server
left = record busy { clients = replicate 10 free; closed = pos 3 ∷ [] }

remove_q_at_exit-Serves_example : Perm left.opened ((remove_q_at_exit left.clients left).closed)
remove_q_at_exit-Serves_example =
    remove_q_at_exit-Serves always open_queue [] busy left busy-Accounted
      (next bye start refl (λ e. (3, refl)) refl)
