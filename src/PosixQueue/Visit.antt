-- ===== src/PosixQueue/Visit.antt =====
-- A client of Operating-systems/lab6/zad2 that registers and leaves.
use agh_ust_projects.Prelude.{
  ℕ, ◌+◌, ◌<◌, ◌≡◌, refl, ap, ◌∙◌, Bool, true, false, List, [], ◌∷◌, ◌++◌, Option, some, length,
  set, get_elem?, get_elem?-set_self, ltb, if◌then◌else◌, arith,
}
use agh_ust_projects.Prelude.Int.{pos}
use agh_ust_projects.CLibrary.{print_ℕ}
use agh_ust_projects.CLibrary.Numerals.{atoi-print_ℕ}
use agh_ust_projects.MessageQueue.{free, max_clients, reply}
use agh_ust_projects.MessageQueue.Table.{FirstFree, FirstFree-lt, find_free-first, set-set_free}
use agh_ust_projects.MessageQueue.Client as Shared
use agh_ust_projects.MessageQueue.Client.{unless_negative}
use agh_ust_projects.PosixQueue.{
  Message, Server, running, register_opened, new_client, register_at, delete_entry, dispatch,
}
use agh_ust_projects.PosixQueue.Client.{introduction, accepted_id, farewell, queue_name}

module _ (os : ℕ → Bool) (up : (k : ℕ) → os k ≡ true) (date : List ℕ) where
  -- If no message is lost, the client's queue opens as `d`, and slot `i` is the first free one of the
  -- ten: the client is told `i` through its queue, and when it leaves, the table is as before and its
  -- queue has been opened and closed once.
  pub visit :
      (open_queue : ℕ → List ℕ → Option ℕ) (s : Server) (pid i d : ℕ)
      → length s.clients ≡ max_clients
      → FirstFree s.clients i
      → open_queue (length s.opened) (queue_name pid) ≡ some d
      → (s1 : Server) × (s2 : Server) × (bye : Message) × (dispatch os open_queue date
            (introduction pid)
            s
          ≡ running s1)
        × (s1.sent ≡ s.sent ++ record { queue = pos d; mtype = reply; mtext = print_ℕ i } ∷ [])
        × (accepted_id reply (print_ℕ i) ≡ some (pos i))
        × (farewell (pos i) ≡ some bye)
        × (dispatch os open_queue date bye s1 ≡ running s2)
        × (s2.clients ≡ s.clients)
        × (s2.opened ≡ s.opened ++ pos d ∷ [])
        × (s2.closed ≡ s.closed ++ pos d ∷ [])
  unfolding new_client introduction farewell Shared.accepted_id
  visit open_queue s pid i d l f o = (
    s1,
    s2,
    _,
    ap (λ r. register_opened os r s) o
        ∙ ap (λ r. register_at os r (pos d) (record s { opened = s.opened ++ pos d ∷ [] }))
            (find_free-first s.clients i f)
        ∙ ground (arith, up s.calls),
    refl,
    ap unless_negative (atoi-print_ℕ i),
    refl,
    ap (λ b. if b then running s1 else delete_entry (get_elem? s1.clients i) i s1) few
        ∙ ap (λ q. delete_entry q i s1) (get_elem?-set_self s.clients i (pos d) inside),
    set-set_free s.clients i (pos d) f,
    refl,
    refl,
  )
    where
      inside : i < length s.clients
      inside = FirstFree-lt s.clients i f

      few : ltb max_clients i ≡ false
      few = ground (arith, inside, l)

      s1 : Server
      s1 = record s {
        clients = set s.clients i (pos d);
        opened = s.opened ++ pos d ∷ [];
        calls = s.calls + 1;
        sent = s.sent ++ record { queue = pos d; mtype = reply; mtext = print_ℕ i } ∷ [];
      }

      s2 : Server
      s2 = record s1 { clients = set s1.clients i free; closed = s.closed ++ pos d ∷ [] }
