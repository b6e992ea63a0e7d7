-- ===== src/PosixQueue/Newcomers.antt =====
-- Newcomers at the server of Operating-systems/lab6/zad2/server.c that cannot be registered.
use agh_ust_projects.Prelude.{
  ℕ, ◌+◌, ◌≡◌, refl, ap, ◌∙◌, Bool, false, List, [], ◌∷◌, ◌++◌, Option, some, length, set, arith,
}
use agh_ust_projects.Prelude.Int.{pos}
use agh_ust_projects.MessageQueue.{free}
use agh_ust_projects.MessageQueue.Table.{
  FirstFree, NoneFree, find_free-first, find_free-none, set-set_free,
}
use agh_ust_projects.PosixQueue.{
  Message, Server, running, undefined, new_client, register_at, register_opened,
}

module _ (os : ℕ → Bool) where
  -- If the reply to a newcomer cannot be sent while a slot is free, the table stays as it was, and the
  -- queue that was opened for the newcomer stays open.
  pub new_client_leaks :
      (open_queue : ℕ → List ℕ → Option ℕ) (m : Message) (s : Server) (i d : ℕ)
      → os s.calls ≡ false
      → open_queue (length s.opened) m.mtext ≡ some d
      → FirstFree s.clients i
      → (t : Server) × (new_client os open_queue m s ≡ running t)
        × (t.clients ≡ s.clients)
        × (t.opened ≡ s.opened ++ pos d ∷ [])
        × (t.closed ≡ s.closed)
  unfolding new_client
  new_client_leaks open_queue m s i d u o f =
      let entered : Server = record s {
        clients = set s.clients i (pos d);
        opened = s.opened ++ pos d ∷ [];
        calls = s.calls + 1;
      } in
      (
        record entered { clients = set entered.clients i free },
        ap (λ r. register_opened os r s) o
            ∙ ap (λ r. register_at os r (pos d) (record s { opened = s.opened ++ pos d ∷ [] }))
                (find_free-first s.clients i f)
            ∙ ground (arith, u),
        set-set_free s.clients i (pos d) f,
        refl,
        refl,
      )

  -- A newcomer that finds the table full makes the server read behind the table.
  pub new_client_full :
      (open_queue : ℕ → List ℕ → Option ℕ) (m : Message) (s : Server) (d : ℕ)
      → open_queue (length s.opened) m.mtext ≡ some d
      → NoneFree s.clients
      → (t : Server) × (new_client os open_queue m s ≡ undefined t)
  unfolding new_client
  new_client_full open_queue m s d o n =
      let opened : Server = record s { opened = s.opened ++ pos d ∷ [] } in
      (
        opened,
        ap (λ r. register_opened os r s) o
            ∙ ap (λ r. register_at os r (pos d) opened) (find_free-none s.clients n),
      )
