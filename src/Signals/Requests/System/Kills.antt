-- ===== src/Signals/Requests/System/Kills.antt =====
-- How handler_INT of Operating-systems/lab4/zad2/main.c goes through the table of children, while other
-- signals are handled in between.
use agh_ust_projects.Signals.Requests.Frame.{frame}
use agh_ust_projects.Signals.Requests.System.{System}
use agh_ust_projects.Signals.Requests.System.Table.{Small, Fresh, TableAt}

record Kept (s : System) : Type 0 where
  table : TableAt (frame s.parent) s.interrupt
  status : Small s.chld
  fresh : Fresh s.round
