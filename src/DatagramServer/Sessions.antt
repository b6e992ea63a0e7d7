-- ===== src/DatagramServer/Sessions.antt =====
-- The server of Operating-systems/lab10/zad2/server.c through any sequence of events.
use agh_ust_projects.Prelude.{ℕ, ◌≡◌, Bool, Option}
use mathlib.Core.Path.{subst}
use agh_ust_projects.DatagramServer.{
  Family, Address, Message, Datagram, Server, Outcome, running, message, ping_round, terminal_round,
}
use agh_ust_projects.DatagramServer.Families.{
  Sound, OnRunning, Honest, message-Sound, ping_round-Sound, terminal_round-Sound,
}

-- What can happen to the server: a datagram, a round of pings, or an order from the terminal.
pub data Event : Type 0 where
  arrives : Family → Option Message → Address → Event
  pings : Event
  orders : Option (ℕ × ℕ × ℕ) → ℕ → Event

abbrev pub handle : (ℕ → Datagram → Bool) → Event → Server → Outcome
handle os (arrives socket msg address) s = message os socket msg address s
handle os pings s = ping_round os s
handle os (orders input dice) s = terminal_round os input dice s

abbrev pub HonestEvent : Event → Type 0
HonestEvent (arrives socket msg address) = Honest socket msg address
HonestEvent pings = Unit {0}
HonestEvent (orders input dice) = Unit {0}

-- The servers that a sequence of events leads to.
pub data Reaches (os : ℕ → Datagram → Bool) (s : Server) : Server → Type 0 where
  start : Reaches os s s
  step :
      {t u : Server} (e : Event)
      → Reaches os s t
      → HonestEvent e
      → handle os e t ≡ running u
      → Reaches os s u

handle-Sound :
    (os : ℕ → Datagram → Bool) (e : Event) (s : Server)
    → HonestEvent e
    → Sound s
    → OnRunning Sound (handle os e s)
handle-Sound os (arrives socket msg address) s h a = message-Sound os socket msg address s h a
handle-Sound os pings s h a = ping_round-Sound os s a
handle-Sound os (orders input dice) s h a = terminal_round-Sound os input dice s a

-- However many datagrams, rounds of pings and orders follow on each other, and whichever `sendto`
-- succeed: if every datagram names the kind of connection on which it arrives, and if at the start the
-- table and the datagrams sent so far are of this kind too, then every datagram that the server has
-- sent has gone through the socket for addresses of its kind.
pub Reaches-Sound : (os : ℕ → Datagram → Bool) (s t : Server) → Sound s → Reaches os s t → Sound t
Reaches-Sound os s t a start = a
Reaches-Sound os s t a (step {t = u} e r h i) =
    subst (OnRunning Sound) i (handle-Sound os e u h (Reaches-Sound os s u a r))
