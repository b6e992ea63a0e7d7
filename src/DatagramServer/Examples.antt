-- ===== src/DatagramServer/Examples.antt =====
-- The theorems on Operating-systems/lab10/zad2 at a server with one client.
use agh_ust_projects.Prelude.{ℕ, ◌+◌, ◌≡◌, refl, Bool, true, false, [], ◌∷◌, some, arith, replicate}
use agh_ust_projects.CLibrary.{str_eq}
use agh_ust_projects.SocketServer.Protocol.{MessageType}
use agh_ust_projects.DatagramServer.{
  Family, Address, Message, Client, no_client, Datagram, byte, Server, running, message, dispatch,
  find_name, login_client, ping_round,
}
use agh_ust_projects.DatagramServer.Table.{
  registered, register, login_reply, sweep, sweep_sent, sweep_printed,
}
use agh_ust_projects.DatagramServer.Handlers.{WellFormed, Leaves, login_client_lem}
use agh_ust_projects.DatagramServer.Handlers.Pinging.{ping_round_lem}
use agh_ust_projects.DatagramServer.Families.{Sound}
use agh_ust_projects.DatagramServer.Sessions.{start, step, arrives, Reaches-Sound}

abbrev always : ℕ → Datagram → Bool
always k d = true

abbrev home : Address
home = record { family = Family.web; data_bytes = 127 ∷ 0 ∷ 0 ∷ 1 ∷ [] }

abbrev ann : Client
ann = record { sockaddr = home; connect_type = 1; name = b'A' ∷ []; is_inactive = 0 }

abbrev one_client : Server
one_client = record {
  clients = ann ∷ replicate 7 no_client;
  client_counter = 1;
  operation_counter = 0;
  locked = false;
  calls = 0;
  sent = [];
  printed = [];
}

abbrev bob : Message
bob = record { msg_type = 0; name = b'B' ∷ []; connect_type = 1; op = 0; val = 0; wrong_flag = 0 }

one_client-WellFormed : WellFormed one_client
one_client-WellFormed = record { slots = refl; few = omega arith; free = refl }

login_client_lem_example :
    Leaves one_client
      (login_client always Family.web bob home one_client)
      (register (registered one_client) bob home)
      (record {
        socket = Family.web;
        address = home;
        payload = byte (login_reply (registered one_client) bob);
      }
        ∷ [])
      []
login_client_lem_example =
    login_client_lem always (λ k d. refl) Family.web bob home one_client one_client-WellFormed

ping_round_lem_example :
    Leaves one_client
      (ping_round always one_client)
      (sweep (registered one_client))
      (sweep_sent (registered one_client))
      (sweep_printed (registered one_client))
ping_round_lem_example = ping_round_lem always (λ k d. refl) one_client one_client-WellFormed

abbrev joined : Server
joined = record one_client {
  clients = ann ∷ record ann { name = b'B' ∷ [] } ∷ replicate 6 no_client;
  client_counter = 2;
  calls = 0 + 1;
  sent = record { socket = Family.web; address = home; payload = byte MessageType.success } ∷ [];
}

login-joined : message always Family.web (some bob) home one_client ≡ running joined
unfolding dispatch login_client find_name str_eq
login-joined = refl

Reaches-Sound_example : Sound joined
Reaches-Sound_example =
    Reaches-Sound always one_client joined
      ((refl, (refl, (refl, (refl, (refl, (refl, (refl, (refl, tt)))))))), tt)
      (step (arrives Family.web (some bob) home) start (refl, refl) login-joined)
