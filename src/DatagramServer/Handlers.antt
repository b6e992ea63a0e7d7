-- ===== src/DatagramServer/Handlers.antt =====
-- The handlers of Operating-systems/lab10/zad2/server.c against the table, while every `sendto`
-- succeeds.
pub mod Pinging
use agh_ust_projects.Prelude.{
  ℕ, zero, suc, ◌+◌, ◌-◌, ◌≤◌, ◌<◌, ◌≡◌, refl, sym, ap, ◌∙◌, Bool, true, false, Bool-cases, List,
  [], ◌∷◌, ◌++◌, inl, inr, none, some, length, take, set, remove_at, move_down, take-set_add_one,
  take-move_down, length-move_down, length-set, length-take, ◌==◌, if◌then◌else◌, arith, Option,
}
use mathlib.Core.List.{append-nil}
use agh_ust_projects.SocketServer.Protocol.{MessageType, client_max}
use agh_ust_projects.DatagramServer.{
  Family, Address, Message, Client, no_client, Payload, byte, Datagram, Line, logged_out, Server,
  Outcome, running, lock, lock_if, unlock, print, check_name, remove_client, logout_found,
  logout_client, sendto, unless_failed, reply, newcomer, login_found, login_client,
}
use agh_ust_projects.DatagramServer.Table.{
  registered, has, without, register, login_reply, find_name-has,
}

-- Between two handlers.
pub record WellFormed (s : Server) : Type 0 where
  pub slots : length s.clients ≡ client_max
  pub few : s.client_counter ≤ client_max
  pub free : s.locked ≡ false

-- A handler ended, and left this table, and these datagrams and lines behind the earlier ones.
abbrev pub Leaves : Server → Outcome → List Client → List Datagram → List Line → Type 0
Leaves s r cs sent printed =
    (s' : Server) × (r ≡ running s')
    × WellFormed s'
    × (registered s' ≡ cs)
    × (s'.sent ≡ s.sent ++ sent)
    × (s'.printed ≡ s.printed ++ printed)

pub length-registered :
    (s : Server)
    → length s.clients ≡ client_max
    → s.client_counter ≤ client_max
    → length (registered s) ≡ s.client_counter
length-registered s slots few = omega (arith, length-take s.client_counter s.clients, slots, few)

pub lock_lem :
    (next : Server → Outcome) (s : Server)
    → s.locked ≡ false
    → lock next s ≡ next (record s { locked = true })
lock_lem next s f = ap (λ b. lock_if b next s) f

-- Taking out a slot in use.
pub registered-remove_client :
    (i : ℕ) (s : Server)
    → length s.clients ≡ client_max
    → s.client_counter ≤ client_max
    → i < s.client_counter
    → registered (remove_client i s) ≡ remove_at i (registered s)
registered-remove_client i s slots few h =
    take-move_down no_client (s.client_counter - 1 - i) i (s.client_counter - 1) s.clients
      (omega (arith, h)) (omega (arith, h, few, slots))
    ∙ ap (λ k. remove_at i (take k s.clients)) one_less
  where
    one_less : suc (s.client_counter - 1) ≡ s.client_counter
    one_less = omega (arith, h)

-- Between two handlers (eight slots, at most eight clients, the mutex free): a logout takes the client of that name out of the
-- table, keeps the order of the others, says so, and releases the mutex; it does nothing if the name
-- is unknown.
pub logout_client_lem :
    (name : List ℕ) (s : Server)
    → WellFormed s
    → Leaves s
        (logout_client name s)
        (without (registered s) name)
        []
        (if has (registered s) name then logged_out name ∷ [] else [])
unfolding logout_client
logout_client_lem name s v = elim (find_name-has s.client_counter 0 s.clients name) [
  | inl (p, q, w) ↦ (
    record s { locked = false },
    lock_lem _ s v.free ∙ ap (λ o. logout_found o name (record s { locked = true })) p,
    record { slots = v.slots; few = v.few; free = refl },
    sym w,
    sym (append-nil s.sent),
    ground (arith, q, append-nil s.printed),
  )
  | inr (j, p, q, r, l, w) ↦ (
    record (print (logged_out name) (remove_client j s)) { locked = false },
    lock_lem _ s v.free
        ∙ ap (λ o. logout_found o name (record s { locked = true })) (p ∙ ap some (omega arith)),
    record {
      slots = length-move_down no_client (s.client_counter - 1 - j) j s.clients ∙ v.slots;
      few = omega (arith, v.few);
      free = refl;
    },
    registered-remove_client j s v.slots v.few r ∙ w,
    sym (append-nil s.sent),
    ground (arith, q),
  )
]

module _ (os : ℕ → Datagram → Bool) (up : (k : ℕ) (d : Datagram) → os k d ≡ true) where
  abbrev pub did : Datagram → Server → Server
  did d s = record s { calls = s.calls + 1; sent = s.sent ++ d ∷ [] }

  pub unless_failed_lem :
      (socket : Family) (address : Address) (payload : Payload) (next : Server → Outcome)
      (s : Server)
      → unless_failed (sendto os socket address payload s) next
        ≡ next (did (record { socket = socket; address = address; payload = payload }) s)
  unless_failed_lem socket address payload next s =
      rw (up s.calls (record { socket = socket; address = address; payload = payload })) refl

  abbrev answered : Family → Address → MessageType → Server → Server
  answered socket address type s =
      record (did (record { socket = socket; address = address; payload = byte type }) s) {
        locked = false;
      }

  -- Between two handlers (eight slots, at most eight clients, the mutex free) and while every `sendto` succeeds: a login is
  -- answered, through the socket it came from, and the newcomer joins the table behind the others
  -- unless the table is full or has the name; the mutex is released.
  pub login_client_lem :
      (socket : Family) (msg : Message) (address : Address) (s : Server)
      → WellFormed s
      → Leaves s
          (login_client os socket msg address s)
          (register (registered s) msg address)
          (record {
            socket = socket;
            address = address;
            payload = byte (login_reply (registered s) msg);
          }
            ∷ [])
          []
  unfolding login_client
  login_client_lem socket msg address s v = elim (Bool-cases (s.client_counter == client_max)) [
    | inl e ↦ (
      answered socket address MessageType.wrong_size taken,
      lock_lem _ s v.free
          ∙ ap
              (λ b.
                if b
                then reply os socket address MessageType.wrong_size taken
                else login_found os (check_name msg.name taken) socket msg address taken)
              e
          ∙ unless_failed_lem socket address (byte MessageType.wrong_size) unlock taken,
      record { slots = v.slots; few = v.few; free = refl },
      ground (arith, e, len),
      ground (arith, e, len),
      sym (append-nil s.printed),
    )
    | inr e ↦ elim (find_name-has s.client_counter 0 s.clients msg.name) [
      | inl (p, q, w) ↦ (
        answered socket address MessageType.success joined,
        room e
            ∙ ap (λ o. login_found os o socket msg address taken) p
            ∙ unless_failed_lem socket address (byte MessageType.success) unlock joined,
        record {
          slots = length-set s.clients s.client_counter (newcomer msg address) ∙ v.slots;
          few = ground (arith, v.few, e);
          free = refl;
        },
        take-set_add_one s.client_counter s.clients (newcomer msg address)
              (ground (arith, v.few, v.slots, e))
            ∙ ground (arith, e, q, len),
        ground (arith, e, q, len),
        sym (append-nil s.printed),
      )
      | inr (j, p, q, r, l, w) ↦ (
        answered socket address MessageType.wrong_name taken,
        room e
            ∙ ap (λ o. login_found os o socket msg address taken) p
            ∙ unless_failed_lem socket address (byte MessageType.wrong_name) unlock taken,
        record { slots = v.slots; few = v.few; free = refl },
        ground (arith, e, q, len),
        ground (arith, e, q, len),
        sym (append-nil s.printed),
      )
    ]
  ]
    where
      taken : Server
      taken = record s { locked = true }

      joined : Server
      joined = record taken {
        clients = set s.clients s.client_counter (newcomer msg address);
        client_counter = s.client_counter + 1;
      }

      len : length (registered s) ≡ s.client_counter
      len = length-registered s v.slots v.few

      room :
          (s.client_counter == client_max) ≡ false
          → login_client os socket msg address s
            ≡ login_found os (check_name msg.name taken) socket msg address taken
      room e =
          lock_lem _ s v.free
          ∙ ap
              (λ b.
                if b
                then reply os socket address MessageType.wrong_size taken
                else login_found os (check_name msg.name taken) socket msg address taken)
              e
