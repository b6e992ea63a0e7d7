-- ===== src/DatagramServer/Table.antt =====
-- The client table of Operating-systems/lab10/zad2/server.c as the list of the clients in its first
-- slots.
use agh_ust_projects.Prelude.{
  ℕ, zero, suc, ◌+◌, ◌<◌, ◌≡◌, refl, Bool, true, false, Bool-cases, List, [], ◌∷◌, ◌++◌, ◌⊎◌, inl,
  inr, none, some, take, remove_at, length, ◌==◌, if◌then◌else◌, arith,
}
use agh_ust_projects.CLibrary.{str_eq}
use agh_ust_projects.SocketServer.Protocol.{MessageType, client_max}
use agh_ust_projects.SocketServer.Server.{u8_inc}
use agh_ust_projects.DatagramServer.{
  Address, Message, Client, Datagram, Line, byte, inactive, Server, socket_of, newcomer, find_name,
}

-- The clients that the server knows.
abbrev pub registered : Server → List Client
registered s = take s.client_counter s.clients

unfoldable pub has : List Client → List ℕ → Bool
has [] name = false
has (c ∷ cs) name = if str_eq c.name name then true else has cs name

-- The first client of the name leaves.
unfoldable pub without : List Client → List ℕ → List Client
without [] name = []
without (c ∷ cs) name = if str_eq c.name name then cs else c ∷ without cs name

-- A client joins behind the others unless the table is full or has the name.
abbrev pub register : List Client → Message → Address → List Client
register cs msg address =
    if length cs == client_max
    then cs
    else if has cs msg.name
    then cs
    else cs ++ newcomer msg address ∷ []

abbrev pub login_reply : List Client → Message → MessageType
login_reply cs msg =
    if length cs == client_max
    then MessageType.wrong_size
    else if has cs msg.name
    then MessageType.wrong_name
    else MessageType.success

abbrev pub counted : Client → Client
counted c = record c { is_inactive = u8_inc c.is_inactive }

-- Who has answered the last ping stays, with one ping counted.
unfoldable pub sweep : List Client → List Client
sweep [] = []
sweep (c ∷ cs) = if c.is_inactive == 0 then counted c ∷ sweep cs else sweep cs

abbrev pub ping_of : Client → Datagram
ping_of c = record {
  socket = socket_of c.connect_type;
  address = c.sockaddr;
  payload = byte MessageType.ping;
}

unfoldable pub sweep_sent : List Client → List Datagram
sweep_sent [] = []
sweep_sent (c ∷ cs) = if c.is_inactive == 0 then ping_of c ∷ sweep_sent cs else sweep_sent cs

unfoldable pub sweep_printed : List Client → List Line
sweep_printed [] = []
sweep_printed (c ∷ cs) =
    if c.is_inactive == 0 then sweep_printed cs else inactive c.name ∷ sweep_printed cs

module _ (c : Client) (cs : List Client) where
  pub sweep_active :
      (c.is_inactive == 0) ≡ true
      → (sweep (c ∷ cs) ≡ counted c ∷ sweep cs)
        × (sweep_sent (c ∷ cs) ≡ ping_of c ∷ sweep_sent cs)
        × (sweep_printed (c ∷ cs) ≡ sweep_printed cs)
  unfolding sweep sweep_sent sweep_printed
  sweep_active e = (ground (arith, e), ground (arith, e), ground (arith, e))

  pub sweep_inactive :
      (c.is_inactive == 0) ≡ false
      → (sweep (c ∷ cs) ≡ sweep cs)
        × (sweep_sent (c ∷ cs) ≡ sweep_sent cs)
        × (sweep_printed (c ∷ cs) ≡ inactive c.name ∷ sweep_printed cs)
  unfolding sweep sweep_sent sweep_printed
  sweep_inactive e = (ground (arith, e), ground (arith, e), ground (arith, e))

-- What the search finds.
pub find_name-has :
    (k i : ℕ) (slots : List Client) (name : List ℕ)
    → ((find_name k i slots name ≡ none)
        × (has (take k slots) name ≡ false)
        × (without (take k slots) name ≡ take k slots))
      ⊎ ((j : ℕ) × (find_name k i slots name ≡ some (i + j))
          × (has (take k slots) name ≡ true)
          × (j < k)
          × (j < length slots)
          × (remove_at j (take k slots) ≡ without (take k slots) name))
unfolding find_name has without
find_name-has zero i slots name = inl (refl, refl, refl)
find_name-has (suc k) i [] name = inl (refl, refl, refl)
find_name-has (suc k) i (c ∷ cs) name = elim (Bool-cases (str_eq c.name name)) [
  | inl e ↦
      inr (0, ground (arith, e), ground (arith, e), omega arith, omega arith, ground (arith, e))
  | inr e ↦ elim (find_name-has k (i + 1) cs name) [
    | inl (p, q, w) ↦ inl (ground (arith, e, p), ground (arith, e, q), ground (arith, e, w))
    | inr (j, p, q, r, l, w) ↦ inr (
      suc j,
      ground (arith, e, p),
      ground (arith, e, q),
      omega (arith, r),
      omega (arith, l),
      ground (arith, e, w),
    )
  ]
]
