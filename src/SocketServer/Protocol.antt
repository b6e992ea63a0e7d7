-- ===== src/SocketServer/Protocol.antt =====
-- clientUtil.h and the messages of Operating-systems/lab10/zad1: types, sizes and byte layout.
-- `uint16_t` and `int` are little-endian, as on the x86 machines that share the sockets.
use agh_ust_projects.Prelude.{
  ℕ, ◌+◌, ◌*◌, ◌/◌, ◌%◌, List, [], ◌∷◌, Option, none, some, if◌then◌else◌, leb, length, take, drop,
}

abbrev pub client_max : ℕ
client_max = 8

abbrev pub unix_path_max : ℕ
unix_path_max = 108

-- `message_type`
pub data MessageType : Type 0 where
  login logout success wrong_size wrong_name request result ping pong : MessageType

abbrev pub code : MessageType → ℕ
code login = 0
code logout = 1
code success = 2
code wrong_size = 3
code wrong_name = 4
code request = 5
code result = 6
code ping = 7
code pong = 8

-- `Client`: a C string is the list of its bytes before the terminating 0.
pub record Client : Type 0 where
  pub fd : ℕ
  pub name : List ℕ
  pub is_inactive : ℕ

-- `result_t`; a double is its bit pattern.
pub record Result : Type 0 where
  pub wrong_flag : ℕ
  pub operation : ℕ
  pub value : ℕ

-- `operation_t`
pub record Operation : Type 0 where
  pub operation : ℕ
  pub operand : ℕ
  pub arg1 : ℕ
  pub arg2 : ℕ

abbrev pub u16_bytes : ℕ → List ℕ
u16_bytes n = n % 256 ∷ n / 256 % 256 ∷ []

abbrev pub u16_value : ℕ → ℕ → ℕ
u16_value lo hi = lo + 256 * hi

-- `read(socket, buffer, n)` where fewer than `n` bytes stand in the stream returns less than `n`.
unfoldable pub read : ℕ → List ℕ → Option (List ℕ × List ℕ)
read n bytes = if leb n (length bytes) then some (take n bytes, drop n bytes) else none
