-- ===== src/Server/Environment.antt =====
-- What the server uses and does not implement: the database, the cipher, the sockets and the memory
-- behind a string.
use tcp_labs.Base.{ℕ, ◌⊎◌, List, [], ◌∷◌, ◌++◌, Option, replicate, take, ◌==◌, if◌then◌else◌}
use tcp_labs.Protocol.Bytes.{Bytes}

-- A row of the table `accounts` and one of `message`, by the columns that are read.
pub record Account : Type 0 where
  pub password : Bytes
  pub salt : Bytes
  pub nickname : Bytes

pub record Mail : Type 0 where
  pub sender : Bytes
  pub receiver : Bytes
  pub timestamp : ℕ
  pub messagesize : ℕ
  pub message : Bytes

-- `insert_account` gives what() of the exception, or the new database; the other statements do not
-- fail. `behind n s` are the `n` bytes of memory behind the terminator of the string `s`.
pub record Environment : Type 1 where
  pub Db : Type 0
  pub insert_account : Db → Bytes → Bytes → Bytes → Bytes ⊎ Db
  pub find_account : Db → Bytes → Option Account
  pub set_password : Db → Bytes → Bytes → Bytes → Db
  pub insert_mail : Db → Bytes → Bytes → ℕ → ℕ → Bytes → Db
  pub select_mail : Db → Bytes → List Mail
  pub delete_mail : Db → Bytes → Db
  pub encrypt : Bytes → Bytes
  pub decrypt : Bytes → Bytes
  pub peer_ip : ℕ → ℕ
  pub behind : ℕ → Bytes → Bytes

-- A `char` array as a string: up to its terminator. An array without one is taken whole.
unfoldable pub c_str : Bytes → Bytes
c_str [] = []
c_str (b ∷ bytes) = if b == 0 then [] else b ∷ c_str bytes

-- A literal in an array of `n` bytes, with zeros behind it; strncpy() fills an array so too.
unfoldable pub literal : ℕ → Bytes → Bytes
literal n s = take n (s ++ replicate n 0)

-- COPY() of include/common.h from a string: `n` bytes from its first one on.
unfoldable pub copy : Environment → ℕ → Bytes → Bytes
copy env n s = take n (s ++ 0 ∷ env.behind n s)
