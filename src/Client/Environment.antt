-- ===== src/Client/Environment.antt =====
-- What the client takes from its system, and strings in its arrays.
use tcp_labs.Base.{ℕ, ◌<◌, ◌∷◌, ◌++◌, length, take}
use tcp_labs.Protocol.Bytes.{Bytes}

-- `memory n` is what an array of `n` bytes holds that nothing has set, `behind n s` what stands behind
-- the terminator of the string `s`.
pub record Environment : Type 0 where
  pub peer_ip : ℕ → ℕ
  pub self_port : ℕ
  pub now : ℕ
  pub unset : ℕ
  pub length_of_file : Bytes → ℕ
  pub receive_port : Bytes → ℕ → ℕ
  pub memory : ℕ → Bytes
  pub behind : ℕ → Bytes → Bytes

-- COPY() of include/common.h from a string.
unfoldable pub copy_string : Environment → ℕ → Bytes → Bytes
copy_string env n s = take n (s ++ 0 ∷ env.behind n s)

-- A word of the input that is shorter than the array of `n` bytes that it is read into. What `cin >>`
-- does with a longer one, which it writes behind the array, has no meaning in the language.
pub record Word (n : ℕ) : Type 0 where
  pub letters : Bytes
  pub shorter : length letters < n

-- The array with the word, its terminator, and what was behind.
unfoldable pub read_word : Environment → (n : ℕ) → Word n → Bytes
read_word env n w = take n (w.letters ++ 0 ∷ env.memory n)
