-- ===== src/Socket.antt =====
-- TCP::read(), TCP::readn() and TCP::writen() of include/dog_socket.h, over the results of their system calls.
pub mod Exact
pub mod Epoll
pub mod System
pub mod Address
pub mod Kernel
mod Tests
use tcp_labs.Base.{
  ℕ, ◌+◌, ◌-◌, List, [], ◌∷◌, ◌++◌, Option, none, some, ◌==◌, if◌then◌else◌, length, take, drop,
}

-- What ::read() gives: the bytes that it put into the buffer (none at the end of the stream), or -1.
pub data ReadCall : Type 0 where
  filled : List ℕ → ReadCall
  read_failed : ReadCall

-- `read_done` has the bytes in the buffer and the calls that are left, `read_exit` is exit(-1), and
-- `read_blocked` waits for a call that has not returned.
pub data ReadOutcome : Type 0 where
  read_done : List ℕ → List ReadCall → ReadOutcome
  read_exit : ReadOutcome
  read_blocked : ReadOutcome

-- TCP::read(): what it puts into the buffer, whose length it returns; `none` is exit(-1).
unfoldable pub read : ReadCall → Option (List ℕ)
read read_failed = none
read (filled bytes) = some bytes

-- The loop of readn(), with `n` bytes to go and `buf` read. The value returned is the length of the
-- bytes read.
unfoldable pub readn_loop : List ℕ → ℕ → List ReadCall → ReadOutcome
readn_loop buf n [] = if n == 0 then read_done buf [] else read_blocked
readn_loop buf n (read_failed ∷ calls) =
    if n == 0 then read_done buf (read_failed ∷ calls) else read_exit
readn_loop buf n (filled bytes ∷ calls) =
    let next = readn_loop (buf ++ bytes) (n - length bytes) calls in
    if n == 0
    then read_done buf (filled bytes ∷ calls)
    else if length bytes == 0
    then read_done buf calls
    else next

unfoldable pub readn : ℕ → List ReadCall → ReadOutcome
unfolding readn_loop
readn n calls = readn_loop [] n calls

-- What ::write() gives: the number of bytes that it took, or -1.
pub data WriteCall : Type 0 where
  took : ℕ → WriteCall
  write_failed : WriteCall

-- `write_done` has the bytes that the calls took, in order.
pub data WriteOutcome : Type 0 where
  write_done : List ℕ → WriteOutcome
  write_exit : WriteOutcome
  write_blocked : WriteOutcome

-- The loop of writen(), with `buf` to go and `out` taken.
unfoldable pub writen_loop : List ℕ → List ℕ → List WriteCall → WriteOutcome
writen_loop out buf [] = if length buf == 0 then write_done out else write_blocked
writen_loop out buf (write_failed ∷ calls) = if length buf == 0 then write_done out else write_exit
writen_loop out buf (took k ∷ calls) =
    let next = writen_loop (out ++ take k buf) (drop k buf) calls in
    if length buf == 0 then write_done out else if k == 0 then write_done out else next

unfoldable pub writen : List ℕ → List WriteCall → WriteOutcome
unfolding writen_loop
writen buf calls = writen_loop [] buf calls
