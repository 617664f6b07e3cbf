-- ===== src/FileUdp/Datagram.antt =====
-- The constants and the packet of protocol/file_udp.cpp, and the memory that it copies and writes.
pub mod Chunks
use tcp_labs.Base.{
  ℕ, zero, suc, ◌+◌, ◌-◌, ◌*◌, ◌/◌, ◌%◌, ◌^◌, List, [], ◌++◌, Option, none, some, leb,
  if◌then◌else◌, add64, sub64, take,
}

-- MTU, UDP_MAX_SIZE, SINGLE_LENGTH, SLOTS, SOFT_WIND, HARD_WIND
abbrev pub mtu : ℕ
mtu = 1500

abbrev pub udp_max_size : ℕ
udp_max_size = mtu - 8 - 20

abbrev pub single_length : ℕ
single_length = udp_max_size - 4 * 2

abbrev pub slots : ℕ
slots = 2 * 1024

abbrev pub soft_wind : ℕ
soft_wind = 15

abbrev pub hard_wind : ℕ
hard_wind = 20

-- struct Datagram. `payload` is its field `data`, of SINGLE_LENGTH bytes.
pub record Datagram : Type 0 where
  pub seq_index : ℕ
  pub wind : ℕ
  pub flags : ℕ
  pub payload : List ℕ

-- `max_seq_index`: the number of packets of a file of `length` bytes, in `size_t`.
unfoldable pub packet_count : ℕ → ℕ
packet_count length = add64 (sub64 length 1 / single_length) 1

-- `SINGLE_LENGTH * n`, in `size_t`.
abbrev pub byte_offset : ℕ → ℕ
byte_offset n = (single_length * n) % 2 ^ 64

-- `count` cells from the cell `first` on, as they stand in memory.
unfoldable pub chunks : (ℕ → List ℕ) → ℕ → ℕ → List ℕ
chunks cells first zero = []
chunks cells first (suc count) = cells first ++ chunks cells (suc first) count

-- What fwrite() reads: `n` bytes from the start of cell `first` of an array of `total` cells;
-- `none` is a read past its end.
unfoldable pub read_cells : ℕ → (ℕ → List ℕ) → ℕ → ℕ → Option (List ℕ)
read_cells total cells first n =
    if leb n (single_length * (total - first))
    then some (take n (chunks cells first (total - first)))
    else none
