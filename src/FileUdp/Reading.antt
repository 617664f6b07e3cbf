-- ===== src/FileUdp/Reading.antt =====
-- fread() of protocol/file_udp.cpp into the array of cells behind a window.
use tcp_labs.Base.{
  ℕ, ◌-◌, ◌*◌, List, ◌++◌, Option, none, some, leb, if◌then◌else◌, length, take, drop,
}
use tcp_labs.FileUdp.Datagram.{single_length, slots}
use tcp_labs.FileUdp.Receiver.{cells}

-- Bytes written over the beginning of others.
abbrev pub overlay : List ℕ → List ℕ → List ℕ
overlay new old = new ++ drop (length new) old

-- An array of cells with `bytes` written from the start of the cell `first` on.
unfoldable pub write_cells : (ℕ → List ℕ) → ℕ → List ℕ → ℕ → List ℕ
write_cells held first bytes cell =
    if leb first cell
    then overlay (take single_length (drop (single_length * (cell - first)) bytes)) (held cell)
    else held cell

-- fread() of at most `n` bytes into the cells from `first` on: the cells, the bytes that are left and
-- the number returned; `none` is a write past the end of the array.
unfoldable pub fread : (ℕ → List ℕ) → ℕ → ℕ → List ℕ → Option ((ℕ → List ℕ) × List ℕ × ℕ)
fread held first n unread =
    if leb n (single_length * (cells - first))
    then some (write_cells held first (take n unread), drop n unread, length (take n unread))
    else none

-- The size of the window in bytes: what the first read has to give.
abbrev pub window_bytes : ℕ
window_bytes = 2 * slots * single_length
