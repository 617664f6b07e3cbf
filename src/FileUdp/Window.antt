-- ===== src/FileUdp/Window.antt =====
-- template class Window of protocol/file_udp.cpp: a sliding window over an array of
-- `max_interval` cells, where number `i` stands in cell `i % max_interval`.
pub mod Laws
mod Tests
use tcp_labs.Base.{
  ℕ, ◌-◌, ◌/◌, ◌%◌, ◌≡◌, min, max, Bool, ◌&&◌, Option, none, some, ltb, leb, ◌==◌, if◌then◌else◌,
  add64,
}

-- `cells` is the vector: its cell at each index below `max_interval`. The parameter of the template
-- is an argument of the operations.
pub record Window {ℓ} (T : Type ℓ) : Type ℓ where
  pub base : ℕ
  pub limit : ℕ
  pub cells : ℕ → T

module _ {ℓ} {T : Type ℓ} where
  -- The constructor. The vector's cells are value-initialised: `blank` is that value.
  unfoldable pub window : ℕ → T → Window T
  window limit blank = record { base = 0; limit = limit; cells = λ cell. blank }

  unfoldable pub offset_begin : Window T → ℕ
  offset_begin w = w.base

  unfoldable pub offset_end : ℕ → Window T → ℕ
  offset_end max_interval w = min (add64 w.base max_interval) w.limit

  unfoldable pub in_range : ℕ → Window T → ℕ → Bool
  unfolding offset_begin offset_end
  in_range max_interval w i = leb (offset_begin w) i && ltb i (offset_end max_interval w)

  -- `operator[]` read; `none` is the failed assertion.
  unfoldable pub at : ℕ → Window T → ℕ → Option T
  unfolding in_range
  at max_interval w i =
      if in_range max_interval w i then some (w.cells (i % max_interval)) else none

  -- `operator[]` written through.
  unfoldable pub store : ℕ → Window T → ℕ → T → Option (Window T)
  unfolding in_range
  store max_interval w i v =
      if in_range max_interval w i
      then some (record w { cells = λ cell. if cell == i % max_interval then v else w.cells cell })
      else none

  unfoldable pub empty : Window T → Bool
  empty w = leb w.limit w.base

  unfoldable pub push : Window T → ℕ → Window T
  push w n = record w { base = add64 w.base n }

  unfoldable pub push_to : Window T → ℕ → Window T
  push_to w beg = record w { base = max beg w.base }

  -- raw_ptr(): the cell that it points to; `none` is the failed assertion.
  unfoldable pub raw_ptr : ℕ → Window T → Option ℕ
  raw_ptr max_interval w =
      if w.base % (max_interval / 2) == 0 then some (w.base % max_interval) else none
