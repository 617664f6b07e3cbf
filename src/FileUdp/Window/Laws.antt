-- ===== src/FileUdp/Window/Laws.antt =====
-- What a client of Window may rely on: numbers in range do not share a cell.
use tcp_labs.Base.{ℕ, ◌+◌, ◌*◌, ◌/◌, ◌%◌, ◌≤◌, ◌<◌, ◌≡◌, true, some, ◌==◌, if◌then◌else◌, arith}
use native.Mathlib.Decide.{dec_lt}
use native.Mathlib.Nat.{div-add-mod}
use tcp_labs.FileUdp.Window.{Window, in_range, at, store, push}

-- Two numbers less than `m` apart with one remainder are equal.
mod_inj : (m i j : ℕ) → i ≤ j → j < i + m → i % m ≡ j % m → i ≡ j
mod_inj m i j h k e = elim (dec_lt (i / m) (j / m)) [
  | yes p ↦
      let wide : m * (i / m + 1) ≤ m * (j / m) = grind arith in
      absurd (omega (arith, wide, div-add-mod i m, div-add-mod j m))
  | no p ↦
      let narrow : m * (j / m) ≤ m * (i / m) = grind arith in
      omega (arith, narrow, div-add-mod i m, div-add-mod j m)
]

module _ {T : Type 0} (max_interval : ℕ) (w : Window T) (i : ℕ) (v : T) where
  -- A write succeeds exactly in range.
  pub IsSome-store :
      in_range max_interval w i ≡ true → (w' : Window T) × (store max_interval w i v ≡ some w')
  unfolding store
  IsSome-store h =
      (record w { cells = λ cell. if cell == i % max_interval then v else w.cells cell }, rw h)

  -- After a write the number reads as written, and every other one as before, in range or not.
  pub at-store :
      {w' : Window T} (j : ℕ)
      → store max_interval w i v ≡ some w'
      → at max_interval w' j ≡ (if j == i then some v else at max_interval w j)
  unfolding at store
  at-store {w'} j e = ground (arith, mod_inj max_interval i j, mod_inj max_interval j i)

  -- A number that stays in range reads the same after the window has moved.
  pub at-push :
      (n : ℕ)
      → in_range max_interval w i ≡ true
      → in_range max_interval (push w n) i ≡ true
      → at max_interval (push w n) i ≡ at max_interval w i
  unfolding at push
  at-push n h k = ground arith
