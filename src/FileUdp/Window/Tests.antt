-- ===== src/FileUdp/Window/Tests.antt =====
-- Window's theorems at inputs.
use tcp_labs.Base.{ℕ, ◌*◌, ◌%◌, ◌≡◌, refl, some, none, ◌==◌, if◌then◌else◌}
use tcp_labs.FileUdp.Window.{Window, at, store}
use tcp_labs.FileUdp.Window.Laws.{at-store}

-- Eight cells, ten numbers; the window stands at 4.
abbrev moved : Window ℕ
moved = record { base = 4; limit = 10; cells = λ cell. cell * 3 }

-- Number 9 has the cell of number 1.
abbrev stored : Window ℕ
stored = record moved { cells = λ cell. if cell == 9 % 8 then 77 else cell * 3 }

past_limit : store 8 moved 10 1 ≡ none
unfolding store
past_limit = refl

at-store_example : at 8 stored 5 ≡ some 15
unfolding at
at-store_example = at-store 8 moved 9 77 5 written
  where
    written : store 8 moved 9 77 ≡ some stored
    written = unfold store in refl
