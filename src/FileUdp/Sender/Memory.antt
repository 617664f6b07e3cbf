-- ===== src/FileUdp/Sender/Memory.antt =====
-- What fread() leaves in the array of cells, in terms of the parts of the file.
use mathlib.Core.List.{append-nil}
use tcp_labs.Base.{
  ℕ, zero, suc, ◌+◌, ◌-◌, ◌*◌, ◌≤◌, ◌<◌, ◌≡◌, refl, ap, sym, ◌∙◌, ◌⊎◌, inl, inr, true, List, [],
  ◌∷◌, some, leb, length, take, drop, arith,
}
use tcp_labs.FileUdp.Datagram.{single_length}
use tcp_labs.FileUdp.Receiver.{cells}
use tcp_labs.FileUdp.Reading.{overlay, write_cells, fread}

-- The bytes of packet `k` in the file.
abbrev pub part : List ℕ → ℕ → List ℕ
part file k = take single_length (drop (single_length * k) file)

pub length-take : {A : Type 0} (n : ℕ) (xs : List A) → n ≤ length xs → length (take n xs) ≡ n
unfolding take
length-take zero xs h = refl
length-take (suc n) [] h = absurd (omega arith)
length-take (suc n) (x ∷ xs) h = ap suc (length-take n xs (omega arith))

drop-nil : {A : Type 0} (n : ℕ) → drop {A = A} n [] ≡ []
unfolding drop
drop-nil zero = refl
drop-nil (suc n) = refl

take_less : {A : Type 0} (a n : ℕ) (xs : List A) → a ≤ n → take a (take n xs) ≡ take a xs
unfolding take
take_less zero n xs h = refl
take_less (suc a) zero xs h = absurd (omega arith)
take_less (suc a) (suc n) [] h = refl
take_less (suc a) (suc n) (x ∷ xs) h = ap (◌∷◌ x) (take_less a n xs (omega arith))

pub drop-drop : {A : Type 0} (m n : ℕ) (xs : List A) → drop m (drop n xs) ≡ drop (n + m) xs
unfolding drop
drop-drop m zero xs = ap (λ k. drop k xs) (omega arith)
drop-drop m (suc n) [] = drop-nil m ∙ sym (drop-nil (suc n + m))
drop-drop m (suc n) (x ∷ xs) =
    drop-drop m n xs
    ∙ ap (λ k. drop k (x ∷ xs)) (let e : suc (n + m) ≡ suc n + m = omega arith in e)

pub drop_all : {A : Type 0} (n : ℕ) (xs : List A) → length xs ≤ n → drop n xs ≡ []
unfolding drop
drop_all zero [] h = refl
drop_all zero (x ∷ xs) h = absurd (omega arith)
drop_all (suc n) [] h = refl
drop_all (suc n) (x ∷ xs) h = drop_all n xs (omega arith)

-- A piece of a prefix is that piece, if it ends in the prefix.
pub take-drop-take :
    {A : Type 0} (a b n : ℕ) (xs : List A)
    → b + a ≤ n
    → take a (drop b (take n xs)) ≡ take a (drop b xs)
unfolding take drop
take-drop-take a zero n xs h = take_less a n xs (omega arith)
take-drop-take a (suc b) zero xs h = absurd (omega arith)
take-drop-take a (suc b) (suc n) [] h = refl
take-drop-take a (suc b) (suc n) (x ∷ xs) h = take-drop-take a b n xs (omega arith)

pub overlay_full : (new old : List ℕ) → length old ≤ length new → overlay new old ≡ new
overlay_full new old h = rw (drop_all (length new) old h, append-nil)

-- A read that starts with packet `start`, at a cell: each of its packets is laid over its cell.
pub fread_lem :
    (held : ℕ → List ℕ) (file : List ℕ) (first start count : ℕ)
    → first + count ≤ cells
    → fread held first (single_length * count) (drop (single_length * start) file)
      ≡ some (
        write_cells held first (take (single_length * count) (drop (single_length * start) file)),
        drop (single_length * (start + count)) file,
        length (take (single_length * count) (drop (single_length * start) file)),
      )
unfolding fread
fread_lem held file first start count fit =
    let within : leb (single_length * count) (single_length * (cells - first)) ≡ true =
      ground arith in
    let rest : drop (single_length * count) (drop (single_length * start) file)
        ≡ drop (single_length * (start + count)) file =
      drop-drop (single_length * count) (single_length * start) file
      ∙ ap (λ n. drop n file) (omega arith) in
    rw (within, rest)

-- Inside the read, a cell has its packet laid over what it held.
pub write_cells_inside :
    (held : ℕ → List ℕ) (file : List ℕ) (first start count i : ℕ)
    → i < count
    → write_cells held first
        (take (single_length * count) (drop (single_length * start) file))
        (first + i)
      ≡ overlay (part file (start + i)) (held (first + i))
unfolding write_cells
write_cells_inside held file first start count i h =
    let in_ : leb first (first + i) ≡ true = ground arith in
    let piece : take single_length (
          drop (single_length * (first + i - first))
            (take (single_length * count) (drop (single_length * start) file)))
        ≡ part file (start + i) =
      ap
        (λ n. take single_length (
          drop (single_length * n)
            (take (single_length * count) (drop (single_length * start) file))))
        (omega arith)
      ∙ take-drop-take single_length (single_length * i) (single_length * count)
          (drop (single_length * start) file) (omega arith)
      ∙ ap (take single_length) (
          drop-drop (single_length * i) (single_length * start) file
          ∙ ap (λ n. drop n file) (omega arith)) in
    rw (in_, piece)

-- Before the read and behind it nothing changes.
pub write_cells_outside :
    (held : ℕ → List ℕ) (bytes : List ℕ) (first count cell : ℕ)
    → length bytes ≤ single_length * count
    → (cell < first) ⊎ (first + count ≤ cell)
    → write_cells held first bytes cell ≡ held cell
unfolding write_cells take drop
write_cells_outside held bytes first count cell small (inl before) = ground arith
write_cells_outside held bytes first count cell small (inr behind) =
    let in_ : leb first cell ≡ true = ground arith in
    rw (in_, drop_all (single_length * (cell - first)) bytes (omega arith)) refl
