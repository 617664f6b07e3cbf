-- ===== src/FileUdp/Datagram/Chunks.antt =====
-- Bytes of consecutive cells.
use mathlib.Core.List.{append_assoc}
use mathlib.Core.Path.{ap₂}
use native.Mathlib.Nat.{add-zero}
use tcp_labs.Base.{
  ℕ, zero, suc, ◌+◌, ◌-◌, ◌*◌, ◌≤◌, ◌<◌, ◌≡◌, refl, ap, List, [], ◌∷◌, ◌++◌, some, leb, true,
  length, length-append, take, arith,
}
use tcp_labs.FileUdp.Datagram.{single_length, chunks, read_cells}

pub take-append :
    {A : Type 0} (n : ℕ) (xs ys : List A) → n ≤ length xs → take n (xs ++ ys) ≡ take n xs
unfolding take
take-append zero xs ys h = refl
take-append (suc n) [] ys h = absurd (omega arith)
take-append (suc n) (x ∷ xs) ys h = ap (◌∷◌ x) (take-append n xs ys (omega arith))

pub take-append_add :
    {A : Type 0} (n : ℕ) (xs ys : List A) → take (length xs + n) (xs ++ ys) ≡ xs ++ take n ys
unfolding take
take-append_add n [] ys = ap (λ k. take k ys) (omega arith)
take-append_add n (x ∷ xs) ys =
    let e : suc (length xs) + n ≡ suc (length xs + n) = omega arith in
    rw e (ap (◌∷◌ x) (take-append_add n xs ys))

pub take_all : {A : Type 0} (n : ℕ) (xs : List A) → length xs ≡ n → take n xs ≡ xs
unfolding take
take_all zero [] h = refl
take_all zero (x ∷ xs) h = absurd (omega arith)
take_all (suc n) [] h = absurd (omega arith)
take_all (suc n) (x ∷ xs) h = ap (◌∷◌ x) (take_all n xs (omega arith))

-- Chunks that are all of full length.
abbrev pub AllFull : (ℕ → List ℕ) → Type 0
AllFull cells = (i : ℕ) → length (cells i) ≡ single_length

pub length-chunks :
    (cells : ℕ → List ℕ) (first count : ℕ)
    → AllFull cells
    → length (chunks cells first count) ≡ single_length * count
unfolding chunks
length-chunks cells first zero f = omega arith
length-chunks cells first (suc count) f = omega (
  arith,
  length-append (cells first) (chunks cells (suc first) count),
  f first,
  length-chunks cells (suc first) count f,
)

pub chunks-add :
    (cells : ℕ → List ℕ) (first m n next : ℕ)
    → next ≡ first + m
    → chunks cells first (m + n) ≡ chunks cells first m ++ chunks cells next n
unfolding chunks
chunks-add cells first zero n next e =
    let same : next ≡ first = omega arith in let sum : zero + n ≡ n = omega arith in rw (sum, same)
chunks-add cells first (suc m) n next e =
    let sum : suc m + n ≡ suc (m + n) = omega arith in
    rw (sum, append_assoc)
      (ap (◌++◌ (cells first)) (chunks-add cells (suc first) m n next (omega arith)))

-- Cells that agree one by one give the same bytes.
pub chunks_agree :
    (cells others : ℕ → List ℕ) (first start count : ℕ)
    → ((i : ℕ) → i < count → cells (first + i) ≡ others (start + i))
    → chunks cells first count ≡ chunks others start count
unfolding chunks
chunks_agree cells others first start zero h = refl
chunks_agree cells others first start (suc count) h =
    ap₂ ◌++◌ (rw (add-zero, add-zero) at (h 0 (omega arith))) (
      chunks_agree cells others (suc first) (suc start) count (λ i k.
        let e : suc first + i ≡ first + suc i = omega arith in
        let e' : suc start + i ≡ start + suc i = omega arith in
        rw (e, e') (h (suc i) (omega arith))))

-- A read of whole cells, and a bit more, from an array that agrees with the chunks of a file.
pub read_cells_lem :
    (total : ℕ) (cells src : ℕ → List ℕ) (first start count n : ℕ)
    → AllFull src
    → first + count ≤ total
    → n ≤ single_length * count
    → ((i : ℕ) → i < count → cells (first + i) ≡ src (start + i))
    → read_cells total cells first n ≡ some (take n (chunks src start count))
unfolding read_cells
read_cells_lem total cells src first start count n full fit h agree =
    let rest = total - first - count in
    let split : total - first ≡ count + rest = omega arith in
    let within : leb n (single_length * (count + rest)) ≡ true = ground arith in
    rw (split, within, chunks-add cells first count rest (first + count) refl)
      (ap some (
        rw (chunks_agree cells src first start count agree) (
          take-append n (chunks src start count) (chunks cells (first + count) rest)
            (omega (arith, length-chunks src start count full)))))
