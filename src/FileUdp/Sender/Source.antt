-- ===== src/FileUdp/Sender/Source.antt =====
-- The payload of each packet that sender() makes of a file, and the file that they make up.
use mathlib.Core.List.{append_assoc}
use mathlib.Core.Path.{ap₂}
use tcp_labs.Base.{
  ℕ, zero, suc, ◌+◌, ◌-◌, ◌*◌, ◌≤◌, ◌<◌, ◌≡◌, refl, ap, sym, ◌∙◌, true, false, List, [], ◌∷◌, ◌++◌,
  ltb, if◌then◌else◌, length, length-append, length-drop, length-replicate, take, drop,
  take-append-drop, replicate, arith,
}
use native.Mathlib.Decide.{dec_lt}
use tcp_labs.FileUdp.Datagram.{single_length, packet_count, chunks}
use tcp_labs.FileUdp.Datagram.Chunks.{AllFull, chunks-add, take-append, take_all}
use tcp_labs.FileUdp.Receiver.{cells}
use tcp_labs.FileUdp.Receiver.Transfer.{max_length, packet_count_bounds, content}
use tcp_labs.FileUdp.Reading.{overlay, window_bytes}
use tcp_labs.FileUdp.Sender.Memory.{part, length-take, drop-drop, overlay_full}

-- What stands in the cell of packet `k` before its bytes are read.
abbrev pub before : List ℕ → ℕ → List ℕ
before file k = if ltb k cells then replicate single_length 0 else part file (k - cells)

-- The payload of packet `k`: its bytes, laid over those of the packet before it in its cell.
unfoldable pub source : List ℕ → ℕ → List ℕ
source file k =
    if ltb k (packet_count (length file))
    then overlay (part file k) (before file k)
    else replicate single_length 0

pub length-take-le : {A : Type 0} (n : ℕ) (xs : List A) → length (take n xs) ≤ n
unfolding take
length-take-le zero xs = omega arith
length-take-le (suc n) [] = omega arith
length-take-le (suc n) (x ∷ xs) = omega (arith, length-take-le n xs)

pub length-part :
    (file : List ℕ) (k : ℕ)
    → single_length * (k + 1) ≤ length file
    → length (part file k) ≡ single_length
length-part file k h =
    length-take single_length (drop (single_length * k) file)
      (omega (arith, length-drop (single_length * k) file))

length-overlay :
    (new old : List ℕ) → length new ≤ length old → length (overlay new old) ≡ length old
length-overlay new old h =
    omega (arith, length-append new (drop (length new) old), length-drop (length new) old)

take_zero : {A : Type 0} (xs : List A) → take 0 xs ≡ []
unfolding take
take_zero xs = refl

pub drop_zero : {A : Type 0} (xs : List A) → drop 0 xs ≡ xs
unfolding drop
drop_zero xs = refl

take-nil : {A : Type 0} (n : ℕ) → take {A = A} n [] ≡ []
unfolding take
take-nil zero = refl
take-nil (suc n) = refl

-- A prefix that is long enough is the whole list.
pub take_beyond : {A : Type 0} (n : ℕ) (xs : List A) → length xs ≤ n → take n xs ≡ xs
unfolding take
take_beyond zero [] h = refl
take_beyond zero (x ∷ xs) h = absurd (omega arith)
take_beyond (suc n) [] h = refl
take_beyond (suc n) (x ∷ xs) h = ap (◌∷◌ x) (take_beyond n xs (omega arith))

take-add : {A : Type 0} (m n : ℕ) (xs : List A) → take (m + n) xs ≡ take m xs ++ take n (drop m xs)
unfolding take drop
take-add zero n xs = ap (λ k. take k xs) (omega arith)
take-add (suc m) n [] = take-nil (suc m + n) ∙ sym (take-nil n)
take-add (suc m) n (x ∷ xs) =
    let e : suc m + n ≡ suc (m + n) = omega arith in rw e (ap (◌∷◌ x) (take-add m n xs))

one : (held : ℕ → List ℕ) (k : ℕ) → chunks held k 1 ≡ held k ++ []
unfolding chunks
one held k = refl

module _ (file : List ℕ) (long : window_bytes ≤ length file) (fits : length file ≤ max_length) where
  abbrev count : ℕ
  count = packet_count (length file)

  pub bounds :
      (length file ≤ single_length * count) × (single_length * count < length file + single_length)
  bounds =
      let b = packet_count_bounds (length file) (omega arith) fits in
      (omega (arith, b), omega (arith, b))

  length-before : (k : ℕ) → k < count → length (before file k) ≡ single_length
  length-before k h = elim (dec_lt k cells) [
    | yes early ↦ ground (arith, length-replicate {A = ℕ} single_length 0)
    | no late ↦ ground (arith, length-part file (k - cells) (omega (arith, bounds)))
  ]

  pub source-AllFull : AllFull (source file)
  unfolding source
  source-AllFull k = elim (dec_lt k count) [
    | yes inside ↦
        let in_ : ltb k count ≡ true = ground arith in
        rw in_ (
          length-overlay (part file k) (before file k) (
            omega (
              arith,
              length-take-le single_length (drop (single_length * k) file),
              length-before k inside,
            ))
          ∙ length-before k inside)
    | no outside ↦
        let out : ltb k count ≡ false = ground arith in
        rw out (length-replicate {A = ℕ} single_length 0)
  ]

  pub source_inside : (k : ℕ) → k < count → source file k ≡ overlay (part file k) (before file k)
  unfolding source
  source_inside k h = let in_ : ltb k count ≡ true = ground arith in rw in_

  pub source_full : (k : ℕ) → single_length * (k + 1) ≤ length file → source file k ≡ part file k
  unfolding source
  source_full k h =
      let inside : k < count = omega (arith, bounds) in
      let in_ : ltb k count ≡ true = ground arith in
      rw in_ (
        overlay_full (part file k) (before file k)
          (omega (arith, length-part file k h, length-before k inside)))

  pub chunks-source :
      (first n : ℕ)
      → single_length * (first + n) ≤ length file
      → chunks (source file) first n ≡ take (single_length * n) (drop (single_length * first) file)
  unfolding chunks
  chunks-source first zero h = sym (take_zero (drop (single_length * first) file))
  chunks-source first (suc n) h =
      ap₂ ◌++◌ (source_full first (omega arith)) (chunks-source (suc first) n (omega arith))
      ∙ ap (λ xs. part file first ++ take (single_length * n) xs)
          (ap (λ k. drop k file)
              (let e : single_length * suc first ≡ single_length * first + single_length =
                  omega arith in
                e)
            ∙ sym (drop-drop single_length (single_length * first) file))
      ∙ sym (take-add single_length (single_length * n) (drop (single_length * first) file))
      ∙ ap (λ k. take k (drop (single_length * first) file))
          (let e : single_length + single_length * n ≡ single_length * suc n = omega arith in e)

  -- The payloads make up the file, cut at its length.
  pub content-source : content (source file) (length file) ≡ file
  content-source =
      let last = count - 1 in
      let junk = drop (length (part file last)) (before file last) in
      let tail : part file last ≡ drop (single_length * last) file =
        take_beyond single_length (drop (single_length * last) file)
          (omega (arith, bounds, length-drop (single_length * last) file)) in
      let all : count ≡ last + 1 = omega (arith, bounds) in
      let pieces : chunks (source file) 0 count ≡ file ++ (junk ++ []) =
        ap (chunks (source file) 0) all
        ∙ chunks-add (source file) 0 last 1 last (omega arith)
        ∙ ap₂ ◌++◌
            (chunks-source 0 last (omega (arith, bounds))
              ∙ ap (take (single_length * last)) (drop_zero file))
            (one (source file) last
              ∙ ap (λ xs. xs ++ [])
                  (source_inside last (omega (arith, bounds)) ∙ ap (λ xs. xs ++ junk) tail)
              ∙ append_assoc (drop (single_length * last) file) junk [])
        ∙ sym (
            append_assoc (take (single_length * last) file) (drop (single_length * last) file)
              (junk ++ []))
        ∙ ap (λ xs. xs ++ (junk ++ [])) (take-append-drop (single_length * last) file) in
      rw pieces (
        take-append (length file) file (junk ++ []) (omega arith)
        ∙ take_all (length file) file refl)
