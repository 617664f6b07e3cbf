-- ===== src/FileUdp/Ack/Naks.antt =====
-- The entries of `naks`: the active ones come first and rise, the others are INACTIVE.
use tcp_labs.Base.{
  ℕ, suc, ◌+◌, ◌≤◌, ◌<◌, ◌≡◌, refl, ◌⊎◌, inl, inr, false, List, [], ◌∷◌, ◌++◌, ltb, ◌==◌,
  if◌then◌else◌, arith, length, replicate,
}
use tcp_labs.FileUdp.Ack.{inactive, contains}

-- The active entries lie in `lo ≤ x < edge` and rise. After an inactive entry `lo` is `edge`, so
-- that no active one can follow.
abbrev pub IsNaks : ℕ → ℕ → List ℕ → Type 0
IsNaks lo edge [] = Unit
IsNaks lo edge (x ∷ xs) =
    ((x ≡ inactive) × IsNaks edge edge xs) ⊎ ((lo ≤ x) × (x < edge) × IsNaks (suc x) edge xs)

-- The number of inactive entries.
abbrev pub free : List ℕ → ℕ
free [] = 0
free (x ∷ xs) = if x == inactive then suc (free xs) else free xs

-- The number of entries below `n`.
abbrev pub count_below : ℕ → List ℕ → ℕ
count_below n [] = 0
count_below n (x ∷ xs) = if ltb x n then suc (count_below n xs) else count_below n xs

pub IsNaks-mono :
    (lo low edge : ℕ) (xs : List ℕ) → low ≤ lo → IsNaks lo edge xs → IsNaks low edge xs
IsNaks-mono lo low edge [] h v = tt
IsNaks-mono lo low edge (x ∷ xs) h (inl v) = inl v
IsNaks-mono lo low edge (x ∷ xs) h (inr (a, b, v)) = inr (omega arith, b, v)

-- A list with no room for an active entry is a list of inactive ones, whatever the bounds.
pub IsNaks-full : (e lo edge : ℕ) (xs : List ℕ) → IsNaks e e xs → IsNaks lo edge xs
IsNaks-full e lo edge [] v = tt
IsNaks-full e lo edge (x ∷ xs) (inl (h, v)) = inl (h, IsNaks-full e edge edge xs v)
IsNaks-full e lo edge (x ∷ xs) (inr (a, b, v)) = absurd (omega arith)

pub free-full : (e : ℕ) (xs : List ℕ) → IsNaks e e xs → free xs ≡ length xs
free-full e [] v = refl
free-full e (x ∷ xs) (inl (h, v)) = ground (arith, free-full e xs v)
free-full e (x ∷ xs) (inr (a, b, v)) = absurd (omega arith)

pub IsNaks-replicate : (lo edge n : ℕ) → IsNaks lo edge (replicate n inactive)
unfolding replicate
IsNaks-replicate lo edge ℕ.zero = tt
IsNaks-replicate lo edge (suc n) = inl (refl, IsNaks-replicate edge edge n)

pub contains-replicate : (n k : ℕ) → k < inactive → contains (replicate n inactive) k ≡ false
unfolding replicate contains
contains-replicate ℕ.zero k h = refl
contains-replicate (suc n) k h = ground (arith, contains-replicate n k h)

-- Nothing below `lo`, nor from `edge` on, is among the entries.
pub contains_lt :
    (lo edge k : ℕ) (xs : List ℕ)
    → edge ≤ inactive
    → IsNaks lo edge xs
    → k < inactive
    → (k < lo) ⊎ (edge ≤ k)
    → contains xs k ≡ false
unfolding contains
contains_lt lo edge k [] e v hk h = refl
contains_lt lo edge k (x ∷ xs) e (inl (a, v)) hk h =
    ground (arith, contains_lt edge edge k xs e v hk)
contains_lt lo edge k (x ∷ xs) e (inr (a, b, v)) hk h =
    ground (arith, contains_lt (suc x) edge k xs e v hk)

pub IsNaks-append :
    (lo edge : ℕ) (xs : List ℕ) → IsNaks lo edge xs → IsNaks lo edge (xs ++ inactive ∷ [])
IsNaks-append lo edge [] v = inl (refl, tt)
IsNaks-append lo edge (x ∷ xs) (inl (h, v)) = inl (h, IsNaks-append edge edge xs v)
IsNaks-append lo edge (x ∷ xs) (inr (a, b, v)) = inr (a, b, IsNaks-append (suc x) edge xs v)

pub contains-append :
    (k : ℕ) (xs : List ℕ) → k < inactive → contains (xs ++ inactive ∷ []) k ≡ contains xs k
unfolding contains
contains-append k [] h = ground arith
contains-append k (x ∷ xs) h = ground (arith, contains-append k xs h)

-- The entries below `n` and those not: a number is counted once.
pub count_below-suc :
    (lo edge n : ℕ) (xs : List ℕ)
    → edge ≤ inactive
    → IsNaks lo edge xs
    → n < edge
    → count_below (suc n) xs ≡ (if contains xs n then suc (count_below n xs) else count_below n xs)
unfolding contains
count_below-suc lo edge n [] e v h = refl
count_below-suc lo edge n (x ∷ xs) e (inl (a, v)) h =
    ground (arith, count_below-suc edge edge n xs e v h)
count_below-suc lo edge n (x ∷ xs) e (inr (a, b, v)) h =
    ground (arith, count_below-suc (suc x) edge n xs e v h, contains_lt (suc x) edge n xs e v)

pub count_below-zero : (xs : List ℕ) → count_below 0 xs ≡ 0
count_below-zero [] = refl
count_below-zero (x ∷ xs) = ground (arith, count_below-zero xs)

-- Below the edge, every entry is counted that is not inactive.
pub count_below-edge :
    (lo edge : ℕ) (xs : List ℕ)
    → edge ≤ inactive
    → IsNaks lo edge xs
    → count_below edge xs + free xs ≡ length xs
count_below-edge lo edge [] e v = omega arith
count_below-edge lo edge (x ∷ xs) e (inl (a, v)) = ground (arith, count_below-edge edge edge xs e v)
count_below-edge lo edge (x ∷ xs) e (inr (a, b, v)) =
    ground (arith, count_below-edge (suc x) edge xs e v)

pub count_below-le : (n : ℕ) (xs : List ℕ) → count_below n xs ≤ length xs
count_below-le n [] = omega arith
count_below-le n (x ∷ xs) = ground (arith, count_below-le n xs)

-- The edge may move up.
pub IsNaks-widen :
    (lo edge wide : ℕ) (xs : List ℕ) → edge ≤ wide → IsNaks lo edge xs → IsNaks lo wide xs
IsNaks-widen lo edge wide [] h v = tt
IsNaks-widen lo edge wide (x ∷ xs) h (inl (a, v)) = inl (a, IsNaks-full edge wide wide xs v)
IsNaks-widen lo edge wide (x ∷ xs) h (inr (a, b, v)) =
    inr (a, omega arith, IsNaks-widen (suc x) edge wide xs h v)
