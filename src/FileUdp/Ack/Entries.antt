-- ===== src/FileUdp/Ack/Entries.antt =====
-- What the loops of update() leave of the entries, on every branch.
use tcp_labs.Base.{
  ℕ, suc, ◌+◌, ◌≤◌, ◌<◌, ◌≡◌, refl, ap, inl, inr, true, false, not, ◌&&◌, ◌||◌, List, [], ◌∷◌, ◌++◌,
  ltb, leb, ◌==◌, arith, length, length-append,
}
use tcp_labs.FileUdp.Ack.{inactive, contains, Loop, new_ack, shift_down, fill_old}
use tcp_labs.FileUdp.Ack.Naks.{
  IsNaks, free, IsNaks-mono, IsNaks-full, free-full, contains_lt, IsNaks-append, contains-append,
}

-- The loop for a new number gives up and changes nothing, if the gap is wider than what is free.
pub new_ack-reject :
    (i lo edge s : ℕ) (xs : List ℕ)
    → i + length xs ≡ 16
    → edge ≤ inactive
    → IsNaks lo edge xs
    → edge + free xs < s
    → new_ack i xs edge s ≡ record { entries = xs; edge = edge; valid = false }
unfolding new_ack
new_ack-reject i lo edge s [] e b v h = refl
new_ack-reject i lo edge s (x ∷ xs) e b (inl (a, v)) h = ground (arith, free-full edge xs v)
new_ack-reject i lo edge s (x ∷ xs) e b (inr (a, c, v)) h =
    ground (arith, new_ack-reject (i + 1) (suc x) edge s xs)

-- What it leaves when the gap fits: the numbers of the gap are entered as missing.
pub record Grown (lo edge s : ℕ) (xs : List ℕ) (l : Loop) : Type 0 where
  pub accepts : l.valid ≡ true
  pub new_edge : l.edge ≡ s + 1
  pub sorted : IsNaks lo (s + 1) l.entries
  pub size : length l.entries ≡ length xs

pub new_ack-Grown :
    (i lo edge s : ℕ) (xs : List ℕ)
    → i + length xs ≡ 16
    → s < inactive
    → IsNaks lo edge xs
    → lo ≤ edge
    → edge < s
    → s ≤ edge + free xs
    → Grown lo edge s xs (new_ack i xs edge s)
unfolding new_ack
new_ack-Grown i lo edge s [] e b v g h k = absurd (omega arith)
new_ack-Grown i lo edge s (x ∷ xs) e b (inl (a, v)) g h k = ground (
  arith,
  free-full edge xs v,
  new_ack-Grown (i + 1) (edge + 1) (edge + 1) s xs,
  IsNaks-full edge (edge + 1) (edge + 1) xs v,
  IsNaks-full edge (edge + 1) (s + 1) xs v,
)
new_ack-Grown i lo edge s (x ∷ xs) e b (inr (a, c, v)) g h k =
    ground (arith, new_ack-Grown (i + 1) (suc x) edge s xs)

pub new_ack-contains :
    (i lo edge s j : ℕ) (xs : List ℕ)
    → i + length xs ≡ 16
    → s < inactive
    → j < inactive
    → IsNaks lo edge xs
    → edge < s
    → s ≤ edge + free xs
    → contains (new_ack i xs edge s).entries j ≡ (contains xs j || (leb edge j && ltb j s))
unfolding new_ack contains
new_ack-contains i lo edge s j [] e b c v h k = absurd (omega arith)
new_ack-contains i lo edge s j (x ∷ xs) e b c (inl (a, v)) h k = ground (
  arith,
  free-full edge xs v,
  new_ack-contains (i + 1) (edge + 1) (edge + 1) s j xs,
  IsNaks-full edge (edge + 1) (edge + 1) xs v,
)
new_ack-contains i lo edge s j (x ∷ xs) e b c (inr (a, d, v)) h k =
    ground (arith, new_ack-contains (i + 1) (suc x) edge s j xs)

pub shift_down-append : (x : ℕ) (xs : List ℕ) → shift_down (x ∷ xs) ≡ xs ++ inactive ∷ []
unfolding shift_down
shift_down-append x [] = refl
shift_down-append x (y ∷ ys) = ap (◌∷◌ y) (shift_down-append y ys)

-- A number that is not among the entries changes nothing.
pub fill_old-reject :
    (edge s : ℕ) (xs : List ℕ)
    → contains xs s ≡ false
    → fill_old xs edge s ≡ record { entries = xs; edge = edge; valid = false }
unfolding fill_old contains
fill_old-reject edge s [] h = refl
fill_old-reject edge s (x ∷ xs) h = ground (arith, fill_old-reject edge s xs)

-- One that is among them is taken out, and they move up.
pub fill_old-Grown :
    (lo edge s : ℕ) (xs : List ℕ)
    → s < inactive
    → IsNaks lo edge xs
    → contains xs s ≡ true
    → let l = fill_old xs edge s in
      (l.valid ≡ true) × (l.edge ≡ edge) × IsNaks lo edge l.entries × (length l.entries ≡ length xs)
unfolding fill_old contains
fill_old-Grown lo edge s [] b v h = absurd (ground arith)
fill_old-Grown lo edge s (x ∷ xs) b (inl (a, v)) h =
    ground (arith, fill_old-Grown edge edge s xs b v)
fill_old-Grown lo edge s (x ∷ xs) b (inr (a, c, v)) h = ground (
  arith,
  fill_old-Grown (suc x) edge s xs b v,
  shift_down-append x xs,
  length-append xs (inactive ∷ []),
  IsNaks-append (suc x) edge xs v,
  IsNaks-mono (suc x) lo edge (xs ++ inactive ∷ []),
)

pub fill_old-contains :
    (lo edge s j : ℕ) (xs : List ℕ)
    → edge ≤ inactive
    → s < inactive
    → j < inactive
    → IsNaks lo edge xs
    → contains xs s ≡ true
    → contains (fill_old xs edge s).entries j ≡ (contains xs j && not (j == s))
unfolding fill_old contains
fill_old-contains lo edge s j [] d b c v h = absurd (ground arith)
fill_old-contains lo edge s j (x ∷ xs) d b c (inl (a, v)) h =
    ground (arith, fill_old-contains edge edge s j xs d b c v)
fill_old-contains lo edge s j (x ∷ xs) d b c (inr (a, g, v)) h = ground (
  arith,
  fill_old-contains (suc x) edge s j xs d b c v,
  shift_down-append x xs,
  contains-append j xs,
  contains_lt (suc x) edge x xs d v,
)
