-- ===== src/FileUdp/Ack/Bottom.antt =====
-- bottom_ack() is the lowest number that has not been received.
use tcp_labs.Base.{ℕ, ◌≤◌, ◌<◌, ◌≡◌, inl, inr, true, false, List, [], ◌∷◌, arith}
use tcp_labs.FileUdp.Ack.{DatagramAck, inactive, first_nak, contains, bottom_ack, is_acked, update}
use tcp_labs.FileUdp.Ack.Naks.{IsNaks, contains_lt}
use tcp_labs.FileUdp.Ack.Invariant.{IsValid, update-fits, update-IsValid, is_acked-update}

first_nak_lem :
    (edge : ℕ) (xs : List ℕ)
    → edge ≤ inactive
    → IsNaks 0 edge xs
    → let b = first_nak edge xs in (b ≤ edge) × IsNaks b edge xs
first_nak_lem edge [] h v = (omega arith, tt)
first_nak_lem edge (x ∷ xs) h (inl (e, v)) = ground arith
first_nak_lem edge (x ∷ xs) h (inr (a, b, v)) = ground arith

module _ {a : DatagramAck} (v : IsValid a) where
  open a use {main_ack, naks}

  pub bottom_ack-le : bottom_ack a ≤ main_ack
  unfolding bottom_ack
  bottom_ack-le = (first_nak_lem main_ack naks v.small v.sorted).0

  -- Every number below bottom_ack() has been received.
  pub is_acked_lt-bottom_ack : (k : ℕ) → k < bottom_ack a → is_acked a k ≡ true
  unfolding bottom_ack is_acked
  is_acked_lt-bottom_ack k h = ground (
    arith,
    first_nak_lem main_ack naks v.small v.sorted,
    contains_lt (first_nak main_ack naks) main_ack k naks v.small,
  )

first_nak_missing :
    (edge : ℕ) (xs : List ℕ)
    → edge ≤ inactive
    → IsNaks 0 edge xs
    → first_nak edge xs < edge
    → contains xs (first_nak edge xs) ≡ true
unfolding contains
first_nak_missing edge [] h v k = absurd (omega arith)
first_nak_missing edge (x ∷ xs) h v k = ground arith

module _ {a : DatagramAck} (v : IsValid a) where
  open a use {main_ack, naks}

  -- bottom_ack() itself has not.
  pub is_acked-bottom_ack : is_acked a (bottom_ack a) ≡ false
  unfolding bottom_ack is_acked
  is_acked-bottom_ack = ground (arith, first_nak_missing main_ack naks v.small v.sorted)

-- Of a valid object, the number that bottom_ack() returns has not been received, and every lower one has.
pub bottom_ack_lowest :
    {a : DatagramAck}
    → IsValid a
    → (is_acked a (bottom_ack a) ≡ false) × ((k : ℕ) → k < bottom_ack a → is_acked a k ≡ true)
bottom_ack_lowest v = (is_acked-bottom_ack v, is_acked_lt-bottom_ack v)

-- bottom_ack() is the one number with this property.
pub bottom_ack_lem :
    {a : DatagramAck} (n : ℕ)
    → IsValid a
    → is_acked a n ≡ false
    → ((k : ℕ) → k < n → is_acked a k ≡ true)
    → bottom_ack a ≡ n
bottom_ack_lem {a} n v h below =
    ground (arith, below (bottom_ack a), is_acked-bottom_ack v, is_acked_lt-bottom_ack v n)

-- A number that has not been received is not below it.
pub bottom_ack-le_of_missing :
    {a : DatagramAck} (n : ℕ) → IsValid a → is_acked a n ≡ false → bottom_ack a ≤ n
bottom_ack-le_of_missing n v h = ground (arith, is_acked_lt-bottom_ack v n)

-- update() of a number below INACTIVE never moves bottom_ack() of a valid object down.
pub bottom_ack-le-update :
    {a : DatagramAck} (s : ℕ) → IsValid a → s < inactive → bottom_ack a ≤ bottom_ack (update a s).0
bottom_ack-le-update {a} s v h =
    let next = bottom_ack (update a s).0 in
    ground (
      arith,
      is_acked-update s v h next,
      is_acked-bottom_ack (update-IsValid s v h),
      is_acked_lt-bottom_ack v next,
    )

-- The lowest missing number of a valid object is always taken, while it is below INACTIVE.
pub update-bottom_ack :
    {a : DatagramAck} → IsValid a → bottom_ack a < inactive → (update a (bottom_ack a)).1 ≡ true
unfolding is_acked
update-bottom_ack {a} v h =
    ground (arith, update-fits (bottom_ack a) v h, is_acked-bottom_ack v, bottom_ack-le v)
