-- ===== src/FileUdp/Ack/Invariant.antt =====
-- The representation invariant of DatagramACK, and what update() does to the set of numbers
-- that isAcked() answers for.
use tcp_labs.Base.{
  length-replicate, ℕ, ◌+◌, ◌-◌, ◌⊎◌, inl, refl, ◌≤◌, ◌<◌, ◌≡◌, Bool, true, false, not, ◌&&◌, ◌||◌,
  ltb, leb, ◌==◌, if◌then◌else◌, arith, length,
}
use tcp_labs.FileUdp.Ack.{
  DatagramAck, datagram_ack, inactive, contains, is_acked, update_loop, update, Loop,
}
use tcp_labs.FileUdp.Ack.Naks.{IsNaks, free, contains_lt, IsNaks-replicate, IsNaks-widen}
use tcp_labs.FileUdp.Ack.Entries.{
  new_ack-reject, new_ack-Grown, new_ack-contains, fill_old-reject, fill_old-Grown,
  fill_old-contains,
}

pub record IsValid (a : DatagramAck) : Type 0 where
  pub sorted : IsNaks 0 a.main_ack a.naks
  pub size : length a.naks ≡ 16
  pub small : a.main_ack ≤ inactive

-- The constructed object is valid, and nothing is acknowledged by it.
pub datagram_ack-IsValid : (awnd flags : ℕ) → IsValid (datagram_ack awnd flags)
unfolding datagram_ack
datagram_ack-IsValid awnd flags = record {
  sorted = IsNaks-replicate 0 0 16;
  size = length-replicate 16 inactive;
  small = omega arith;
}

pub is_acked-datagram_ack : (awnd flags k : ℕ) → is_acked (datagram_ack awnd flags) k ≡ false
unfolding is_acked datagram_ack
is_acked-datagram_ack awnd flags k = ground arith

-- What update() returns, told by the fields: the number is missing, or new with a gap that fits.
abbrev pub fits : DatagramAck → ℕ → Bool
fits a s = if ltb s a.main_ack then contains a.naks s else leb s (a.main_ack + free a.naks)

-- How update() leaves the fields when it takes the number.
pub record Taken (s main_ack : ℕ) (l : Loop) : Type 0 where
  pub accepts : l.valid ≡ true
  pub new_edge : l.edge ≡ (if ltb s main_ack then main_ack else s + 1)
  pub sorted : IsNaks 0 l.edge l.entries
  pub size : length l.entries ≡ 16

module _ {a : DatagramAck} (s : ℕ) (v : IsValid a) (small : s < inactive) where
  open a use {main_ack, naks}

  abbrev unchanged : Loop
  unchanged = record { entries = naks; edge = main_ack; valid = false }

  update_loop-reject : fits a s ≡ false → update_loop main_ack naks s ≡ unchanged
  unfolding update_loop
  update_loop-reject h =
      ground (arith, new_ack-reject 0 0 main_ack s naks, fill_old-reject main_ack s naks)

  update_loop-Taken : fits a s ≡ true → Taken s main_ack (update_loop main_ack naks s)
  unfolding update_loop
  update_loop-Taken h = ground (
    arith,
    IsNaks-widen 0 main_ack (main_ack + 1) naks,
    new_ack-Grown 0 0 main_ack s naks,
    fill_old-Grown 0 main_ack s naks,
  )

  update_loop-contains :
      (k : ℕ)
      → fits a s ≡ true
      → k < inactive
      → contains (update_loop main_ack naks s).entries k
        ≡ ((contains naks k || (leb main_ack k && ltb k s)) && not (k == s))
  unfolding update_loop
  update_loop-contains k h hk = ground (
    arith,
    contains_lt 0 main_ack k naks,
    new_ack-contains 0 0 main_ack s k naks,
    fill_old-contains 0 main_ack s k naks,
  )

  -- update() of a number below INACTIVE keeps an object valid.
  pub update-IsValid : IsValid (update a s).0
  unfolding update
  update-IsValid = ground (arith, update_loop-reject, update_loop-Taken)

  pub update-fits : (update a s).1 ≡ fits a s
  unfolding update
  update-fits = ground (arith, update_loop-reject, update_loop-Taken)

  -- On a valid object, a number below INACTIVE that update() does not take leaves the object as it
  -- was.
  pub update_rejected : (update a s).1 ≡ false → (update a s).0 ≡ a
  unfolding update
  update_rejected h = ground (arith, update_loop-reject, update_loop-Taken)

  -- One that is taken is acknowledged afterwards, and nothing else changes.
  pub is_acked-update :
      (k : ℕ) → is_acked (update a s).0 k ≡ (is_acked a k || ((update a s).1 && k == s))
  unfolding is_acked update
  is_acked-update k = ground (
    arith,
    contains_lt 0 main_ack k naks,
    update_loop-reject,
    update_loop-Taken,
    update_loop-contains k,
  )

  -- A number that is taken and not below `main_ack` moves it behind itself.
  pub main_ack-update :
      (update a s).0.main_ack ≡ (if (update a s).1 && leb main_ack s then s + 1 else main_ack)
  unfolding update
  main_ack-update = ground (arith, update_loop-reject, update_loop-Taken)

  -- Only a number that has not been received is taken.
  pub update_accepted : (update a s).1 ≡ true → is_acked a s ≡ false
  unfolding is_acked
  update_accepted h = ground (arith, update-fits)

-- The highest number that has been received is one below `main_ack`.
abbrev pub IsTopped : DatagramAck → Type 0
IsTopped a = (a.main_ack ≡ 0) ⊎ (is_acked a (a.main_ack - 1) ≡ true)

pub datagram_ack-IsTopped : (awnd flags : ℕ) → IsTopped (datagram_ack awnd flags)
unfolding datagram_ack
datagram_ack-IsTopped awnd flags = inl refl

pub update-IsTopped :
    {a : DatagramAck} (s : ℕ) → IsValid a → s < inactive → IsTopped a → IsTopped (update a s).0
update-IsTopped {a} s v small top = ground (
  arith,
  top,
  main_ack-update s v small,
  is_acked-update s v small s,
  is_acked-update s v small (a.main_ack - 1),
)
