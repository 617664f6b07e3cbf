-- ===== src/FileUdp/Ack/Refine.antt =====
-- update() takes exactly the numbers that the set of received numbers allows, and isAcked()
-- answers for that set.
use tcp_labs.Base.{
  ℕ, zero, suc, ◌+◌, ◌-◌, ◌≤◌, ◌<◌, ◌≡◌, refl, sym, ap, ◌∙◌, fun_ext, List, [], ◌∷◌, arith,
}
use mathlib.Core.Path.{ap₂}
use tcp_labs.FileUdp.Ack.{DatagramAck, datagram_ack, inactive, is_acked, update}
use tcp_labs.FileUdp.Ack.Naks.{
  count_below, count_below-suc, count_below-zero, count_below-edge, count_below-le,
}
use tcp_labs.FileUdp.Ack.Invariant.{
  IsValid, fits, update-IsValid, update-fits, is_acked-update, datagram_ack-IsValid,
  is_acked-datagram_ack,
}
use tcp_labs.FileUdp.Ack.Received.{
  missing, accepts, receive, nothing, replies, receive_all, update_replies, update_all,
}

module _ {a : DatagramAck} (v : IsValid a) where
  open a use {main_ack, naks}

  -- Below `main_ack` the missing numbers are the entries.
  missing_below : (n : ℕ) → n ≤ main_ack → missing (is_acked a) n ≡ count_below n naks
  unfolding missing is_acked
  missing_below zero h = sym (count_below-zero naks)
  missing_below (suc n) h =
      ground (arith, missing_below n, count_below-suc 0 main_ack n naks v.small v.sorted)

  -- From there on, every number is missing.
  missing_above :
      (d n : ℕ) → n ≡ main_ack + d → missing (is_acked a) n ≡ count_below main_ack naks + d
  unfolding missing is_acked
  missing_above zero n e = ground (arith, missing_below n)
  missing_above (suc d) zero e = absurd (omega arith)
  missing_above (suc d) (suc n) e = ground (arith, missing_above d n)

module _ {a : DatagramAck} (s : ℕ) (v : IsValid a) (small : s < inactive) where
  open a use {main_ack, naks}

  fits-accepts : fits a s ≡ accepts (is_acked a) s
  unfolding accepts is_acked
  fits-accepts = ground (
    arith,
    missing_below v s,
    missing_above v (s - main_ack) s,
    count_below-edge 0 main_ack naks v.small v.sorted,
    count_below-le s naks,
  )

  -- On a valid object and a number below INACTIVE, update() answers as the set of received numbers
  -- does, and leaves the set that it leaves.
  pub update_refines :
      ((update a s).1 ≡ accepts (is_acked a) s) × (is_acked (update a s).0 ≡ receive (is_acked a) s)
  unfolding receive
  update_refines =
      let answer = update-fits s v small ∙ fits-accepts in
      (answer, fun_ext (λ k. is_acked-update s v small k ∙ rw answer))

abbrev pub AllSmall : List ℕ → Type 0
AllSmall [] = Unit
AllSmall (s ∷ ss) = (s < inactive) × AllSmall ss

run_refines :
    (ss : List ℕ) {a : DatagramAck}
    → IsValid a
    → AllSmall ss
    → (update_replies a ss ≡ replies (is_acked a) ss)
      × (is_acked (update_all a ss) ≡ receive_all (is_acked a) ss)
unfolding update_replies replies update_all receive_all
run_refines [] v h = (refl, refl)
run_refines (s ∷ ss) {a} v h =
    let (answer, after) = update_refines s v h.0 in
    let (answers, end) = run_refines ss (update-IsValid s v h.0) h.1 in
    (
      ap₂ ◌∷◌ answer (answers ∙ ap (λ r. replies r ss) after),
      end ∙ ap (λ r. receive_all r ss) after,
    )

-- Over any sequence of numbers below INACTIVE, a new object answers as a set of received numbers that
-- is empty at first, and isAcked() is membership in the set behind it.
pub update_all_refines :
    (awnd flags : ℕ) (ss : List ℕ)
    → AllSmall ss
    → (update_replies (datagram_ack awnd flags) ss ≡ replies nothing ss)
      × (is_acked (update_all (datagram_ack awnd flags) ss) ≡ receive_all nothing ss)
update_all_refines awnd flags ss h =
    rw (← fun_ext (is_acked-datagram_ack awnd flags))
      (run_refines ss (datagram_ack-IsValid awnd flags) h)

-- The invariant holds after any sequence of numbers.
pub update_all-IsValid :
    (ss : List ℕ) {a : DatagramAck} → IsValid a → AllSmall ss → IsValid (update_all a ss)
unfolding update_all
update_all-IsValid [] v h = v
update_all-IsValid (s ∷ ss) v h = update_all-IsValid ss (update-IsValid s v h.0) h.1
