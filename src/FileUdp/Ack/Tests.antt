-- ===== src/FileUdp/Ack/Tests.antt =====
-- DatagramACK on inputs, and its theorems at inputs.
use tcp_labs.Base.{
  ℕ, ◌<◌, ◌≡◌, refl, inr, true, false, List, [], ◌∷◌, replicate, length-replicate, arith,
}
use tcp_labs.FileUdp.Ack.{
  DatagramAck, datagram_ack, inactive, bottom_ack, contains, is_acked, update,
}
use tcp_labs.FileUdp.Ack.Naks.{IsNaks-replicate}
use tcp_labs.FileUdp.Ack.Invariant.{IsValid, update-IsValid, is_acked-update}
use tcp_labs.FileUdp.Ack.Received.{nothing, replies, receive_all, update_replies, update_all}
use tcp_labs.FileUdp.Ack.Refine.{update_all_refines}
use tcp_labs.FileUdp.Ack.Bottom.{bottom_ack_lowest, update-bottom_ack}

-- 0, 2 and 4 have come.
abbrev holes : DatagramAck
holes = record { awnd = 0; flags = 0; main_ack = 5; naks = 1 ∷ 3 ∷ replicate 14 inactive }

holes-IsValid : IsValid holes
holes-IsValid = record {
  sorted = inr (omega arith, omega arith, inr (omega arith, omega arith, IsNaks-replicate 4 5 14));
  size = omega (arith, length-replicate 14 inactive);
  small = omega arith;
}

-- the order 0, 2, 4, 4, 1, 30
abbrev script : List ℕ
script = 0 ∷ 2 ∷ 4 ∷ 4 ∷ 1 ∷ 30 ∷ []

script_replies :
    update_replies (datagram_ack 0 0) script ≡ true ∷ true ∷ true ∷ false ∷ true ∷ false ∷ []
unfolding update_replies update datagram_ack replicate
script_replies = refl

script_bottom : bottom_ack (update_all (datagram_ack 0 0) script) ≡ 3
unfolding update_all update datagram_ack replicate bottom_ack
script_bottom = refl

update-IsValid_example : IsValid (update holes 3).0
update-IsValid_example = update-IsValid 3 holes-IsValid (omega arith)

is_acked-update_example : is_acked (update holes 7).0 7 ≡ true
unfolding update is_acked contains replicate
is_acked-update_example = is_acked-update 7 holes-IsValid (omega arith) 7

update_all_refines_example :
    (update_replies (datagram_ack 7 8) script ≡ replies nothing script)
    × (is_acked (update_all (datagram_ack 7 8) script) ≡ receive_all nothing script)
update_all_refines_example = update_all_refines 7 8 script (omega arith)

bottom_ack_lowest_example :
    (is_acked holes (bottom_ack holes) ≡ false)
    × ((k : ℕ) → k < bottom_ack holes → is_acked holes k ≡ true)
bottom_ack_lowest_example = bottom_ack_lowest holes-IsValid

update-bottom_ack_example : (update holes (bottom_ack holes)).1 ≡ true
unfolding bottom_ack
update-bottom_ack_example = update-bottom_ack holes-IsValid (omega arith)
