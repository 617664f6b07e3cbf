-- ===== src/FileUdp/Link/Tests.antt =====
-- A transfer of a file of zeros as long as the window.
use tcp_labs.Base.{◌≡◌, ap, ◌∙◌, ◌⊎◌, inl, false, [], ◌∷◌, length, arith}
use tcp_labs.FileUdp.Ack.{datagram_ack}
use tcp_labs.FileUdp.Datagram.{packet_count}
use tcp_labs.FileUdp.Udp.{datagram, errno, eagain}
use tcp_labs.FileUdp.Receiver.{next}
use tcp_labs.FileUdp.Receiver.Tail.{TailFits}
use tcp_labs.FileUdp.Receiver.Runs.{bottom_ack-datagram_ack}
use tcp_labs.FileUdp.Sender.{
  packet, new_sender, must_wait, resend_lost, after_timeout, wait_or_send, round, go_on,
}
use tcp_labs.FileUdp.Sender.Source.{source, bounds}
use tcp_labs.FileUdp.Sender.Transfer.{packets_of, post_lem}
use tcp_labs.FileUdp.Sender.Safety.{started, sender_long, started-Kept}
use tcp_labs.FileUdp.Sender.Tests.{zeros, length-zeros, zeros_long, zeros_fit}
use tcp_labs.FileUdp.Sender.Tracking.{IsTracked}
use tcp_labs.FileUdp.Sender.Transfer.{AllSent}
use tcp_labs.FileUdp.Link.Receiving.{ack_of}
use tcp_labs.FileUdp.Link.Sending.{next_of}
use tcp_labs.FileUdp.Ack.{bottom_ack}
use tcp_labs.FileUdp.Link.{
  System, sender_goes, receiver_gets, receiver_waits, start, Reach, begun, later,
}
use tcp_labs.FileUdp.Link.Delivery.{
  IsAlive, IsSending, HasPart, HasWhole, transfer_safe, packets_of-AllSent, missing-IsTracked,
  sender_outlasts,
}
use tcp_labs.FileUdp.Link.Live.{lose_packets}
use tcp_labs.FileUdp.Link.Completion.{IsEnded, Delivers, transfer_completes}

first_round :
    packets_of (go_on 0 0 (start 0 0 0 0 zeros).source_end) ≡ packet 0 0 0 (source zeros 0) ∷ []
unfolding go_on round resend_lost after_timeout wait_or_send must_wait new_sender datagram_ack
first_round =
    let k = started-Kept zeros zeros_long zeros_fit 0 0 0 0 in
    let b = bounds zeros zeros_long zeros_fit in
    let bottom = bottom_ack-datagram_ack 0 0 in
    let sent =
      post_lem zeros zeros_long zeros_fit 0 0 0 k (omega arith) (omega (arith, length-zeros))
        (omega (arith, bottom)) in
    let goes : must_wait 0 0 (started zeros zeros_long zeros_fit 0 0 0 0) ≡ false =
      ground (arith, bottom, b, length-zeros) in
    let e = sender_long zeros zeros_long zeros_fit 0 0 0 0 in
    ap (λ t. packets_of (go_on 0 0 t)) e ∙ rw (goes, sent)

-- The first packet is sent and comes, and the receiver waits in vain for the next.
abbrev opening : System
opening = start 0 0 0 0 zeros

abbrev sent_one : System
sent_one = record opening { source_end = go_on 0 0 opening.source_end }

abbrev came_one : System
came_one = record sent_one {
  target_end = next opening.target_end (datagram (packet 0 0 0 (source zeros 0)) 7);
}

abbrev waited : System
waited = record came_one { target_end = next came_one.target_end (errno eagain) }

waited-Reach : Reach 0 0 opening waited
waited-Reach =
    later
      (later (later begun sender_goes)
        (receiver_gets [] [] (packet 0 0 0 (source zeros 0)) 7 first_round))
      receiver_waits

tail : TailFits (length zeros)
unfolding packet_count
tail = inl (omega (arith, length-zeros))

transfer_safe_example : IsAlive waited.source_end × HasPart zeros waited.target_end
transfer_safe_example = transfer_safe zeros zeros_long zeros_fit 0 0 0 0 0 0 waited waited-Reach

sender_outlasts_example : IsSending waited.source_end ⊎ HasWhole zeros waited.target_end
sender_outlasts_example =
    sender_outlasts zeros zeros_long zeros_fit 0 0 0 0 0 0 tail waited waited-Reach

missing-IsTracked_example : IsTracked waited.source_end
missing-IsTracked_example =
    missing-IsTracked zeros zeros_long zeros_fit 0 0 0 0 0 0 waited waited-Reach

packets_of-AllSent_example :
    AllSent zeros
      (bottom_ack (ack_of waited.target_end))
      (next_of waited.source_end)
      (packets_of waited.source_end)
packets_of-AllSent_example =
    packets_of-AllSent zeros zeros_long zeros_fit 0 0 0 0 0 0 waited waited-Reach

transfer_completes_example :
    (t : System) × Reach 0 0 (lose_packets waited) t
    × IsEnded t.source_end
    × Delivers zeros t.target_end
transfer_completes_example =
    transfer_completes zeros zeros_long zeros_fit 0 0 tail 0 0 0 0 waited waited-Reach
