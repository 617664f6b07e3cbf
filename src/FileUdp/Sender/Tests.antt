-- ===== src/FileUdp/Sender/Tests.antt =====
-- sender() at inputs: a file of three bytes, and one of zeros as long as the window.
use tcp_labs.Base.{
  ◌∷◌, [], false, refl, ℕ, ◌+◌, ◌≤◌, ◌<◌, true, ◌≡◌, List, length, length-replicate, replicate,
  arith,
}
use tcp_labs.FileUdp.Ack.{DatagramAck, datagram_ack, inactive, bottom_ack}
use tcp_labs.FileUdp.Ack.Invariant.{datagram_ack-IsValid, is_acked-datagram_ack}
use tcp_labs.FileUdp.Datagram.{hard_wind, packet_count}
use tcp_labs.FileUdp.Udp.{datagram, errno, eagain}
use tcp_labs.FileUdp.Receiver.Transfer.{max_length}
use tcp_labs.FileUdp.Receiver.Runs.{bottom_ack-datagram_ack}
use tcp_labs.FileUdp.Sender.Tracking.{Tracks}
use tcp_labs.FileUdp.Sender.Recovery.{HasPacket, timeout_resends}
use tcp_labs.FileUdp.Reading.{window_bytes}
use tcp_labs.FileUdp.Sender.{
  go_on, resend_lost, after_timeout, wait_or_send, must_wait, on_recv, take_reply, check_naks,
  refill, round, Sender, at_top, at_recv, crashed, new_sender, sender, hear,
}
use tcp_labs.FileUdp.Sender.Transfer.{packets_of, Kept, IsSound}
use tcp_labs.FileUdp.Sender.Replies.{Follows}
use tcp_labs.FileUdp.Sender.Safety.{sender_short, started, started-Kept, hear-IsSound}
use tcp_labs.FileUdp.Sender.Progress.{rounds, rounds_wait}
use tcp_labs.FileUdp.Sender.Late.{ComesLate, late_reply_crashes}

sender_short_example : sender 0 0 3 (7 ∷ 8 ∷ 9 ∷ []) ≡ crashed
sender_short_example = sender_short 0 0 (7 ∷ 8 ∷ 9 ∷ []) (omega arith)

unfoldable pub zeros : List ℕ
zeros = replicate window_bytes 0

pub length-zeros : length zeros ≡ window_bytes
unfolding zeros
length-zeros = length-replicate {A = ℕ} window_bytes 0

pub zeros_long : window_bytes ≤ length zeros
zeros_long = omega (arith, length-zeros)

pub zeros_fit : length zeros ≤ max_length
zeros_fit = omega (arith, length-zeros)

abbrev beginning : Sender
beginning = started zeros zeros_long zeros_fit 0 0 0 0

beginning-Kept : Kept zeros beginning
beginning-Kept = started-Kept zeros zeros_long zeros_fit 0 0 0 0

rounds_wait_example :
    (s' : Sender) × (rounds 0 0 (hard_wind + 1) (at_top beginning) ≡ at_recv s')
    × Kept zeros s'
    × (s'.total_reply ≡ beginning.total_reply)
rounds_wait_example = rounds_wait zeros zeros_long zeros_fit 0 0 beginning beginning-Kept

first_reply-Follows : Follows (datagram_ack 5 0) beginning
unfolding new_sender datagram_ack
first_reply-Follows = record {
  valid = datagram_ack-IsValid 5 0;
  later = omega (arith, bottom_ack-datagram_ack 0 0, bottom_ack-datagram_ack 5 0);
  known = omega arith;
}

hear-IsSound_example : IsSound zeros (hear 0 0 (at_recv beginning) (datagram (datagram_ack 5 0) 7))
hear-IsSound_example =
    hear-IsSound zeros zeros_long zeros_fit 0 0 (at_recv beginning) (datagram (datagram_ack 5 0) 7)
      beginning-Kept first_reply-Follows

-- Behind the first packet.
abbrev one_sent : Sender
one_sent = record beginning { send_seq_index = 1 }

one_sent-Kept : Kept zeros one_sent
unfolding new_sender datagram_ack packet_count
one_sent-Kept =
    let k = beginning-Kept in
    let bottom = bottom_ack-datagram_ack 0 0 in
    record {
      count_eq = k.count_eq;
      limit_eq = k.limit_eq;
      aligned = k.aligned;
      edge_eq = k.edge_eq;
      acks = k.acks;
      low = k.low;
      behind = k.behind;
      reached = omega arith;
      within = omega (arith, length-zeros);
      close = omega (arith, bottom);
      queued = tt;
      buffered = k.buffered;
      rest_eq = k.rest_eq;
      good = tt;
    }

one_sent-Tracks : Tracks one_sent.total_reply one_sent.lost_queue
unfolding new_sender datagram_ack
one_sent-Tracks k below missing = absurd (omega arith)

one_sent_next : 0 < one_sent.send_seq_index
one_sent_next = omega arith

timeout_resends_example :
    HasPacket zeros 0 (packets_of (round 0 0 (record one_sent { is_timeout = true; sent = [] })))
unfolding new_sender datagram_ack
timeout_resends_example =
    timeout_resends zeros zeros_long zeros_fit 0 0 one_sent 0 one_sent-Kept one_sent-Tracks
      one_sent_next (is_acked-datagram_ack 0 0 0)

-- The window is at 2048, the last reply at 2100, and one of 2040 comes.
abbrev reply_at : ℕ → DatagramAck
reply_at n = record { main_ack = n; naks = replicate 16 inactive; awnd = 0; flags = 0 }

abbrev moved_on : Sender
moved_on = record {
  total_reply = reply_at 2100;
  max_seq_index = 5000;
  buffer = record { base = 2048; limit = 5000; cells = λ cell. [] };
  lost_queue = [];
  send_seq_index = 2110;
  is_timeout = false;
  write_edge = 4096;
  unread = [];
  sent = [];
}

moved_on-ComesLate : ComesLate moved_on (reply_at 2040)
unfolding bottom_ack replicate
moved_on-ComesLate = record {
  old = omega arith;
  two = omega arith;
  low = omega arith;
  base_main = omega arith;
  base_edge = omega arith;
  reached = omega arith;
  within = omega arith;
  small = omega arith;
}

abbrev waiting : Sender
waiting = record moved_on { total_reply = reply_at 2040 }

late_reply_crashes_example : go_on 0 0 (hear 0 0 (at_recv waiting) (errno eagain)) ≡ crashed
unfolding rounds go_on round resend_lost after_timeout wait_or_send must_wait hear on_recv
    take_reply check_naks refill bottom_ack replicate
late_reply_crashes_example =
    late_reply_crashes 0 0 moved_on waiting (reply_at 2040) 7 1 moved_on-ComesLate refl
