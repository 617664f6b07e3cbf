-- ===== src/FileUdp/Link/Sending.antt =====
-- The last reply and the next number of the thread of sender(), over its steps.
use tcp_labs.Base.{ℕ, ◌≤◌, ◌≡◌, refl, ap, ◌∙◌, List, length, arith}
use mathlib.Core.Path.{subst}
use tcp_labs.FileUdp.Ack.{DatagramAck, datagram_ack, bottom_ack}
use tcp_labs.FileUdp.Udp.{datagram, errno, eagain}
use tcp_labs.FileUdp.Receiver.Transfer.{max_length, packet_count_bounds}
use tcp_labs.FileUdp.Reading.{window_bytes}
use tcp_labs.FileUdp.Sender.{
  Sender, Thread, at_top, at_recv, ended, crashed, round, take_reply, go_on, hear,
}
use tcp_labs.FileUdp.Sender.Transfer.{packets_of, Kept, AllSent, IsSound}
use tcp_labs.FileUdp.Sender.Rounds.{round-IsSound}
use tcp_labs.FileUdp.Sender.Replies.{Follows, take_reply-IsSound}
use tcp_labs.FileUdp.Sender.Frame.{Advanced, round-Advanced, Answered, take_reply-Answered}
use tcp_labs.FileUdp.Sender.Progress.{at_head, at_call, behind, at_fault, ends}
use tcp_labs.FileUdp.Link.{}

abbrev pub reply_of : Thread → DatagramAck
reply_of (at_top s) = s.total_reply
reply_of (at_recv s) = s.total_reply
reply_of (ended s) = s.total_reply
reply_of crashed = datagram_ack 0 0

abbrev pub next_of : Thread → ℕ
next_of (at_top s) = s.send_seq_index
next_of (at_recv s) = s.send_seq_index
next_of (ended s) = s.send_seq_index
next_of crashed = 0

module _ (file : List ℕ) (long : window_bytes ≤ length file) (fits : length file ≤ max_length)
    (wind flags : ℕ) where
  -- What is handed to UDP::send() are packets of the file in the window.
  pub IsSound-AllSent :
      (t : Thread)
      → IsSound file t
      → AllSent file (bottom_ack (reply_of t)) (next_of t) (packets_of t)
  IsSound-AllSent (at_top s) k = k.good
  IsSound-AllSent (at_recv s) k = k.good
  IsSound-AllSent (ended s) k = k.0
  IsSound-AllSent crashed k = absurd k

  -- A round keeps the last reply, and does not take back a number.
  pub go_on_frame :
      (t : Thread)
      → IsSound file t
      → (reply_of (go_on wind flags t) ≡ reply_of t) × (next_of t ≤ next_of (go_on wind flags t))
  unfolding go_on
  go_on_frame (at_top s) k =
      let sound = round-IsSound file long fits wind flags s k in
      let moved =
        round-Advanced wind flags s.total_reply s.send_seq_index s
          (record { reply_eq = refl; number_eq = refl }) in
      elim (ends (round wind flags s)) [
        | at_head s' e ↦
            let m = subst (Advanced wind flags s.total_reply s.send_seq_index) e moved in
            (
              ap reply_of e ∙ m.reply_eq,
              omega (
                arith,
                ap next_of e,
                m.number_eq,
                k.within,
                packet_count_bounds (length file) (omega arith) fits,
              ),
            )
        | at_call s' e ↦
            let m = subst (Advanced wind flags s.total_reply s.send_seq_index) e moved in
            (ap reply_of e ∙ m.reply_eq, omega (arith, ap next_of e, m.number_eq))
        | behind s' e ↦ absurd (subst (Advanced wind flags s.total_reply s.send_seq_index) e moved)
        | at_fault e ↦ absurd (subst (IsSound file) e sound)
      ]
  go_on_frame (at_recv s) k = (refl, omega arith)
  go_on_frame (ended s) k = (refl, omega arith)
  go_on_frame crashed k = (refl, omega arith)

  -- A reply that is taken is the last one then.
  pub hear_frame :
      (s : Sender) (reply : DatagramAck) (peer : ℕ)
      → Kept file s
      → Follows reply s
      → (reply_of (hear wind flags (at_recv s) (datagram reply peer)) ≡ reply)
        × (next_of (hear wind flags (at_recv s) (datagram reply peer)) ≡ s.send_seq_index)
  unfolding hear
  hear_frame s reply peer k f =
      let sound = take_reply-IsSound file long fits wind flags s reply k f in
      let moved = take_reply-Answered wind flags s.send_seq_index s reply refl in
      elim (ends (take_reply wind flags s reply)) [
        | at_head s' e ↦
            let m = subst (Answered reply s.send_seq_index) e moved in
            (ap reply_of e ∙ m.reply_eq, ap next_of e ∙ m.number_eq)
        | at_call s' e ↦ absurd (subst (Answered reply s.send_seq_index) e moved)
        | behind s' e ↦
            let m = subst (Answered reply s.send_seq_index) e moved in
            (ap reply_of e ∙ m.reply_eq, ap next_of e ∙ m.number_eq)
        | at_fault e ↦ absurd (subst (IsSound file) e sound)
      ]

  -- The time limit changes neither.
  pub wait_frame :
      (t : Thread)
      → (reply_of (hear wind flags t (errno eagain)) ≡ reply_of t)
        × (next_of (hear wind flags t (errno eagain)) ≡ next_of t)
  unfolding hear
  wait_frame (at_top s) = (refl, refl)
  wait_frame (at_recv s) = (refl, refl)
  wait_frame (ended s) = (refl, refl)
  wait_frame crashed = (refl, refl)
