-- ===== src/FileUdp/Sender/Waiting.antt =====
-- Where sender() stands behind a round and behind a reply: it waits only when it must, and goes on
-- only while the reply lacks a packet.
use tcp_labs.Base.{ℕ, zero, suc, ◌≡◌, inl, inr, true, false, Bool-cases, leb, length}
use tcp_labs.Base.Cases.{option-cases}
use tcp_labs.FileUdp.Ack.{DatagramAck, bottom_ack}
use tcp_labs.FileUdp.Window.{at}
use tcp_labs.FileUdp.Receiver.{cells}
use tcp_labs.FileUdp.Sender.{
  Sender, Thread, at_top, at_recv, ended, crashed, post, resend_lost, after_timeout, must_wait,
  wait_or_send, round, go_on, check_naks, refill, take_reply,
}
use tcp_labs.FileUdp.Sender.Progress.{rounds}

module _ (wind flags : ℕ) where
  abbrev pub IsHeld : Thread → Type 0
  IsHeld (at_top s) = Unit {0}
  IsHeld (at_recv s) = must_wait wind flags s ≡ true
  IsHeld (ended s) = Unit {0}
  IsHeld crashed = Unit {0}

  wait_or_send-IsHeld : (s : Sender) → IsHeld (wait_or_send wind flags s)
  unfolding wait_or_send post
  wait_or_send-IsHeld s = elim (Bool-cases (must_wait wind flags s)) [
    | inl wait ↦ rw wait wait
    | inr free ↦ elim (option-cases (at cells s.buffer s.send_seq_index)) [
      | inl failed ↦ rw (free, failed, post) tt
      | inr (payload, got) ↦ rw (free, got, post) tt
    ]
  ]

  round-IsHeld : (s : Sender) → IsHeld (round wind flags s)
  unfolding round
  round-IsHeld s = elim (option-cases (resend_lost wind flags (length s.lost_queue) s)) [
    | inl failed ↦ rw (failed, round) tt
    | inr (s1, got) ↦ elim (option-cases (after_timeout wind flags s1)) [
      | inl failed ↦ rw (got, round) (rw (failed, round) tt)
      | inr (s2, got2) ↦
          rw (got, round)
            (rw (got2, round) (wait_or_send-IsHeld (record s2 { is_timeout = false })))
    ]
  ]

  pub rounds-IsHeld : (n : ℕ) (t : Thread) → IsHeld t → IsHeld (rounds wind flags n t)
  unfolding rounds go_on
  rounds-IsHeld zero t h = h
  rounds-IsHeld (suc n) (at_top s) h = rounds-IsHeld n (round wind flags s) (round-IsHeld s)
  rounds-IsHeld (suc n) (at_recv s) h = rounds-IsHeld n (at_recv s) h
  rounds-IsHeld (suc n) (ended s) h = rounds-IsHeld n (ended s) h
  rounds-IsHeld (suc n) crashed h = rounds-IsHeld n crashed h

  -- Behind a reply.
  abbrev pub IsOpen : DatagramAck → Thread → Type 0
  IsOpen reply (at_top s) = leb s.max_seq_index (bottom_ack reply) ≡ false
  IsOpen reply (at_recv s) = ⊥
  IsOpen reply (ended s) = Unit {0}
  IsOpen reply crashed = Unit {0}

  pub take_reply-IsOpen :
      (s : Sender) (reply : DatagramAck) → IsOpen reply (take_reply wind flags s reply)
  unfolding take_reply
  take_reply-IsOpen s reply = elim (option-cases (check_naks wind flags s reply)) [
    | inl failed ↦ rw (failed, take_reply) tt
    | inr (s1, got) ↦ elim (option-cases (refill wind flags (record s1 { total_reply = reply }))) [
      | inl failed ↦ rw (got, take_reply) (rw (failed, take_reply) tt)
      | inr (s2, got2) ↦ elim (Bool-cases (leb s2.max_seq_index (bottom_ack reply))) [
        | inl whole ↦ rw (got, take_reply) (rw (got2, take_reply) (rw whole tt))
        | inr lacking ↦ rw (got, take_reply) (rw (got2, take_reply) (rw lacking lacking))
      ]
    ]
  ]
