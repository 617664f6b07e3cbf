-- ===== src/FileUdp/Sender/Late.antt =====
-- A reply of receiver() that comes behind a later one.
use tcp_labs.Base.{
  ℕ, zero, suc, ◌-◌, ◌^◌, ◌≤◌, ◌<◌, ◌≡◌, refl, ap, sym, ◌∙◌, inl, inr, Bool, true, false,
  Bool-cases, List, none, some, if◌then◌else◌, add64, length, arith,
}
use mathlib.Core.Path.{subst}
use tcp_labs.Base.Cases.{option-cases}
use tcp_labs.FileUdp.Ack.{DatagramAck, bottom_ack}
use tcp_labs.FileUdp.Ack.Invariant
use tcp_labs.FileUdp.Ack.Bottom.{bottom_ack-le}
use tcp_labs.FileUdp.Receiver.Transfer.{max_length, packet_count_bounds}
use tcp_labs.FileUdp.Sender.Transfer.{Kept}
use tcp_labs.FileUdp.Datagram.{Datagram}
use tcp_labs.FileUdp.Window.{in_range, at, offset_begin}
use tcp_labs.FileUdp.Udp.{datagram, errno, eagain}
use tcp_labs.FileUdp.Receiver.{cells}
use tcp_labs.FileUdp.Sender.{
  LostPack, Sender, Thread, at_top, at_recv, ended, crashed, post, resend, resend_lost, resend_all,
  after_timeout, must_wait, wait_or_send, round, check_naks, refill, take_reply, go_on, hear,
}
use tcp_labs.FileUdp.Sender.Keeping.{HoldsIf, resend_lost-Keeps, after_timeout-Keeps}
use tcp_labs.FileUdp.Sender.Progress.{rounds}

-- The last reply is behind the window, and a packet is on its way.
record IsLate (s : Sender) : Type 0 where
  behind : s.total_reply.main_ack < s.buffer.base
  on_way : s.total_reply.main_ack < s.send_seq_index
  within : s.send_seq_index ≤ s.max_seq_index
  small : s.max_seq_index < 2 ^ 32

other :
    (s : Sender) (queue : List LostPack) (sent : List Datagram)
    → IsLate s
    → IsLate (record s { lost_queue = queue; sent = sent })
other s queue sent h = record {
  behind = h.behind;
  on_way = h.on_way;
  within = h.within;
  small = h.small;
}

-- The time limit has passed.
abbrev IsLateOut : Sender → Type 0
IsLateOut s = IsLate s × (s.is_timeout ≡ true)

-- The reply is behind the window, which is behind the last reply, as in a transfer.
pub record ComesLate (s : Sender) (reply : DatagramAck) : Type 0 where
  pub old : reply.main_ack < s.buffer.base
  pub two : 2 ≤ reply.main_ack
  pub low : bottom_ack reply ≤ reply.main_ack
  pub base_main : s.buffer.base ≤ s.total_reply.main_ack
  pub base_edge : s.buffer.base ≤ s.write_edge
  pub reached : s.total_reply.main_ack ≤ s.send_seq_index
  pub within : s.send_seq_index ≤ s.max_seq_index
  pub small : s.max_seq_index < 2 ^ 32

module _ (wind flags : ℕ) where
  abbrev Stays : Thread → Type 0
  Stays (at_top s) = IsLate s
  Stays (at_recv s) = IsLate s
  Stays (ended s) = Unit {0}
  Stays crashed = Unit {0}

  wait_or_send-Stays : (s : Sender) → IsLate s → Stays (wait_or_send wind flags s)
  unfolding wait_or_send post must_wait
  wait_or_send-Stays s h = elim (Bool-cases (must_wait wind flags s)) [
    | inl wait ↦ rw wait h
    | inr free ↦ elim (option-cases (at cells s.buffer s.send_seq_index)) [
      | inl failed ↦ rw (free, failed, post) tt
      | inr (payload, got) ↦
          rw (free, got, post)
            (record {
              behind = h.behind;
              on_way = ground (arith, h.on_way, h.within, h.small);
              within = ground (arith, h.within, h.small, free);
              small = h.small;
            })
    ]
  ]

  round-Stays : (s : Sender) → IsLate s → Stays (round wind flags s)
  unfolding round
  round-Stays s h = elim (option-cases (resend_lost wind flags (length s.lost_queue) s)) [
    | inl failed ↦ rw (failed, round) tt
    | inr (s1, got) ↦
        let k1 =
          subst (HoldsIf IsLate) got
            (resend_lost-Keeps wind flags IsLate other (length s.lost_queue) s h) in
        elim (option-cases (after_timeout wind flags s1)) [
          | inl failed ↦ rw (got, round) (rw (failed, round) tt)
          | inr (s2, got2) ↦
              let k2 : IsLate s2 =
                subst (HoldsIf IsLate) got2 (after_timeout-Keeps wind flags IsLate other s1 k1) in
              rw (got, round)
                (rw (got2, round)
                  (wait_or_send-Stays (record s2 { is_timeout = false })
                    (record {
                      behind = k2.behind;
                      on_way = k2.on_way;
                      within = k2.within;
                      small = k2.small;
                    })))
        ]
  ]

  rounds-Stays : (n : ℕ) (t : Thread) → Stays t → Stays (rounds wind flags n t)
  unfolding rounds go_on
  rounds-Stays zero t h = h
  rounds-Stays (suc n) (at_top s) h = rounds-Stays n (round wind flags s) (round-Stays s h)
  rounds-Stays (suc n) (at_recv s) h = rounds-Stays n (at_recv s) h
  rounds-Stays (suc n) (ended s) h = rounds-Stays n (ended s) h
  rounds-Stays (suc n) crashed h = rounds-Stays n crashed h

  -- The packet behind the window is not there any more.
  resend_behind :
      (s : Sender) (trigger : ℕ)
      → IsLate s
      → resend wind flags s s.total_reply.main_ack trigger ≡ none
  unfolding resend post at in_range offset_begin
  resend_behind s trigger h = ground (arith, h.behind)

  resend_all_fails :
      (count i : ℕ) (s : Sender)
      → 0 < count
      → resend wind flags s i (add64 i 4) ≡ none
      → resend_all wind flags count i s ≡ none
  unfolding resend_all
  resend_all_fails zero i s h e = absurd (omega (arith, h))
  resend_all_fails (suc count) i s h e = rw (e, resend_all) refl

  after_timeout_fails :
      (s : Sender) → IsLate s → s.is_timeout ≡ true → after_timeout wind flags s ≡ none
  unfolding after_timeout
  after_timeout_fails s h out =
      let again =
        resend_all wind flags (s.send_seq_index - s.total_reply.main_ack) s.total_reply.main_ack
          s in
      ap (λ (b : Bool). if b then again else some s) out
      ∙ resend_all_fails (s.send_seq_index - s.total_reply.main_ack) s.total_reply.main_ack s
          (omega (arith, h.on_way)) (resend_behind s (add64 s.total_reply.main_ack 4) h)

  out_other :
      (s : Sender) (queue : List LostPack) (sent : List Datagram)
      → IsLateOut s
      → IsLateOut (record s { lost_queue = queue; sent = sent })
  out_other s queue sent h = (other s queue sent h.0, h.1)

  round_crashes : (s : Sender) → IsLate s → s.is_timeout ≡ true → round wind flags s ≡ crashed
  unfolding round
  round_crashes s h out = elim (option-cases (resend_lost wind flags (length s.lost_queue) s)) [
    | inl failed ↦ rw (failed, round) refl
    | inr (s1, got) ↦
        let k1 : IsLateOut s1 =
          subst (HoldsIf IsLateOut) got
            (resend_lost-Keeps wind flags IsLateOut out_other (length s.lost_queue) s (h, out)) in
        rw (got, round) (rw (after_timeout_fails s1 k1.0 k1.1, round) refl)
  ]

  taken :
      (s : Sender) (reply : DatagramAck)
      → ComesLate s reply
      → take_reply wind flags s reply ≡ at_top (record s { total_reply = reply })
  unfolding take_reply check_naks refill
  taken s reply h =
      ground (arith, h.old, h.two, h.low, h.base_main, h.base_edge, h.reached, h.within, h.small)

  heard :
      (b : Sender) (reply : DatagramAck) (peer : ℕ)
      → hear wind flags (at_recv b) (datagram reply peer) ≡ take_reply wind flags b reply
  unfolding hear
  heard b reply peer = refl

  timed_out :
      (b : Sender)
      → go_on wind flags (hear wind flags (at_recv b) (errno eagain))
        ≡ round wind flags (record b { is_timeout = true })
  unfolding hear go_on
  timed_out b = refl

  -- In a state with the window at or below main_ack of the last reply, that at or below the next number,
  -- and that at or below the number of packets, which is less than 2 ^ 32: if a reply comes whose
  -- main_ack is at least 2, below the window and no less than its bottom_ack(), then whatever rounds
  -- bring sender() to its next receiving call, the time limit there makes it fail an assertion.
  pub late_reply_crashes :
      (s b : Sender) (reply : DatagramAck) (peer n : ℕ)
      → ComesLate s reply
      → rounds wind flags n (hear wind flags (at_recv s) (datagram reply peer)) ≡ at_recv b
      → go_on wind flags (hear wind flags (at_recv b) (errno eagain)) ≡ crashed
  late_reply_crashes s b reply peer n h e =
      let first : Stays (hear wind flags (at_recv s) (datagram reply peer)) =
        subst Stays (sym (heard s reply peer ∙ taken s reply h)) (record {
          behind = h.old;
          on_way = omega (arith, h.old, h.base_main, h.reached);
          within = h.within;
          small = h.small;
        }) in
      let late : IsLate b = subst Stays e (rounds-Stays n _ first) in
      timed_out b
      ∙ round_crashes (record b { is_timeout = true })
          (record {
            behind = late.behind;
            on_way = late.on_way;
            within = late.within;
            small = late.small;
          })
          refl

-- In a state of a transfer, a reply of receiver() with main_ack below the window comes late.
Kept-ComesLate :
    (file : List ℕ) (s : Sender) (reply : DatagramAck)
    → 0 < length file
    → length file ≤ max_length
    → Kept file s
    → Invariant.IsValid reply
    → 2 ≤ reply.main_ack
    → reply.main_ack < s.buffer.base
    → ComesLate s reply
Kept-ComesLate file s reply pos fits k valid two old =
    let bounds = packet_count_bounds (length file) pos fits in
    record {
      old = old;
      two = two;
      low = bottom_ack-le valid;
      base_main = omega (arith, k.low, bottom_ack-le k.acks);
      base_edge = omega (arith, k.edge_eq);
      reached = k.reached;
      within = omega (arith, k.within, k.count_eq);
      small = omega (arith, k.count_eq, bounds);
    }
