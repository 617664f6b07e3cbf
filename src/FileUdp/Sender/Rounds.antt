-- ===== src/FileUdp/Sender/Rounds.antt =====
-- A round of sender(): the queue of packets that may be lost, the packets sent again after the time
-- limit, and the next packet.
use tcp_labs.Base.{
  ℕ, zero, suc, ◌+◌, ◌-◌, ◌≤◌, ◌<◌, ◌≡◌, ap, inl, inr, Bool, true, false, not, ◌&&◌, Bool-cases,
  List, ◌∷◌, Option, some, ltb, if◌then◌else◌, add32, add64, length, length-append, arith,
}
use mathlib.Core.Path.{subst}
use native.Mathlib.Decide.{dec_lt}
use tcp_labs.Base.Cases.{option-cases, list-cases}
use tcp_labs.FileUdp.Ack.{bottom_ack, is_acked}
use tcp_labs.FileUdp.Ack.Bottom.{bottom_ack-le, is_acked_lt-bottom_ack}
use tcp_labs.FileUdp.Datagram.{soft_wind, hard_wind, packet_count}
use tcp_labs.FileUdp.Receiver.Transfer.{max_length, packet_count_bounds}
use tcp_labs.FileUdp.Reading.{window_bytes}
use tcp_labs.FileUdp.Sender.{
  LostPack, Sender, resend_front, resend_lost, resend_all, after_timeout, must_wait, wait_or_send,
  round,
}
use tcp_labs.FileUdp.Sender.Transfer.{
  Holds, AllBelow, AllBelow-mono, AllSent-mono, Kept, IsSound, Kept-other, post_lem, posted-IsSent,
  resent, resend_lem,
}

if-Holds :
    {A : Type 0} (P : A → Type 0) (b : Bool) (x y : Option A)
    → Holds P x
    → Holds P y
    → Holds P (if b then x else y)
if-Holds P true x y h k = h
if-Holds P false x y h k = k

module _ (file : List ℕ) (long : window_bytes ≤ length file) (fits : length file ≤ max_length)
    (wind flags : ℕ) where
  -- An unacknowledged number is not below bottom_ack().
  missing-le :
      (s : Sender)
      → Kept file s
      → (i : ℕ) → is_acked s.total_reply i ≡ false
      → bottom_ack s.total_reply ≤ i
  missing-le s k i h = elim (dec_lt i (bottom_ack s.total_reply)) [
    | yes below ↦ absurd (ground (arith, is_acked_lt-bottom_ack k.acks i below))
    | no above ↦ omega arith
  ]

  -- A round of the loop over the queue takes off one entry at most.
  resend_front-Kept :
      (s : Sender) (p : LostPack) (rest : List LostPack)
      → s.lost_queue ≡ p ∷ rest
      → Kept file s
      → Holds
          (λ r. Kept file r.0 × (length rest ≤ length r.0.lost_queue))
          (resend_front wind flags s p rest)
  unfolding resend_front
  resend_front-Kept s p rest e k =
      let below = subst (AllBelow s.send_seq_index) e k.queued in
      let popped = Kept-other file rest s.is_timeout s.sent k below.1 k.good in
      elim (Bool-cases (not s.is_timeout && ltb s.total_reply.main_ack p.trigger_ack)) [
        | inl stop ↦ rw stop (k, omega (arith, ap length e))
        | inr go ↦ elim (Bool-cases (is_acked s.total_reply p.seq_index)) [
          | inl acked ↦ rw (go, acked) (popped, omega arith)
          | inr missing ↦
              let (sent, kept) =
                resend_lem file long fits wind flags p.seq_index (add32 s.total_reply.main_ack 4)
                  popped (missing-le s k p.seq_index missing) below.0 in
              rw (go, missing, sent) (kept, omega (arith, length-append {0} rest))
        ]
      ]

  goes_on :
      (n : ℕ) (s : Sender) (more : Bool)
      → Holds (Kept file) (resend_lost wind flags n s)
      → Kept file s
      → Holds (Kept file) (elim more [ true ↦ resend_lost wind flags n s | false ↦ some s ])
  goes_on n s true h k = h
  goes_on n s false h k = k

  resend_lost-Kept :
      (n : ℕ) (s : Sender)
      → n ≤ length s.lost_queue
      → Kept file s
      → Holds (Kept file) (resend_lost wind flags n s)
  unfolding resend_lost
  resend_lost-Kept zero s h k = k
  resend_lost-Kept (suc n) s h k = elim (list-cases s.lost_queue) [
    | inl e ↦ absurd (omega (arith, ap length e))
    | inr (p, rest, e) ↦
        let front = resend_front-Kept s p rest e k in
        elim (option-cases (resend_front wind flags s p rest)) [
          | inl failed ↦ absurd (subst (Holds _) failed front)
          | inr ((s', more), got) ↦
              let (k', longer) = subst (Holds _) got front in
              rw (e, got, resend_lost)
                (goes_on n s' more (resend_lost-Kept n s' (omega (arith, ap length e, longer)) k')
                  k')
        ]
  ]

  resend_all-Kept :
      (n i : ℕ) (s : Sender)
      → Kept file s
      → bottom_ack s.total_reply ≤ i
      → i + n ≤ s.send_seq_index
      → Holds (Kept file) (resend_all wind flags n i s)
  unfolding resend_all
  resend_all-Kept zero i s k low h = k
  resend_all-Kept (suc n) i s k low h =
      let (sent, kept) = resend_lem file long fits wind flags i (add64 i 4) k low (omega arith) in
      let next : add64 i 1 ≡ i + 1 =
        omega (arith, k.within, packet_count_bounds (length file) (omega arith) fits) in
      rw (sent, next, resend_all)
        (resend_all-Kept n (i + 1) (resent file long fits wind flags s i (add64 i 4)) kept
          (omega arith) (omega arith))

  after_timeout-Kept : (s : Sender) → Kept file s → Holds (Kept file) (after_timeout wind flags s)
  unfolding after_timeout
  after_timeout-Kept s k =
      if-Holds (Kept file) s.is_timeout
        (resend_all wind flags (s.send_seq_index - s.total_reply.main_ack) s.total_reply.main_ack s)
        (some s)
        (resend_all-Kept (s.send_seq_index - s.total_reply.main_ack) s.total_reply.main_ack s k
          (bottom_ack-le k.acks) (omega (arith, k.reached)))
        k

  -- What the test for the receiving call leaves room for.
  must_wait-false :
      (s : Sender)
      → Kept file s
      → must_wait wind flags s ≡ false
      → (s.send_seq_index < packet_count (length file))
        × (s.send_seq_index < s.total_reply.main_ack + soft_wind)
        × (s.send_seq_index < bottom_ack s.total_reply + hard_wind)
  unfolding must_wait
  must_wait-false s k h =
      let b = packet_count_bounds (length file) (omega arith) fits in
      let low = bottom_ack-le k.acks in ground (arith, k.count_eq, k.reached, k.within)

  wait_or_send-IsSound : (s : Sender) → Kept file s → IsSound file (wait_or_send wind flags s)
  unfolding wait_or_send
  wait_or_send-IsSound s k = elim (Bool-cases (must_wait wind flags s)) [
    | inl wait ↦ rw wait k
    | inr free ↦
        let (inside, soft, near) = must_wait-false s k free in
        let low = bottom_ack-le k.acks in
        let sent =
          post_lem file long fits wind flags s.send_seq_index k (omega (arith, k.reached)) inside
            near in
        let next : add64 s.send_seq_index 1 ≡ s.send_seq_index + 1 =
          omega (arith, packet_count_bounds (length file) (omega arith) fits) in
        rw (free, sent, next)
          (record {
            count_eq = k.count_eq;
            limit_eq = k.limit_eq;
            aligned = k.aligned;
            edge_eq = k.edge_eq;
            acks = k.acks;
            low = k.low;
            behind = k.behind;
            reached = omega (arith, k.reached);
            within = omega arith;
            close = omega arith;
            queued =
                AllBelow-mono s.send_seq_index (s.send_seq_index + 1) s.lost_queue (omega arith)
                  k.queued;
            buffered = k.buffered;
            rest_eq = k.rest_eq;
            good = (
              posted-IsSent file long fits wind flags (bottom_ack s.total_reply)
                  (s.send_seq_index + 1) s.send_seq_index inside near (omega arith),
              AllSent-mono file (bottom_ack s.total_reply) (bottom_ack s.total_reply)
                  s.send_seq_index (s.send_seq_index + 1) s.sent (omega arith) (omega arith) k.good,
            );
          })
  ]

  -- No assertion fails in a round.
  pub round-IsSound : (s : Sender) → Kept file s → IsSound file (round wind flags s)
  unfolding round
  round-IsSound s k =
      let first = resend_lost-Kept (length s.lost_queue) s (omega arith) k in
      elim (option-cases (resend_lost wind flags (length s.lost_queue) s)) [
        | inl failed ↦ absurd (subst (Holds _) failed first)
        | inr (s1, got) ↦
            let k1 = subst (Holds _) got first in
            let second = after_timeout-Kept s1 k1 in
            elim (option-cases (after_timeout wind flags s1)) [
              | inl failed ↦ absurd (subst (Holds _) failed second)
              | inr (s2, got2) ↦
                  let k2 : Kept file s2 = subst (Holds _) got2 second in
                  rw (got, round)
                    (rw (got2, round)
                      (wait_or_send-IsSound (record s2 { is_timeout = false })
                        (Kept-other file s2.lost_queue false s2.sent k2 k2.queued k2.good)))
            ]
      ]
