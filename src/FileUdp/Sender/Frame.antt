-- ===== src/FileUdp/Sender/Frame.antt =====
-- What a round of sender() leaves alone: the last reply, and the number of the next packet but for
-- the one that it sends.
use tcp_labs.Base.{
  ℕ, ◌*◌, ◌≡◌, refl, ap, inl, inr, Bool, true, false, Bool-cases, List, some, leb, if◌then◌else◌,
  add64, length,
}
use mathlib.Core.Path.{subst}
use tcp_labs.Base.Cases.{option-cases}
use tcp_labs.FileUdp.Ack.{DatagramAck, bottom_ack}
use tcp_labs.FileUdp.Window.{at, raw_ptr}
use tcp_labs.FileUdp.Datagram.{Datagram, single_length, slots}
use tcp_labs.FileUdp.Receiver.{cells}
use tcp_labs.FileUdp.Reading.{fread}
use tcp_labs.FileUdp.Sender.{
  LostPack, Sender, Thread, at_top, at_recv, ended, crashed, post, resend_lost, after_timeout,
  must_wait, wait_or_send, round, check_naks, read_on, refill, take_reply,
}
use tcp_labs.FileUdp.Sender.Keeping.{
  HoldsIf, if-HoldsIf, resend_lost-Keeps, after_timeout-Keeps, check_naks-Keeps,
}

-- The last reply is `reply`, and `n` is the next number.
pub record Same (reply : DatagramAck) (n : ℕ) (s : Sender) : Type 0 where
  pub reply_eq : s.total_reply ≡ reply
  pub number_eq : s.send_seq_index ≡ n

module _ (wind flags : ℕ) (reply : DatagramAck) (n : ℕ) where
  abbrev Keeps : Sender → Type 0
  Keeps s = Same reply n s

  other :
      (s : Sender) (queue : List LostPack) (sent : List Datagram)
      → Keeps s
      → Keeps (record s { lost_queue = queue; sent = sent })
  other s queue sent h = record { reply_eq = h.reply_eq; number_eq = h.number_eq }

  check_naks-Same :
      (s : Sender) (new : DatagramAck) → Keeps s → HoldsIf Keeps (check_naks wind flags s new)
  check_naks-Same s new h = check_naks-Keeps wind flags Keeps other s new h

  -- A round that comes to its end has sent the next packet; one that waits has not.
  abbrev pub Advanced : Thread → Type 0
  Advanced (at_top s) = Same reply (add64 n 1) s
  Advanced (at_recv s) = Same reply n s
  Advanced (ended s) = ⊥
  Advanced crashed = Unit {0}

  wait_or_send-Advanced : (s : Sender) → Keeps s → Advanced (wait_or_send wind flags s)
  unfolding wait_or_send post
  wait_or_send-Advanced s h = elim (Bool-cases (must_wait wind flags s)) [
    | inl wait ↦ rw wait h
    | inr free ↦ elim (option-cases (at cells s.buffer s.send_seq_index)) [
      | inl failed ↦ rw (free, failed, post) tt
      | inr (payload, got) ↦
          rw (free, got, post)
            (record { reply_eq = h.reply_eq; number_eq = ap (λ k. add64 k 1) h.number_eq })
    ]
  ]

  pub round-Advanced : (s : Sender) → Keeps s → Advanced (round wind flags s)
  unfolding round
  round-Advanced s h = elim (option-cases (resend_lost wind flags (length s.lost_queue) s)) [
    | inl failed ↦ rw (failed, round) tt
    | inr (s1, got) ↦
        let k1 =
          subst (HoldsIf _) got
            (resend_lost-Keeps wind flags Keeps other (length s.lost_queue) s h) in
        elim (option-cases (after_timeout wind flags s1)) [
          | inl failed ↦ rw (got, round) (rw (failed, round) tt)
          | inr (s2, got2) ↦
              let k2 : Keeps s2 =
                subst (HoldsIf _) got2 (after_timeout-Keeps wind flags Keeps other s1 k1) in
              rw (got, round)
                (rw (got2, round)
                  (wait_or_send-Advanced (record s2 { is_timeout = false })
                    (record { reply_eq = k2.reply_eq; number_eq = k2.number_eq })))
        ]
  ]

  read_on-Same : (s : Sender) → Keeps s → HoldsIf Keeps (read_on wind flags s)
  unfolding read_on
  read_on-Same s h = elim (option-cases (raw_ptr cells s.buffer)) [
    | inl e ↦ rw (e, read_on) tt
    | inr (cell, e) ↦
        elim (option-cases (fread s.buffer.cells cell (slots * single_length) s.unread)) [
          | inl f ↦ rw (e, read_on) (rw (f, read_on) tt)
          | inr (r, f) ↦
              rw (e, read_on)
                (rw (f, read_on) (record { reply_eq = h.reply_eq; number_eq = h.number_eq }))
        ]
  ]

  refill-Same : (s : Sender) → Keeps s → HoldsIf Keeps (refill wind flags s)
  unfolding refill
  refill-Same s h =
      if-HoldsIf Keeps (leb s.write_edge (bottom_ack s.total_reply)) _ (some s) (read_on-Same s h) h

-- A reply that has been taken is the last one.
abbrev pub Answered : DatagramAck → ℕ → Thread → Type 0
Answered reply n (at_top s) = Same reply n s
Answered reply n (at_recv s) = ⊥
Answered reply n (ended s) = Same reply n s
Answered reply n crashed = Unit {0}

ends :
    (reply : DatagramAck) (n : ℕ) (b : Bool) (s : Sender)
    → Same reply n s
    → Answered reply n (if b then ended s else at_top s)
ends reply n true s h = h
ends reply n false s h = h

pub take_reply-Answered :
    (wind flags n : ℕ) (s : Sender) (new : DatagramAck)
    → s.send_seq_index ≡ n
    → Answered new n (take_reply wind flags s new)
unfolding take_reply
take_reply-Answered wind flags n s new h =
    let old = s.total_reply in
    let first =
      check_naks-Same wind flags old n s new (record { reply_eq = refl; number_eq = h }) in
    elim (option-cases (check_naks wind flags s new)) [
      | inl failed ↦ rw (failed, take_reply) tt
      | inr (s1, got) ↦
          let k1 : Same old n s1 = subst (HoldsIf _) got first in
          let s1' = record s1 { total_reply = new } in
          let second =
            refill-Same wind flags new n s1'
              (record { reply_eq = refl; number_eq = k1.number_eq }) in
          elim (option-cases (refill wind flags s1')) [
            | inl failed ↦ rw (got, take_reply) (rw (failed, take_reply) tt)
            | inr (s2, got2) ↦
                let k2 : Same new n s2 = subst (HoldsIf _) got2 second in
                rw (got, take_reply)
                  (rw (got2, take_reply) (ends new n (leb s2.max_seq_index (bottom_ack new)) s2 k2))
          ]
    ]
