-- ===== src/FileUdp/Sender/Replies.antt =====
-- What sender() does with a reply that is no older than the last one.
use tcp_labs.Base.{
  ℕ, suc, ◌≤◌, ◌<◌, ◌≡◌, refl, ap, inl, inr, true, false, Bool-cases, List, [], ◌∷◌, leb, ◌==◌,
  if◌then◌else◌, add32, sub32, length, drop, arith,
}
use mathlib.Core.Path.{subst}
use tcp_labs.Base.Cases.{option-cases}
use tcp_labs.FileUdp.Ack.{DatagramAck, inactive, bottom_ack}
use tcp_labs.FileUdp.Ack.Naks.{IsNaks}
use tcp_labs.FileUdp.Ack.Invariant
use tcp_labs.FileUdp.Ack.Bottom.{bottom_ack-le}
use tcp_labs.FileUdp.Receiver.Transfer.{max_length}
use tcp_labs.FileUdp.Reading.{window_bytes}
use tcp_labs.FileUdp.Sender.{Sender, at_top, ended, resend_naks, check_naks, refill, take_reply}
use tcp_labs.FileUdp.Sender.Transfer.{Holds, AllSent-mono, Kept, IsSound, resent, resend_lem}
use tcp_labs.FileUdp.Sender.ReadOn.{read, read_on_lem, held_lem}

-- A reply about packets that have been sent, no older than the one that the sender has.
pub record Follows (reply : DatagramAck) (s : Sender) : Type 0 where
  pub valid : Invariant.IsValid reply
  pub later : bottom_ack s.total_reply ≤ bottom_ack reply
  pub known : reply.main_ack ≤ s.send_seq_index

module _ (file : List ℕ) (long : window_bytes ≤ length file) (fits : length file ≤ max_length)
    (wind flags : ℕ) where
  abbrev Ready : DatagramAck → Sender → Type 0
  Ready reply s = Kept file s × Follows reply s

  resend_naks-Ready :
      (reply : DatagramAck) (s : Sender) (lo : ℕ) (naks : List ℕ)
      → IsNaks lo reply.main_ack naks
      → Ready reply s
      → Holds (Ready reply) (resend_naks wind flags s naks)
  unfolding resend_naks
  resend_naks-Ready reply s lo [] v k = k
  resend_naks-Ready reply s lo (nak ∷ naks) (inl (none_left, v)) (k, f) =
      let stop : (nak == inactive) ≡ true = ground arith in rw stop (k, f)
  resend_naks-Ready reply s lo (nak ∷ naks) (inr (low, below, v)) (k, f) =
      let active : (nak == inactive) ≡ false = ground (arith, f.valid.small) in
      elim (Bool-cases (leb s.total_reply.main_ack nak)) [
        | inl new ↦
            let trigger = add32 s.total_reply.main_ack 4 in
            let (sent, kept) =
              resend_lem file long fits wind flags nak trigger k
                (ground (arith, bottom_ack-le k.acks)) (omega (arith, f.known)) in
            rw (active, new, sent)
              (resend_naks-Ready reply (resent file long fits wind flags s nak trigger) (suc nak)
                naks v (kept, record { valid = f.valid; later = f.later; known = f.known }))
        | inr old ↦ rw (active, old) (resend_naks-Ready reply s (suc nak) naks v (k, f))
      ]

  check_naks-Ready :
      (reply : DatagramAck) (s : Sender)
      → Ready reply s
      → Holds (Ready reply) (check_naks wind flags s reply)
  unfolding check_naks
  check_naks-Ready reply s k =
      elim (Bool-cases (leb s.total_reply.main_ack (sub32 reply.main_ack 2))) [
        | inl gap ↦ rw gap (resend_naks-Ready reply s 0 reply.naks k.1.valid.sorted k)
        | inr close ↦ rw close k
      ]

  replied-Kept :
      (s : Sender) (reply : DatagramAck)
      → Ready reply s
      → bottom_ack reply < s.write_edge
      → Kept file (record s { total_reply = reply })
  replied-Kept s reply (k, f) below = record {
    count_eq = k.count_eq;
    limit_eq = k.limit_eq;
    aligned = k.aligned;
    edge_eq = k.edge_eq;
    acks = f.valid;
    low = omega (arith, k.low, f.later);
    behind = below;
    reached = f.known;
    within = k.within;
    close = omega (arith, k.close, f.later);
    queued = k.queued;
    buffered = k.buffered;
    rest_eq = k.rest_eq;
    good =
        AllSent-mono file (bottom_ack s.total_reply) (bottom_ack reply) s.send_seq_index
          s.send_seq_index s.sent f.later (omega arith) k.good;
  }

  read-Kept :
      (s : Sender) (reply : DatagramAck)
      → Ready reply s
      → s.write_edge ≤ bottom_ack reply
      → Kept file (read file long fits wind flags s reply)
  read-Kept s reply (k, f) full = record {
    count_eq = k.count_eq;
    limit_eq = k.limit_eq;
    aligned = omega (arith, k.aligned);
    edge_eq = omega (arith, k.edge_eq);
    acks = f.valid;
    low = omega (arith, k.edge_eq);
    behind = omega (arith, bottom_ack-le f.valid, f.known, k.close, k.behind);
    reached = f.known;
    within = k.within;
    close = omega (arith, k.close, f.later);
    queued = k.queued;
    buffered = λ i low inside near. held_lem file long fits wind flags s i k low inside near;
    rest_eq = ap (λ n. drop n file) (omega arith);
    good =
        AllSent-mono file (bottom_ack s.total_reply) (bottom_ack reply) s.send_seq_index
          s.send_seq_index s.sent f.later (omega arith) k.good;
  }

  -- The variables behind the test for the read, and the reply in them.
  refill_lem :
      (s : Sender) (reply : DatagramAck)
      → Ready reply s
      → Holds
          (λ s'. Kept file s' × (s'.total_reply ≡ reply))
          (refill wind flags (record s { total_reply = reply }))
  unfolding refill
  refill_lem s reply k = elim (Bool-cases (leb s.write_edge (bottom_ack reply))) [
    | inl full ↦
        rw (full, read_on_lem file long fits wind flags s reply k.0)
          (read-Kept s reply k (ground arith), refl)
    | inr more ↦ rw more (replied-Kept s reply k (ground arith), refl)
  ]

  finish :
      (s : Sender) (reply : DatagramAck)
      → Kept file s
      → s.total_reply ≡ reply
      → IsSound file (if leb s.max_seq_index (bottom_ack reply) then ended s else at_top s)
  finish s reply k e = elim (Bool-cases (leb s.max_seq_index (bottom_ack reply))) [
    | inl all ↦ rw all (k.good, ground (arith, k.count_eq, ap bottom_ack e))
    | inr more ↦ rw more k
  ]

  -- No assertion fails at a reply that follows the last one.
  pub take_reply-IsSound :
      (s : Sender) (reply : DatagramAck)
      → Kept file s
      → Follows reply s
      → IsSound file (take_reply wind flags s reply)
  unfolding take_reply
  take_reply-IsSound s reply k f =
      let first = check_naks-Ready reply s (k, f) in
      elim (option-cases (check_naks wind flags s reply)) [
        | inl failed ↦ absurd (subst (Holds _) failed first)
        | inr (s1, got) ↦
            let k1 : Ready reply s1 = subst (Holds _) got first in
            let second = refill_lem s1 reply k1 in
            elim (option-cases (refill wind flags (record s1 { total_reply = reply }))) [
              | inl failed ↦ absurd (subst (Holds _) failed second)
              | inr (s2, got2) ↦
                  let (k2, same) = subst (Holds _) got2 second in
                  rw (got, take_reply) (rw (got2, take_reply) (finish s2 reply k2 same))
            ]
      ]
