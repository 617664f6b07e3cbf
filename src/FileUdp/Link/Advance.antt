-- ===== src/FileUdp/Link/Advance.antt =====
-- While the receiver lacks a packet, a transfer can go on until it has the lowest one.
use tcp_labs.Base.{
  ℕ, ◌≤◌, ◌<◌, ◌≡◌, refl, ap, sym, ◌∙◌, inl, inr, true, false, List, [], ◌∷◌, ◌++◌, length, arith,
}
use mathlib.Core.Path.{subst}
use native.Mathlib.Decide.{dec_lt}
use tcp_labs.FileUdp.Ack.{inactive, bottom_ack, is_acked, update}
use tcp_labs.FileUdp.Ack.Invariant
use tcp_labs.FileUdp.Ack.Invariant.{is_acked-update, update-IsValid}
use tcp_labs.FileUdp.Ack.Bottom.{is_acked-bottom_ack, update-bottom_ack, bottom_ack-le-update}
use tcp_labs.FileUdp.Datagram.{Datagram, packet_count}
use tcp_labs.FileUdp.Udp.{datagram, errno, eagain}
use tcp_labs.FileUdp.Receiver.{Receiver, running, next}
use tcp_labs.FileUdp.Receiver.Transfer.{max_length, packet_count_bounds, IsGood}
use tcp_labs.FileUdp.Receiver.Tail.{TailFits, IsShort}
use tcp_labs.FileUdp.Reading.{window_bytes}
use tcp_labs.FileUdp.Sender.{Sender, at_recv, round, go_on, hear}
use tcp_labs.FileUdp.Sender.Source.{source}
use tcp_labs.FileUdp.Sender.Transfer.{packets_of, Kept, IsSound}
use tcp_labs.FileUdp.Sender.Tracking.{Tracks, IsTracked}
use tcp_labs.FileUdp.Sender.Recovery.{HasPacket, round-HasPacket}
use tcp_labs.FileUdp.Link.{
  System, Step, sender_goes, sender_waits, receiver_gets, Reach, begun, later,
}
use tcp_labs.FileUdp.Link.Receiving.{ack_of, next-Replied}
use tcp_labs.FileUdp.Link.Arrivals.{replied_lem}
use tcp_labs.FileUdp.Link.Live.{Reach-trans, IsLive, Reach-IsLive}
use tcp_labs.FileUdp.Link.Ready.{ready}

-- The packet among those sent.
HasPacket-split :
    (file : List ℕ) (k : ℕ) (ds : List Datagram)
    → HasPacket file k ds
    → (newer : List Datagram) × (d : Datagram) × (older : List Datagram) × (ds
        ≡ newer ++ (d ∷ older))
      × (d.seq_index ≡ k)
HasPacket-split file k [] h = absurd h
HasPacket-split file k (d ∷ ds) (inl h) = ([], d, ds, refl, h.0)
HasPacket-split file k (d ∷ ds) (inr h) =
    let (newer, e, older, split, number) = HasPacket-split file k ds h in
    (d ∷ newer, e, older, ap (◌∷◌ d) split, number)

module _ (file : List ℕ) (long : window_bytes ≤ length file) (fits : length file ≤ max_length)
    (wind flags : ℕ) (tail : TailFits (length file)) where
  abbrev count : ℕ
  count = packet_count (length file)

  timed_out :
      (b : Sender)
      → go_on wind flags (hear wind flags (at_recv b) (errno eagain))
        ≡ round wind flags (record b { is_timeout = true })
  unfolding go_on hear
  timed_out b = refl

  -- The lowest missing number moves up when its packet comes.
  moves_up :
      (r : Receiver) (k : ℕ)
      → Invariant.IsValid r.reply
      → k ≡ bottom_ack r.reply
      → k < inactive
      → k < bottom_ack (update r.reply k).0
  moves_up r k valid e small =
      let taken : (update r.reply k).1 ≡ true =
        subst (λ i. (update r.reply i).1 ≡ true) (sym e) (update-bottom_ack valid (omega arith)) in
      let up = bottom_ack-le-update k valid small in
      let u = (update r.reply k).0 in
      let has : is_acked u k ≡ true = ground (arith, taken, is_acked-update k valid small k) in
      let lacks : is_acked u (bottom_ack u) ≡ false =
        is_acked-bottom_ack (update-IsValid k valid small) in
      elim (dec_lt k (bottom_ack u)) [
        | yes above ↦ above
        | no low ↦
            let same : bottom_ack u ≡ k = omega (arith, up, e) in
            absurd (ground (arith, has, lacks, ap (is_acked u) same))
      ]

  -- From a receiver that lacks a packet to one that has the lowest of them.
  pub advance :
      (s : System) (r : Receiver)
      → IsLive file s
      → s.target_end ≡ running r
      → (t : System) × Reach wind flags s t
        × (bottom_ack r.reply < bottom_ack (ack_of t.target_end))
  advance s r v e =
      let k = bottom_ack r.reply in
      let acks = subst (λ o. Invariant.IsValid (ack_of o)) e v.joint.acks.valid in
      let short : k < count = subst (IsShort (length file)) e v.short in
      let (t, q) = ready file long fits wind flags tail s r v e in
      let vt = Reach-IsLive file long fits wind flags tail q.reach v in
      let kept : Kept file q.b = subst (IsSound file) q.at_call vt.joint.sound in
      let tracks : Tracks q.b.total_reply q.b.lost_queue =
        subst IsTracked q.at_call vt.joint.tracked in
      let t1 = record t { source_end = hear wind flags t.source_end (errno eagain) } in
      let t2 = record t1 { source_end = go_on wind flags t1.source_end } in
      let source2 : t2.source_end ≡ round wind flags (record q.b { is_timeout = true }) =
        ap (λ u. go_on wind flags (hear wind flags u (errno eagain))) q.at_call ∙ timed_out q.b in
      let (newer, d, older, split, number) =
        HasPacket-split file k (packets_of (round wind flags (record q.b { is_timeout = true })))
          (round-HasPacket file long fits wind flags q.b k kept tracks q.sent q.missing) in
      let t3 = record t2 { target_end = next t2.target_end (datagram d 0) } in
      let step1 : Step wind flags t t1 = sender_waits in
      let step2 : Step wind flags t1 t2 = sender_goes in
      let step3 : Step wind flags t2 t3 =
        receiver_gets newer older d 0 (ap packets_of source2 ∙ split) in
      let reach = Reach-trans q.reach (later (later (later begun step1) step2) step3) in
      let v3 = Reach-IsLive file long fits wind flags tail reach v in
      let at_r : t.target_end ≡ running r = q.target ∙ e in
      let after : t3.target_end ≡ next (running r) (datagram d 0) =
        ap (λ o. next o (datagram d 0)) at_r in
      let (ack, replies) =
        replied_lem file long fits (update r.reply d.seq_index).0 r.sent
          (next (running r) (datagram d 0)) (next-Replied r d 0)
          (subst (IsGood (source file) (length file)) after v3.joint.good) in
      let bounds = packet_count_bounds (length file) (omega arith) fits in
      let up = moves_up r d.seq_index acks number (omega arith) in
      (t3, reach, omega (arith, up, number, ap bottom_ack (ap ack_of after ∙ ack)))
