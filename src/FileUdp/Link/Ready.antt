-- ===== src/FileUdp/Link/Ready.antt =====
-- While the receiver lacks a packet, a transfer can go on until sender() waits and has sent the lowest
-- one.
use tcp_labs.Base.{
  ℕ, ◌+◌, ◌≤◌, ◌<◌, ◌≡◌, ap, sym, ◌∙◌, ◌⊎◌, inl, inr, true, false, List, [], ◌∷◌, ◌++◌, length,
  arith,
}
use mathlib.Core.Path.{subst}
use tcp_labs.Base.Cases.{list-cases}
use tcp_labs.FileUdp.Ack.{DatagramAck, bottom_ack, is_acked}
use tcp_labs.FileUdp.Ack.Invariant
use tcp_labs.FileUdp.Ack.Invariant.{is_acked-update, update-IsValid}
use tcp_labs.FileUdp.Ack.Bottom.{bottom_ack-le, is_acked-bottom_ack}
use tcp_labs.FileUdp.Datagram.{hard_wind, soft_wind, packet_count}
use tcp_labs.FileUdp.Receiver.{Receiver, running}
use tcp_labs.FileUdp.Receiver.Transfer.{max_length, packet_count_bounds}
use tcp_labs.FileUdp.Receiver.Tail.{TailFits, IsShort}
use tcp_labs.FileUdp.Reading.{window_bytes}
use tcp_labs.FileUdp.Sender.{Sender, at_recv, must_wait}
use tcp_labs.FileUdp.Sender.Transfer.{Kept, IsSound}
use tcp_labs.FileUdp.Link.{replies_of, System, Reach}
use tcp_labs.FileUdp.Link.Receiving.{ack_of}
use tcp_labs.FileUdp.Link.Sending.{reply_of}
use tcp_labs.FileUdp.Link.Invariant.{Sees}
use tcp_labs.FileUdp.Link.Steps.{below}
use tcp_labs.FileUdp.Link.Delivery.{IsSending, HasWhole, has_every}
use tcp_labs.FileUdp.Link.Live.{Tells, Reach-trans, IsLive, Reach-IsLive}
use tcp_labs.FileUdp.Link.Moves.{to_recv, newest_reply}

append-nil_right : {A : Type 0} (xs ys : List A) → xs ++ ys ≡ [] → ys ≡ []
append-nil_right [] ys e = e
append-nil_right (x ∷ xs) ys e = absurd (cc)

unacked : (a : DatagramAck) (k : ℕ) → a.main_ack ≡ 0 → is_acked a k ≡ false
unfolding is_acked
unacked a k e = ground arith

module _ (file : List ℕ) (long : window_bytes ≤ length file) (fits : length file ≤ max_length)
    (wind flags : ℕ) (tail : TailFits (length file)) where
  abbrev count : ℕ
  count = packet_count (length file)

  -- What keeps sender() waiting.
  held_lem :
      (b : Sender)
      → Kept file b
      → must_wait wind flags b ≡ true
      → (count ≤ b.send_seq_index)
        ⊎ ((b.total_reply.main_ack + soft_wind ≤ b.send_seq_index)
            ⊎ (bottom_ack b.total_reply + hard_wind ≤ b.send_seq_index))
  unfolding must_wait
  held_lem b k h =
      let bounds = packet_count_bounds (length file) (omega arith) fits in
      let low = bottom_ack-le k.acks in ground (arith, k.count_eq, k.reached, k.within)

  -- sender() waits and has sent the lowest packet that the receiver lacks, and knows that it may.
  pub record Ready (s t : System) (k : ℕ) : Type 0 where
    pub b : Sender
    pub reach : Reach wind flags s t
    pub at_call : t.source_end ≡ at_recv b
    pub target : t.target_end ≡ s.target_end
    pub sent : k < b.send_seq_index
    pub missing : is_acked b.total_reply k ≡ false

  sends :
      (s : System) (r : Receiver)
      → IsLive file s
      → s.target_end ≡ running r
      → IsSending s.source_end
  sends s r v e =
      elim (has_every file long fits wind flags 0 0 0 0 tail s.source_end s.target_end v.joint.sound
        v.joint.good v.short (below file long fits wind flags v.joint)) [
          | inl sending ↦ sending
          | inr whole ↦ absurd (subst (HasWhole file) e whole)
        ]

  pub ready :
      (s : System) (r : Receiver)
      → IsLive file s
      → s.target_end ≡ running r
      → (t : System) × Ready s t (bottom_ack r.reply)
  ready s r v e =
      let k = bottom_ack r.reply in
      let acks = subst (λ o. Invariant.IsValid (ack_of o)) e v.joint.acks.valid in
      let low : k ≤ r.reply.main_ack = bottom_ack-le acks in
      let short : k < count = subst (IsShort (length file)) e v.short in
      let (t1, r1) = to_recv file long fits wind flags tail s v (sends s r v e) in
      let v1 = Reach-IsLive file long fits wind flags tail r1.reach v in
      let kept1 : Kept file r1.b = subst (IsSound file) r1.at_call v1.joint.sound in
      let tells : Tells r.reply (replies_of s.target_end) =
        subst (λ o. Tells (ack_of o) (replies_of s.target_end)) e v.tells in
      elim (list-cases (replies_of s.target_end)) [
        | inl none_sent ↦
            let new : r.reply.main_ack ≡ 0 = subst (Tells r.reply) none_sent tells in
            let (newer, split) = v1.joint.passed in
            let none_heard : t1.heard ≡ [] =
              append-nil_right newer t1.heard (sym split ∙ ap replies_of r1.target ∙ none_sent) in
            let seen = subst (Sees (reply_of t1.source_end)) none_heard v1.joint.seen in
            let old : r1.b.total_reply.main_ack ≡ 0 =
              ap (λ t. (reply_of t).main_ack) (sym r1.at_call) ∙ seen.0 in
            (
              t1,
              record {
                b = r1.b;
                reach = r1.reach;
                at_call = r1.at_call;
                target = r1.target;
                sent = omega (arith, held_lem r1.b kept1 r1.held);
                missing = unacked r1.b.total_reply k old;
              },
            )
        | inr (x, rest, newest) ↦
            let same : x ≡ r.reply = subst (Tells r.reply) newest tells in
            let (t2, h2) =
              newest_reply file long fits wind flags tail t1 r1.b x rest v1 r1.at_call
                (ap replies_of r1.target ∙ newest) in
            let v2 = Reach-IsLive file long fits wind flags tail h2.reach v1 in
            let e2 : t2.target_end ≡ running r = h2.target ∙ r1.target ∙ e in
            let told : reply_of t2.source_end ≡ x =
              subst (Sees (reply_of t2.source_end)) h2.last v2.joint.seen in
            let (t3, r3) = to_recv file long fits wind flags tail t2 v2 (sends t2 r v2 e2) in
            let v3 = Reach-IsLive file long fits wind flags tail r3.reach v2 in
            let kept3 : Kept file r3.b = subst (IsSound file) r3.at_call v3.joint.sound in
            let now : r3.b.total_reply ≡ r.reply = r3.same ∙ told ∙ same in
            (
              t3,
              record {
                b = r3.b;
                reach = Reach-trans (Reach-trans r1.reach h2.reach) r3.reach;
                at_call = r3.at_call;
                target = r3.target ∙ h2.target ∙ r1.target;
                sent = omega (
                  arith,
                  held_lem r3.b kept3 r3.held,
                  ap (λ a. a.main_ack) now,
                  ap bottom_ack now,
                );
                missing = ap (λ a. is_acked a k) now ∙ is_acked-bottom_ack acks;
              },
            )
      ]
