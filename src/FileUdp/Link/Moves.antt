-- ===== src/FileUdp/Link/Moves.antt =====
-- Sequences of steps that are always open to a transfer: to the receiving call of sender(), and the
-- newest reply through the network.
use tcp_labs.Base.{
  ℕ, zero, suc, ◌+◌, ◌≤◌, ◌≡◌, refl, ap, sym, ◌∙◌, ◌⊎◌, inl, inr, true, List, [], ◌∷◌, ◌++◌, length,
}
use mathlib.Core.Path.{subst}
use tcp_labs.FileUdp.Ack.{DatagramAck}
use tcp_labs.FileUdp.Datagram.{hard_wind}
use tcp_labs.FileUdp.Udp.{datagram, errno, eagain}
use tcp_labs.FileUdp.Receiver.Transfer.{max_length}
use tcp_labs.FileUdp.Receiver.Tail.{TailFits}
use tcp_labs.FileUdp.Reading.{window_bytes}
use tcp_labs.FileUdp.Sender.{Sender, at_top, at_recv, must_wait, go_on, hear}
use tcp_labs.FileUdp.Sender.Transfer.{Kept, IsSound}
use tcp_labs.FileUdp.Sender.Progress.{rounds, rounds_wait, ends, at_head, at_call, behind, at_fault}
use tcp_labs.FileUdp.Sender.Waiting.{IsHeld, rounds-IsHeld}
use tcp_labs.FileUdp.Link.{
  replies_of, System, Step, sender_goes, sender_waits, sender_hears, sender_hears_again, Reach,
  begun, later,
}
use tcp_labs.FileUdp.Link.Sending.{reply_of}
use tcp_labs.FileUdp.Link.Delivery.{IsSending}
use tcp_labs.FileUdp.Link.Live.{Reach-trans, IsLive, Step-IsLive}

newest-split :
    (newer heard replies : List DatagramAck) (x : DatagramAck) (rest : List DatagramAck)
    → replies ≡ newer ++ heard
    → replies ≡ x ∷ rest
    → (heard ≡ x ∷ rest) ⊎ ((skipped : List DatagramAck) × (replies ≡ x ∷ (skipped ++ heard)))
newest-split [] heard replies x rest p q = inl (sym p ∙ q)
newest-split (y ∷ ys) heard replies x rest p q = inr (ys, cc)

module _ (file : List ℕ) (long : window_bytes ≤ length file) (fits : length file ≤ max_length)
    (wind flags : ℕ) (tail : TailFits (length file)) where
  waits_at :
      (b : Sender)
      → hear wind flags (at_recv b) (errno eagain) ≡ at_top (record b { is_timeout = true })
  unfolding hear
  waits_at b = refl

  rounds-Reach :
      (n : ℕ) (s : System)
      → Reach wind flags s (record s { source_end = rounds wind flags n s.source_end })
  unfolding rounds
  rounds-Reach zero s = begun
  rounds-Reach (suc n) s =
      Reach-trans (later begun sender_goes)
        (rounds-Reach n (record s { source_end = go_on wind flags s.source_end }))

  -- sender() waits, with the last reply that it had, and the receiver has not moved.
  pub record Rests (s t : System) : Type 0 where
    pub b : Sender
    pub reach : Reach wind flags s t
    pub at_call : t.source_end ≡ at_recv b
    pub held : must_wait wind flags b ≡ true
    pub same : b.total_reply ≡ reply_of s.source_end
    pub target : t.target_end ≡ s.target_end

  from_top :
      (s : System) (a : Sender) → s.source_end ≡ at_top a → IsLive file s → (t : System) × Rests s t
  from_top s a e v =
      let kept : Kept file a = subst (IsSound file) e v.joint.sound in
      let (b, reached, kept_b, same) = rounds_wait file long fits wind flags a kept in
      (
        record s { source_end = rounds wind flags (hard_wind + 1) s.source_end },
        record {
          b = b;
          reach = rounds-Reach (hard_wind + 1) s;
          at_call = ap (rounds wind flags (hard_wind + 1)) e ∙ reached;
          held =
              subst (IsHeld wind flags) reached
                (rounds-IsHeld wind flags (hard_wind + 1) (at_top a) tt);
          same = same ∙ sym (ap reply_of e);
          target = refl;
        },
      )

  from_recv :
      (s : System) (a : Sender)
      → s.source_end ≡ at_recv a
      → IsLive file s
      → (t : System) × Rests s t
  from_recv s a e v =
      let s1 = record s { source_end = hear wind flags s.source_end (errno eagain) } in
      let e1 : s1.source_end ≡ at_top (record a { is_timeout = true }) =
        ap (λ t. hear wind flags t (errno eagain)) e ∙ waits_at a in
      let step : Step wind flags s s1 = sender_waits in
      let (t, r) =
        from_top s1 (record a { is_timeout = true }) e1
          (Step-IsLive file long fits wind flags tail step v) in
      (
        t,
        record {
          b = r.b;
          reach = Reach-trans (later begun step) r.reach;
          at_call = r.at_call;
          held = r.held;
          same = r.same ∙ ap reply_of e1 ∙ sym (ap reply_of e);
          target = r.target;
        },
      )

  pub to_recv : (s : System) → IsLive file s → IsSending s.source_end → (t : System) × Rests s t
  to_recv s v h = elim (ends s.source_end) [
    | at_head a e ↦ from_top s a e v
    | at_call a e ↦ from_recv s a e v
    | behind a e ↦ absurd (subst IsSending e h)
    | at_fault e ↦ absurd (subst IsSending e h)
  ]

  -- The newest reply has come.
  pub record Hears (s t : System) (b : Sender) (reply : DatagramAck) : Type 0 where
    pub reach : Reach wind flags s t
    pub older : List DatagramAck
    pub last : t.heard ≡ reply ∷ older
    pub source : t.source_end ≡ hear wind flags (at_recv b) (datagram reply 0)
    pub target : t.target_end ≡ s.target_end

  pub newest_reply :
      (s : System) (b : Sender) (reply : DatagramAck) (rest : List DatagramAck)
      → IsLive file s
      → s.source_end ≡ at_recv b
      → replies_of s.target_end ≡ reply ∷ rest
      → (t : System) × Hears s t b reply
  newest_reply s b reply rest v e newest =
      let (newer, split) = v.joint.passed in
      let heard_by = ap (λ t. hear wind flags t (datagram reply 0)) e in
      elim (newest-split newer s.heard (replies_of s.target_end) reply rest split newest) [
        | inl again ↦ (
          record s { source_end = hear wind flags s.source_end (datagram reply 0) },
          record {
            reach = later begun (sender_hears_again reply rest 0 e again);
            older = rest;
            last = again;
            source = heard_by;
            target = refl;
          },
        )
        | inr (skipped, new) ↦ (
          record s {
            source_end = hear wind flags s.source_end (datagram reply 0);
            heard = reply ∷ (skipped ++ s.heard);
          },
          record {
            reach = later begun (sender_hears [] skipped reply 0 e new);
            older = skipped ++ s.heard;
            last = refl;
            source = heard_by;
            target = refl;
          },
        )
      ]
