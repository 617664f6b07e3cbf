-- ===== src/FileUdp/Link/Steps.antt =====
-- Each step of the two ends keeps what holds of them.
use tcp_labs.Base.{ℕ, ◌≤◌, ◌≡◌, refl, ap, sym, ◌∙◌, true, List, [], ◌∷◌, ◌++◌, length, arith}
use mathlib.Core.Path.{subst}
use mathlib.Core.List.{append_assoc}
use tcp_labs.FileUdp.Ack.{DatagramAck, datagram_ack, bottom_ack, is_acked}
use tcp_labs.FileUdp.Ack.Invariant.{datagram_ack-IsValid, datagram_ack-IsTopped, IsTopped}
use tcp_labs.FileUdp.Datagram.Chunks.{AllFull}
use tcp_labs.FileUdp.Udp.{datagram, errno, eagain}
use tcp_labs.FileUdp.Receiver.{Outcome, receiver, next}
use tcp_labs.FileUdp.Receiver.Transfer.{max_length, packet_count_bounds}
use tcp_labs.FileUdp.Receiver.Runs.{bottom_ack-datagram_ack, receiver-IsReceiving}
use tcp_labs.FileUdp.Reading.{window_bytes}
use tcp_labs.FileUdp.Sender.{
  Sender, Thread, at_top, at_recv, ended, crashed, new_sender, go_on, hear,
}
use tcp_labs.FileUdp.Sender.Source.{source, source-AllFull}
use tcp_labs.FileUdp.Sender.Transfer.{Kept, AllSent, IsSound}
use tcp_labs.FileUdp.Sender.Replies.{Follows}
use tcp_labs.FileUdp.Sender.Safety.{
  IsAnswer, sender_long, started-Kept, go_on-IsSound, hear-IsSound,
}
use tcp_labs.FileUdp.Sender.Tracking.{IsTracked}
use tcp_labs.FileUdp.Sender.Missing.{go_on-IsTracked, wait-IsTracked, hear-IsTracked}
use tcp_labs.FileUdp.Link.{
  replies_of, System, Step, sender_goes, sender_waits, sender_hears, sender_hears_again,
  receiver_gets, receiver_waits, start, Reach, begun, later,
}
use tcp_labs.FileUdp.Link.Receiving.{ack_of}
use tcp_labs.FileUdp.Link.Arrivals.{After, gets-After, idles-After}
use tcp_labs.FileUdp.Link.Sending.{
  reply_of, next_of, IsSound-AllSent, go_on_frame, hear_frame, wait_frame,
}
use tcp_labs.FileUdp.Link.Invariant.{
  Chain, Chain-append, Sees, AllSent-append, Joint, Sees-Precedes, Sees-later, Sees-acked,
}

module _ (file : List ℕ) (long : window_bytes ≤ length file) (fits : length file ≤ max_length)
    (wind flags : ℕ) where
  abbrev full : AllFull (source file)
  full = source-AllFull file long fits

  -- sender() knows of no packet that the receiver lacks.
  pub below :
      {s : System}
      → Joint file s
      → bottom_ack (reply_of s.source_end) ≤ bottom_ack (ack_of s.target_end)
  below {s} j =
      let (newer, e) = j.passed in
      Sees-Precedes (reply_of s.source_end) (ack_of s.target_end) newer s.heard
        (replies_of s.target_end) j.chain e j.seen

  pub start-Joint :
      (awnd ack_flags awnd' ack_flags' : ℕ)
      → Joint file (start awnd ack_flags awnd' ack_flags' file)
  unfolding new_sender datagram_ack receiver
  start-Joint awnd ack_flags awnd' ack_flags' =
      let long_start = sender_long file long fits wind flags awnd ack_flags in
      let shown = ap reply_of long_start in
      record {
        sound =
            subst (IsSound file) (sym long_start)
              (started-Kept file long fits wind flags awnd ack_flags);
        good =
            receiver-IsReceiving (source file) (length file) full (omega arith) fits awnd'
              ack_flags' (omega (arith, packet_count_bounds (length file) (omega arith) fits));
        acks = record {
          valid = datagram_ack-IsValid awnd' ack_flags';
          topped = datagram_ack-IsTopped awnd' ack_flags';
        };
        chain = tt;
        passed = ([], refl);
        seen = (
          ap (λ a. a.main_ack) shown,
          ap bottom_ack shown ∙ bottom_ack-datagram_ack awnd ack_flags,
        );
        tracked = subst IsTracked (sym long_start) (λ k below missing. absurd (omega arith));
        known = omega arith;
      }

  goes-Joint :
      (s : System)
      → Joint file s
      → Joint file (record s { source_end = go_on wind flags s.source_end })
  goes-Joint s j =
      let (same, more) = go_on_frame file long fits wind flags s.source_end j.sound in
      record {
        sound = go_on-IsSound file long fits wind flags s.source_end j.sound;
        good = j.good;
        acks = j.acks;
        chain = j.chain;
        passed = j.passed;
        seen = subst (λ t. Sees t s.heard) (sym same) j.seen;
        tracked = go_on-IsTracked wind flags s.source_end j.tracked;
        known = omega (arith, j.known, more);
      }

  waits : (t : Thread) → IsAnswer file long fits wind flags t (errno eagain)
  waits (at_top s) = tt
  waits (at_recv s) = refl
  waits (ended s) = tt
  waits crashed = tt

  waits-Joint :
      (s : System)
      → Joint file s
      → Joint file (record s { source_end = hear wind flags s.source_end (errno eagain) })
  waits-Joint s j =
      let (same, number) = wait_frame file long fits wind flags s.source_end in
      record {
        sound =
            hear-IsSound file long fits wind flags s.source_end (errno eagain) j.sound
              (waits s.source_end);
        good = j.good;
        acks = j.acks;
        chain = j.chain;
        passed = j.passed;
        seen = subst (λ t. Sees t s.heard) (sym same) j.seen;
        tracked = wait-IsTracked wind flags s.source_end j.tracked;
        known = omega (arith, j.known, number);
      }

  -- A reply that follows the last one, with what has come behind it.
  hears-Joint :
      (s : System) (b : Sender) (reply : DatagramAck) (rest : List DatagramAck) (peer : ℕ)
      → Joint file s
      → s.source_end ≡ at_recv b
      → Follows reply b
      → IsTopped reply
      → ((k : ℕ) → is_acked b.total_reply k ≡ true → is_acked reply k ≡ true)
      → ((newer : List DatagramAck) × (replies_of s.target_end ≡ newer ++ (reply ∷ rest)))
      → Joint file (record s {
        source_end = hear wind flags s.source_end (datagram reply peer);
        heard = reply ∷ rest;
      })
  hears-Joint s b reply rest peer j e f top later_acked back =
      let k : Kept file b = subst (IsSound file) e j.sound in
      let (same, number) = hear_frame file long fits wind flags b reply peer k f in
      let at_b = ap (λ t. hear wind flags t (datagram reply peer)) e in
      record {
        sound =
            subst (IsSound file) (sym at_b)
              (hear-IsSound file long fits wind flags (at_recv b) (datagram reply peer) k f);
        good = j.good;
        acks = j.acks;
        chain = j.chain;
        passed = back;
        seen = ap reply_of at_b ∙ same;
        tracked = subst IsTracked (sym at_b) (
            hear-IsTracked wind flags b reply peer (subst IsTracked e j.tracked) f.valid top
              later_acked);
        known = omega (arith, j.known, ap next_of e, ap next_of at_b, number);
      }

  After-Joint :
      (s : System) (o : Outcome)
      → Joint file s
      → After file long fits (next_of s.source_end) s.target_end o
      → Joint file (record s { target_end = o })
  After-Joint s o j a =
      let (newer, e) = j.passed in
      let (new, f) = a.grown in
      record {
        sound = j.sound;
        good = a.good;
        acks = a.acks;
        chain = a.chain;
        passed = (new ++ newer, f ∙ ap (◌++◌ new) e ∙ sym (append_assoc new newer s.heard));
        seen = j.seen;
        tracked = j.tracked;
        known = a.known;
      }

  -- Every step keeps what holds of both ends.
  pub Step-Joint : {s t : System} → Step wind flags s t → Joint file s → Joint file t
  Step-Joint {s} sender_goes j = goes-Joint s j
  Step-Joint {s} sender_waits j = waits-Joint s j
  Step-Joint {s} (sender_hears {b} newer skipped reply peer e back) j =
      let (p, v, c) =
        Chain-append newer reply (ack_of s.target_end) (skipped ++ s.heard)
          (subst (Chain (ack_of s.target_end)) back j.chain) in
      hears-Joint s b reply (skipped ++ s.heard) peer j e
        (record {
          valid = v.valid;
          later =
              Sees-later b.total_reply reply skipped s.heard c
                (subst (λ t. Sees t s.heard) (ap reply_of e) j.seen);
          known = omega (arith, p.edge, j.known, ap next_of e);
        })
        v.topped
        (Sees-acked b.total_reply reply skipped s.heard c
          (subst (λ t. Sees t s.heard) (ap reply_of e) j.seen))
        (newer, back)
  Step-Joint {s} (sender_hears_again {b} reply rest peer e back) j =
      let (newer, split) = j.passed in
      let split' = split ∙ ap (◌++◌ newer) back in
      let (p, v, c) =
        Chain-append newer reply (ack_of s.target_end) rest
          (subst (Chain (ack_of s.target_end)) split' j.chain) in
      let same : b.total_reply ≡ reply =
        sym (ap reply_of e) ∙ subst (Sees (reply_of s.source_end)) back j.seen in
      subst
        (λ h.
          Joint file (record s {
            source_end = hear wind flags s.source_end (datagram reply peer);
            heard = h;
          }))
        (sym back)
        (hears-Joint s b reply rest peer j e
          (record {
            valid = v.valid;
            later = omega (arith, ap bottom_ack same);
            known = omega (arith, p.edge, j.known, ap next_of e);
          })
          v.topped (λ k h. sym (ap (λ r. is_acked r k) same) ∙ h) (newer, split'))
  Step-Joint {s} (receiver_gets newer older d peer e) j =
      let packets = IsSound-AllSent file long fits wind flags s.source_end j.sound in
      let bottom = bottom_ack (reply_of s.source_end) in
      let edge = next_of s.source_end in
      After-Joint s (next s.target_end (datagram d peer)) j (
        gets-After file long fits s.target_end d peer bottom edge j.good j.acks j.chain j.known
          (below j)
          (AllSent-append file bottom edge newer older d
            (subst (AllSent file bottom edge) e packets)))
  Step-Joint {s} receiver_waits j =
      After-Joint s (next s.target_end (errno eagain)) j (
        idles-After file long fits s.target_end (next_of s.source_end) j.good j.acks j.chain
          j.known)

  pub Reach-Joint : {first s : System} → Joint file first → Reach wind flags first s → Joint file s
  Reach-Joint j begun = j
  Reach-Joint j (later r step) = Step-Joint step (Reach-Joint j r)
