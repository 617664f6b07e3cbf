-- ===== src/FileUdp/Link/Live.antt =====
-- What holds of a transfer that can end: the invariant of both ends, a loop of receiver() that runs
-- while a packet is missing, and a newest reply that says what the receiver has.
use tcp_labs.Base.{ℕ, ◌≤◌, ◌≡◌, refl, sym, List, [], ◌∷◌, length, arith}
use mathlib.Core.Path.{subst}
use tcp_labs.FileUdp.Ack.{DatagramAck, datagram_ack, update}
use tcp_labs.FileUdp.Datagram.{Datagram}
use tcp_labs.FileUdp.Udp.{datagram, errno, eagain}
use tcp_labs.FileUdp.Receiver.{Outcome, running, finished, returned, aborted, receiver, next}
use tcp_labs.FileUdp.Receiver.Transfer.{max_length}
use tcp_labs.FileUdp.Receiver.Tail.{TailFits, IsShort, starts}
use tcp_labs.FileUdp.Reading.{window_bytes}
use tcp_labs.FileUdp.Sender.{Thread, at_top, at_recv, ended, crashed}
use tcp_labs.FileUdp.Sender.Source.{bounds}
use tcp_labs.FileUdp.Sender.Transfer.{Kept-other, IsSound}
use tcp_labs.FileUdp.Link.{
  replies_of, System, Step, sender_goes, sender_waits, sender_hears, sender_hears_again,
  receiver_gets, receiver_waits, start, Reach, begun, later,
}
use tcp_labs.FileUdp.Link.Receiving.{
  ack_of, Replied, next-Replied, next_finished, next_returned, next_waiting,
}
use tcp_labs.FileUdp.Sender.Tracking.{IsTracked}
use tcp_labs.FileUdp.Link.Sending.{reply_of, next_of}
use tcp_labs.FileUdp.Link.Invariant.{Joint, Sees}
use tcp_labs.FileUdp.Link.Steps.{start-Joint, Step-Joint}
use tcp_labs.FileUdp.Link.Delivery.{Step-IsShort}

-- The newest reply has what the receiver has; without one it has nothing.
abbrev pub Tells : DatagramAck → List DatagramAck → Type 0
Tells a [] = a.main_ack ≡ 0
Tells a (b ∷ rest) = b ≡ a

pub Reach-trans :
    {wind flags : ℕ} {s t u : System}
    → Reach wind flags s t
    → Reach wind flags t u
    → Reach wind flags s u
Reach-trans r begun = r
Reach-trans r (later q step) = later (Reach-trans r q) step

module _ (file : List ℕ) where
  pub record IsLive (s : System) : Type 0 where
    pub joint : Joint file s
    pub short : IsShort (length file) s.target_end
    pub tells : Tells (ack_of s.target_end) (replies_of s.target_end)

Replied-Tells :
    (a : DatagramAck) (sent : List DatagramAck) (o : Outcome)
    → Replied a sent o
    → Tells (ack_of o) (replies_of o)
unfolding datagram_ack
Replied-Tells a sent (running r) (e, f) = subst (Tells r.reply) (sym f) (sym e)
Replied-Tells a sent (finished r) (e, f) = subst (Tells r.reply) (sym f) (sym e)
Replied-Tells a sent (returned r) (e, f) = subst (Tells r.reply) (sym f) (sym e)
Replied-Tells a sent aborted h = refl

abbrev TellsOf : Outcome → Type 0
TellsOf o = Tells (ack_of o) (replies_of o)

gets-Tells :
    (o : Outcome) (d : Datagram) (peer : ℕ) → TellsOf o → TellsOf (next o (datagram d peer))
unfolding next
gets-Tells (running r) d peer h =
    Replied-Tells (update r.reply d.seq_index).0 r.sent (next (running r) (datagram d peer))
      (next-Replied r d peer)
gets-Tells (finished r) d peer h = subst TellsOf (sym (next_finished r d peer)) refl
gets-Tells (returned r) d peer h = subst TellsOf (sym (next_returned r (datagram d peer))) h
gets-Tells aborted d peer h = h

waits-Tells : (o : Outcome) → TellsOf o → TellsOf (next o (errno eagain))
unfolding next
waits-Tells (running r) h = subst TellsOf (sym (next_waiting r).0) h
waits-Tells (finished r) h = subst TellsOf (sym (next_waiting r).1) h
waits-Tells (returned r) h = subst TellsOf (sym (next_returned r (errno eagain))) h
waits-Tells aborted h = h

module _ (file : List ℕ) (long : window_bytes ≤ length file) (fits : length file ≤ max_length)
    (wind flags : ℕ) (tail : TailFits (length file)) where
  Step-Tells : {s t : System} → Step wind flags s t → TellsOf s.target_end → TellsOf t.target_end
  Step-Tells sender_goes h = h
  Step-Tells sender_waits h = h
  Step-Tells (sender_hears newer skipped reply peer e back) h = h
  Step-Tells (sender_hears_again reply rest peer e back) h = h
  Step-Tells {s} (receiver_gets newer older d peer e) h = gets-Tells s.target_end d peer h
  Step-Tells {s} receiver_waits h = waits-Tells s.target_end h

  pub Step-IsLive : {s t : System} → Step wind flags s t → IsLive file s → IsLive file t
  Step-IsLive step v = record {
    joint = Step-Joint file long fits wind flags step v.joint;
    short = Step-IsShort file long fits wind flags 0 0 0 0 tail step v.joint v.short;
    tells = Step-Tells step v.tells;
  }

  pub Reach-IsLive : {s t : System} → Reach wind flags s t → IsLive file s → IsLive file t
  Reach-IsLive begun v = v
  Reach-IsLive (later r step) v = Step-IsLive step (Reach-IsLive r v)

  pub start-IsLive :
      (awnd ack_flags awnd' ack_flags' : ℕ)
      → IsLive file (start awnd ack_flags awnd' ack_flags' file)
  unfolding receiver datagram_ack
  start-IsLive awnd ack_flags awnd' ack_flags' = record {
    joint = start-Joint file long fits wind flags awnd ack_flags awnd' ack_flags';
    short = starts (length file) awnd' ack_flags' (omega (arith, bounds file long fits));
    tells = refl;
  }

-- Every packet that is on its way is lost.
abbrev pub forget : Thread → Thread
forget (at_top s) = at_top (record s { sent = [] })
forget (at_recv s) = at_recv (record s { sent = [] })
forget (ended s) = ended (record s { sent = [] })
forget crashed = crashed

abbrev pub lose_packets : System → System
lose_packets s = record s { source_end = forget s.source_end }

forget-IsSound : (file : List ℕ) (t : Thread) → IsSound file t → IsSound file (forget t)
forget-IsSound file (at_top s) k = Kept-other file s.lost_queue s.is_timeout [] k k.queued tt
forget-IsSound file (at_recv s) k = Kept-other file s.lost_queue s.is_timeout [] k k.queued tt
forget-IsSound file (ended s) k = (tt, k.1)
forget-IsSound file crashed k = k

forget_same :
    (t : Thread)
    → (reply_of (forget t) ≡ reply_of t)
      × (next_of (forget t) ≡ next_of t)
      × (IsTracked t → IsTracked (forget t))
forget_same (at_top s) = (refl, refl, λ h. h)
forget_same (at_recv s) = (refl, refl, λ h. h)
forget_same (ended s) = (refl, refl, λ h. h)
forget_same crashed = (refl, refl, λ h. h)

pub lose_packets-IsLive :
    (file : List ℕ) (s : System) → IsLive file s → IsLive file (lose_packets s)
lose_packets-IsLive file s v =
    let (same, number, tracked) = forget_same s.source_end in
    record {
      joint = record {
        sound = forget-IsSound file s.source_end v.joint.sound;
        good = v.joint.good;
        acks = v.joint.acks;
        chain = v.joint.chain;
        passed = v.joint.passed;
        seen = subst (λ t. Sees t s.heard) (sym same) v.joint.seen;
        tracked = tracked v.joint.tracked;
        known = omega (arith, v.joint.known, number);
      };
      short = v.short;
      tells = v.tells;
    }
