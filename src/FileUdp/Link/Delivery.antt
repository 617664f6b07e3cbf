-- ===== src/FileUdp/Link/Delivery.antt =====
-- What a transfer from sender() to receiver() delivers, over every run of the two threads.
use tcp_labs.Base.{ℕ, ◌*◌, ◌≤◌, ◌≡◌, refl, ap, ◌∙◌, ◌⊎◌, inl, inr, List, length, take, arith}
use mathlib.Core.Path.{subst}
use tcp_labs.FileUdp.Ack.{bottom_ack}
use tcp_labs.FileUdp.Datagram.{Datagram, single_length}
use tcp_labs.FileUdp.Udp.{datagram, errno, eagain}
use tcp_labs.FileUdp.Receiver.{Outcome, running, finished, returned, aborted}
use tcp_labs.FileUdp.Receiver.Transfer.{max_length, IsGood}
use tcp_labs.FileUdp.Receiver.Runs.{IsExpected}
use tcp_labs.FileUdp.Receiver.Tail.{TailFits, IsShort, starts, next-IsShort}
use tcp_labs.FileUdp.Reading.{window_bytes}
use tcp_labs.FileUdp.Sender.{Thread, at_top, at_recv, ended, crashed}
use tcp_labs.FileUdp.Sender.Source.{
  source, source-AllFull, bounds, chunks-source, content-source, drop_zero,
}
use tcp_labs.FileUdp.Sender.Transfer.{packets_of, IsSent, AllSent, AllSent-mono, IsSound}
use tcp_labs.FileUdp.Sender.Tracking.{IsTracked}
use tcp_labs.FileUdp.Link.{
  System, Step, sender_goes, sender_waits, sender_hears, sender_hears_again, receiver_gets,
  receiver_waits, start, Reach, begun, later,
}
use tcp_labs.FileUdp.Link.Receiving.{ack_of}
use tcp_labs.FileUdp.Link.Sending.{reply_of, next_of, IsSound-AllSent}
use tcp_labs.FileUdp.Link.Invariant.{AllSent-append, Joint}
use tcp_labs.FileUdp.Link.Steps.{below, start-Joint, Reach-Joint}

-- No assertion of sender() has failed.
abbrev pub IsAlive : Thread → Type 0
IsAlive (at_top s) = Unit {0}
IsAlive (at_recv s) = Unit {0}
IsAlive (ended s) = Unit {0}
IsAlive crashed = ⊥

-- sender() is in its loop.
abbrev pub IsSending : Thread → Type 0
IsSending (at_top s) = Unit {0}
IsSending (at_recv s) = Unit {0}
IsSending (ended s) = ⊥
IsSending crashed = ⊥

-- What receiver() has written: in its loop the bytes before its window, behind it the file.
abbrev pub HasPart : List ℕ → Outcome → Type 0
HasPart file (running r) = r.file ≡ take (single_length * r.buffer.base) file
HasPart file (finished r) = r.file ≡ file
HasPart file (returned r) = r.file ≡ file
HasPart file aborted = ⊥

abbrev pub HasWhole : List ℕ → Outcome → Type 0
HasWhole file (running r) = ⊥
HasWhole file (finished r) = r.file ≡ file
HasWhole file (returned r) = r.file ≡ file
HasWhole file aborted = ⊥

module _ (file : List ℕ) (long : window_bytes ≤ length file) (fits : length file ≤ max_length)
    (wind flags awnd ack_flags awnd' ack_flags' : ℕ) where
  abbrev first : System
  first = start awnd ack_flags awnd' ack_flags' file

  joint : {s : System} → Reach wind flags first s → Joint file s
  joint r =
      Reach-Joint file long fits wind flags
        (start-Joint file long fits wind flags awnd ack_flags awnd' ack_flags') r

  IsSound-IsAlive : (t : Thread) → IsSound file t → IsAlive t
  IsSound-IsAlive (at_top s) h = tt
  IsSound-IsAlive (at_recv s) h = tt
  IsSound-IsAlive (ended s) h = tt
  IsSound-IsAlive crashed h = h

  IsGood-HasPart : (o : Outcome) → IsGood (source file) (length file) o → HasPart file o
  IsGood-HasPart (running r) g =
      g.written
      ∙ chunks-source file long fits 0 r.buffer.base
          (omega (arith, g.inside, bounds file long fits))
      ∙ ap (take (single_length * r.buffer.base)) (drop_zero file)
  IsGood-HasPart (finished r) g = g ∙ content-source file long fits
  IsGood-HasPart (returned r) g = g ∙ content-source file long fits
  IsGood-HasPart aborted g = g

  -- For a file of at least window_bytes and at most max_length bytes, in every state that the two
  -- threads reach while packets are lost, repeated and reordered, replies are lost and the last one
  -- repeated, and a receiving call gives what has come or times out, no assertion of either thread has failed, the receiver has written the bytes of
  -- the file before its window while its loop runs, and the whole file behind its loop.
  pub transfer_safe :
      (s : System) → Reach wind flags first s → IsAlive s.source_end × HasPart file s.target_end
  transfer_safe s r =
      let j = joint r in (IsSound-IsAlive s.source_end j.sound, IsGood-HasPart s.target_end j.good)

  -- For such a file and such runs, every number below `main_ack` of the last reply of sender() that
  -- this reply does not acknowledge waits in the queue, while sender() is in its loop.
  pub missing-IsTracked : (s : System) → Reach wind flags first s → IsTracked s.source_end
  missing-IsTracked s r = (joint r).tracked

  -- For such a file and such runs, every packet that sender() has sent is one of the file with its
  -- bytes, below the next number to be sent, and less than HARD_WIND above the lowest number that the
  -- receiver lacks.
  pub packets_of-AllSent :
      (s : System)
      → Reach wind flags first s
      → AllSent file
          (bottom_ack (ack_of s.target_end))
          (next_of s.source_end)
          (packets_of s.source_end)
  packets_of-AllSent s r =
      let j = joint r in
      AllSent-mono file (bottom_ack (reply_of s.source_end)) (bottom_ack (ack_of s.target_end))
        (next_of s.source_end) (next_of s.source_end) (packets_of s.source_end)
        (below file long fits wind flags j) (omega arith)
        (IsSound-AllSent file long fits wind flags s.source_end j.sound)

  module _ (tail : TailFits (length file)) where
    gets :
        (o : Outcome) (d : Datagram) (peer bottom edge : ℕ)
        → bottom ≤ bottom_ack (ack_of o)
        → IsSent file bottom edge d
        → IsExpected (source file) (length file) o (datagram d peer)
    gets (running r) d peer bottom edge low sent = record {
      numbered = sent.numbered;
      in_window = omega (arith, sent.in_window);
      carries = sent.carries;
    }
    gets (finished r) d peer bottom edge low sent = tt
    gets (returned r) d peer bottom edge low sent = tt
    gets aborted d peer bottom edge low sent = tt

    idles : (o : Outcome) → IsExpected (source file) (length file) o (errno eagain)
    idles (running r) = inr refl
    idles (finished r) = refl
    idles (returned r) = tt
    idles aborted = tt

    pub Step-IsShort :
        {s t : System}
        → Step wind flags s t
        → Joint file s
        → IsShort (length file) s.target_end
        → IsShort (length file) t.target_end
    Step-IsShort sender_goes j h = h
    Step-IsShort sender_waits j h = h
    Step-IsShort (sender_hears newer skipped reply peer e back) j h = h
    Step-IsShort (sender_hears_again reply rest peer e back) j h = h
    Step-IsShort {s} (receiver_gets newer older d peer e) j h =
        let bottom = bottom_ack (reply_of s.source_end) in
        let edge = next_of s.source_end in
        let sent = AllSent-append file bottom edge newer older d (
          subst (AllSent file bottom edge) e
            (IsSound-AllSent file long fits wind flags s.source_end j.sound)) in
        next-IsShort (source file) (length file) (source-AllFull file long fits) (omega arith) fits
          tail s.target_end (datagram d peer) j.good h
          (gets s.target_end d peer bottom edge (below file long fits wind flags j) sent)
    Step-IsShort {s} receiver_waits j h =
        next-IsShort (source file) (length file) (source-AllFull file long fits) (omega arith) fits
          tail s.target_end (errno eagain) j.good h (idles s.target_end)

    Reach-IsShort : {s : System} → Reach wind flags first s → IsShort (length file) s.target_end
    Reach-IsShort begun =
        starts (length file) awnd' ack_flags' (omega (arith, bounds file long fits))
    Reach-IsShort (later r step) = Step-IsShort step (joint r) (Reach-IsShort r)

    pub has_every :
        (t : Thread) (o : Outcome)
        → IsSound file t
        → IsGood (source file) (length file) o
        → IsShort (length file) o
        → bottom_ack (reply_of t) ≤ bottom_ack (ack_of o)
        → IsSending t ⊎ HasWhole file o
    has_every (at_top s) o k g h low = inl tt
    has_every (at_recv s) o k g h low = inl tt
    has_every (ended s) (running r) k g h low = absurd (omega (arith, k.1))
    has_every (ended s) (finished r) k g h low = inr (IsGood-HasPart (finished r) g)
    has_every (ended s) (returned r) k g h low = inr (IsGood-HasPart (returned r) g)
    has_every (ended s) aborted k g h low = absurd g
    has_every crashed o k g h low = absurd k

    -- For such a file and such runs, if the part of the file behind its last whole half of the window
    -- has no packet or at least HARD_WIND, sender() is in its loop until the receiver has written
    -- the whole file and left its own loop.
    pub sender_outlasts :
        (s : System)
        → Reach wind flags first s
        → IsSending s.source_end ⊎ HasWhole file s.target_end
    sender_outlasts s r =
        let j = joint r in
        has_every s.source_end s.target_end j.sound j.good (Reach-IsShort r)
          (below file long fits wind flags j)
