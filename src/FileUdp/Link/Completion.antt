-- ===== src/FileUdp/Link/Completion.antt =====
-- From every state of the two threads a transfer can be brought to its end.
use tcp_labs.Base.{
  ℕ, zero, suc, ◌+◌, ◌≤◌, ◌<◌, ◌≡◌, refl, ap, sym, ◌∙◌, inl, inr, false, List, length, leb, arith,
}
use mathlib.Core.Path.{subst}
use tcp_labs.Base.Cases.{list-cases}
use tcp_labs.FileUdp.Ack.{DatagramAck, bottom_ack}
use tcp_labs.FileUdp.Ack.Bottom.{bottom_ack-le}
use tcp_labs.FileUdp.Datagram.{packet_count}
use tcp_labs.FileUdp.Udp.{datagram, errno, eagain}
use tcp_labs.FileUdp.Receiver.{Receiver, Outcome, running, finished, returned, aborted, next}
use tcp_labs.FileUdp.Receiver.Transfer.{max_length, IsGood}
use tcp_labs.FileUdp.Receiver.Tail.{TailFits, IsShort}
use tcp_labs.FileUdp.Reading.{window_bytes}
use tcp_labs.FileUdp.Sender.{Sender, Thread, at_top, at_recv, ended, crashed, hear}
use tcp_labs.FileUdp.Sender.Source.{source, bounds, content-source}
use tcp_labs.FileUdp.Sender.Transfer.{Kept, IsSound}
use tcp_labs.FileUdp.Sender.Progress.{ends, at_head, at_call, behind, at_fault}
use tcp_labs.FileUdp.Sender.Waiting.{IsOpen, take_reply-IsOpen}
use tcp_labs.FileUdp.Link.{replies_of, System, Step, receiver_waits, start, Reach, begun, later}
use tcp_labs.FileUdp.Link.Receiving.{ack_of, next_returned, next_waiting}
use tcp_labs.FileUdp.Link.Delivery.{IsSending}
use tcp_labs.FileUdp.Link.Live.{
  Tells, Reach-trans, IsLive, Reach-IsLive, start-IsLive, lose_packets, lose_packets-IsLive,
}
use tcp_labs.FileUdp.Link.Moves.{to_recv, newest_reply}
use tcp_labs.FileUdp.Link.Advance.{advance}

-- receiver() has left its loop.
abbrev pub IsBehind : Outcome → Type 0
IsBehind (running r) = ⊥
IsBehind (finished r) = Unit {0}
IsBehind (returned r) = Unit {0}
IsBehind aborted = ⊥

-- Where receiver() stands.
data Stands (o : Outcome) : Type 0 where
  in_loop : (r : Receiver) → o ≡ running r → Stands o
  behind_loop : IsBehind o → Stands o
  failed : o ≡ aborted → Stands o

stands : (o : Outcome) → Stands o
stands (running r) = in_loop r refl
stands (finished r) = behind_loop tt
stands (returned r) = behind_loop tt
stands aborted = failed refl

abbrev pub IsEnded : Thread → Type 0
IsEnded (at_top s) = ⊥
IsEnded (at_recv s) = ⊥
IsEnded (ended s) = Unit {0}
IsEnded crashed = ⊥

-- receiver() has returned, and has written the file.
abbrev pub Delivers : List ℕ → Outcome → Type 0
Delivers file (running r) = ⊥
Delivers file (finished r) = ⊥
Delivers file (returned r) = r.file ≡ file
Delivers file aborted = ⊥

module _ (file : List ℕ) (long : window_bytes ≤ length file) (fits : length file ≤ max_length)
    (wind flags : ℕ) (tail : TailFits (length file)) where
  abbrev count : ℕ
  count = packet_count (length file)

  -- At most `n` numbers separate the receiver from the end.
  fills :
      (n : ℕ) (s : System)
      → IsLive file s
      → count ≤ bottom_ack (ack_of s.target_end) + n
      → (t : System) × Reach wind flags s t × IsBehind t.target_end
  fills zero s v near = elim (stands s.target_end) [
    | in_loop r e ↦
        let short : bottom_ack r.reply < count = subst (IsShort (length file)) e v.short in
        absurd (omega (arith, short, near, ap bottom_ack (ap ack_of e)))
    | behind_loop h ↦ (s, begun, h)
    | failed e ↦ absurd (subst (IsGood (source file) (length file)) e v.joint.good)
  ]
  fills (suc n) s v near = elim (stands s.target_end) [
    | in_loop r e ↦
        let (s1, reach1, up) = advance file long fits wind flags tail s r v e in
        let v1 = Reach-IsLive file long fits wind flags tail reach1 v in
        let (t, reach, h) = fills n s1 v1 (omega (arith, near, up, ap bottom_ack (ap ack_of e))) in
        (t, Reach-trans reach1 reach, h)
    | behind_loop h ↦ (s, begun, h)
    | failed e ↦ absurd (subst (IsGood (source file) (length file)) e v.joint.good)
  ]

  IsBehind-whole :
      (o : Outcome) → IsBehind o → IsShort (length file) o → count ≤ bottom_ack (ack_of o)
  IsBehind-whole (running r) h short = absurd h
  IsBehind-whole (finished r) h short = short
  IsBehind-whole (returned r) h short = short
  IsBehind-whole aborted h short = absurd h

  -- A reply that lacks nothing ends the thread.
  last_reply :
      (b : Sender) (reply : DatagramAck) (t : Thread)
      → t ≡ hear wind flags (at_recv b) (datagram reply 0)
      → IsSound file t
      → count ≤ bottom_ack reply
      → IsEnded t
  unfolding hear
  last_reply b reply t e sound whole =
      let open_at : IsOpen wind flags reply t =
        subst (IsOpen wind flags reply) (sym e) (take_reply-IsOpen wind flags b reply) in
      elim (ends t) [
        | at_head s at ↦
            let kept : Kept file s = subst (IsSound file) at sound in
            let lacks : leb s.max_seq_index (bottom_ack reply) ≡ false =
              subst (IsOpen wind flags reply) at open_at in
            absurd (ground (arith, lacks, whole, kept.count_eq))
        | at_call s at ↦ absurd (subst (IsOpen wind flags reply) at open_at)
        | behind s at ↦ subst IsEnded (sym at) tt
        | at_fault at ↦ absurd (subst (IsSound file) at sound)
      ]

  -- sender() has ended, and receiver() has not moved.
  record EndsAlone (s t : System) : Type 0 where
    reach : Reach wind flags s t
    over : IsEnded t.source_end
    same : t.target_end ≡ s.target_end

  -- With the receiver behind its loop, its newest reply ends sender().
  hears_last :
      (s : System)
      → IsLive file s
      → IsBehind s.target_end
      → IsSending s.source_end
      → (t : System) × EndsAlone s t
  hears_last s v h sending =
      let whole = IsBehind-whole s.target_end h v.short in
      let (t1, r1) = to_recv file long fits wind flags tail s v sending in
      let v1 = Reach-IsLive file long fits wind flags tail r1.reach v in
      elim (list-cases (replies_of s.target_end)) [
        | inl none_sent ↦
            let new : (ack_of s.target_end).main_ack ≡ 0 =
              subst (Tells (ack_of s.target_end)) none_sent v.tells in
            absurd
              (omega (arith, new, whole, bottom_ack-le v.joint.acks.valid, bounds file long fits))
        | inr (x, rest, newest) ↦
            let same : x ≡ ack_of s.target_end =
              subst (Tells (ack_of s.target_end)) newest v.tells in
            let (t2, h2) =
              newest_reply file long fits wind flags tail t1 r1.b x rest v1 r1.at_call
                (ap replies_of r1.target ∙ newest) in
            let v2 = Reach-IsLive file long fits wind flags tail h2.reach v1 in
            (
              t2,
              record {
                reach = Reach-trans r1.reach h2.reach;
                over =
                    last_reply r1.b x t2.source_end h2.source v2.joint.sound
                      (omega (arith, whole, ap bottom_ack same));
                same = h2.target ∙ r1.target;
              },
            )
      ]

  sender_ends : (s : System) → IsLive file s → IsBehind s.target_end → (t : System) × EndsAlone s t
  sender_ends s v h = elim (ends s.source_end) [
    | at_head a e ↦ hears_last s v h (subst IsSending (sym e) tt)
    | at_call a e ↦ hears_last s v h (subst IsSending (sym e) tt)
    | behind a e ↦ (s, record { reach = begun; over = subst IsEnded (sym e) tt; same = refl })
    | at_fault e ↦ absurd (subst (IsSound file) e v.joint.sound)
  ]

  -- Its time limit then ends receiver().
  returns :
      (o : Outcome)
      → IsBehind o
      → IsGood (source file) (length file) o
      → Delivers file (next o (errno eagain))
  unfolding next
  returns (running r) h g = absurd h
  returns (finished r) h g =
      subst (Delivers file) (sym (next_waiting r).1) (g ∙ content-source file long fits)
  returns (returned r) h g =
      subst (Delivers file) (sym (next_returned r (errno eagain)))
        (g ∙ content-source file long fits)
  returns aborted h g = absurd h

  ends_both :
      (s : System)
      → IsLive file s
      → (t : System) × Reach wind flags s t × IsEnded t.source_end × Delivers file t.target_end
  ends_both s v =
      let (s1, reach1, h1) = fills count s v (omega arith) in
      let v1 = Reach-IsLive file long fits wind flags tail reach1 v in
      let (s2, q) = sender_ends s1 v1 h1 in
      let step : Step wind flags s2 (record s2 { target_end = next s2.target_end (errno eagain) }) =
        receiver_waits in
      (
        record s2 { target_end = next s2.target_end (errno eagain) },
        later (Reach-trans reach1 q.reach) step,
        q.over,
        subst (λ o. Delivers file (next o (errno eagain))) (sym q.same)
            (returns s1.target_end h1 v1.joint.good),
      )

  -- For a file of at least window_bytes and at most max_length bytes, of which the part behind the
  -- last whole half of the window has no packet or at least HARD_WIND, and in every state that the
  -- two threads reach, even if every packet that is on its way is lost there, the transfer can go on
  -- to a state in which sender() and receiver() have both returned, and the receiver has written the
  -- file. The runs are those in which no reply overtakes another, and a receiving call gives what has
  -- come or times out.
  pub transfer_completes :
      (awnd ack_flags awnd' ack_flags' : ℕ) (s : System)
      → Reach wind flags (start awnd ack_flags awnd' ack_flags' file) s
      → (t : System) × Reach wind flags (lose_packets s) t
        × IsEnded t.source_end
        × Delivers file t.target_end
  transfer_completes awnd ack_flags awnd' ack_flags' s reach =
      let first = start-IsLive file long fits wind flags tail awnd ack_flags awnd' ack_flags' in
      ends_both (lose_packets s)
        (lose_packets-IsLive file s (Reach-IsLive file long fits wind flags tail reach first))
