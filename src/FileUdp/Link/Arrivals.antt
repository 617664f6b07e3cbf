-- ===== src/FileUdp/Link/Arrivals.antt =====
-- What a result of its receiving call leaves of receiver() in a transfer.
use tcp_labs.Base.{ℕ, ◌≤◌, ◌<◌, ◌≡◌, refl, ap, sym, List, [], ◌∷◌, ◌++◌, length, arith}
use mathlib.Core.Path.{subst}
use tcp_labs.FileUdp.Ack.{DatagramAck, inactive, bottom_ack, update}
use tcp_labs.FileUdp.Datagram.{Datagram}
use tcp_labs.FileUdp.Datagram.Chunks.{AllFull}
use tcp_labs.FileUdp.Udp.{datagram, errno, eagain}
use tcp_labs.FileUdp.Receiver.{Outcome, running, finished, returned, aborted, next}
use tcp_labs.FileUdp.Receiver.Transfer.{max_length, packet_count_bounds, IsGood, IsPacket}
use tcp_labs.FileUdp.Receiver.Runs.{next-IsGood}
use tcp_labs.FileUdp.Reading.{window_bytes}
use tcp_labs.FileUdp.Sender.Source.{source, source-AllFull}
use tcp_labs.FileUdp.Sender.Transfer.{IsSent}
use tcp_labs.FileUdp.Link.{replies_of}
use tcp_labs.FileUdp.Link.Receiving.{
  ack_of, Precedes-refl, IsReport, update-IsReport, Replied, next-Replied, next_finished,
  next_returned, next_waiting, update-Precedes,
}
use tcp_labs.FileUdp.Link.Invariant.{Chain, Chain-mono}

module _ (file : List ℕ) (long : window_bytes ≤ length file) (fits : length file ≤ max_length) where
  abbrev full : AllFull (source file)
  full = source-AllFull file long fits

  -- What a result leaves of the receiver.
  pub record After (edge : ℕ) (o o' : Outcome) : Type 0 where
    pub good : IsGood (source file) (length file) o'
    pub acks : IsReport (ack_of o')
    pub chain : Chain (ack_of o') (replies_of o')
    pub grown : (newer : List DatagramAck) × (replies_of o' ≡ newer ++ replies_of o)
    pub later_ : bottom_ack (ack_of o) ≤ bottom_ack (ack_of o')
    pub known : (ack_of o').main_ack ≤ edge

  pub replied_lem :
      (a : DatagramAck) (sent : List DatagramAck) (o : Outcome)
      → Replied a sent o
      → IsGood (source file) (length file) o
      → (ack_of o ≡ a) × (replies_of o ≡ a ∷ sent)
  replied_lem a sent (running r) h g = h
  replied_lem a sent (finished r) h g = h
  replied_lem a sent (returned r) h g = h
  replied_lem a sent aborted h g = absurd g

  stays :
      (edge : ℕ) (o : Outcome)
      → IsGood (source file) (length file) o
      → IsReport (ack_of o)
      → Chain (ack_of o) (replies_of o)
      → (ack_of o).main_ack ≤ edge
      → After edge o o
  stays edge o g v c known = record {
    good = g;
    acks = v;
    chain = c;
    grown = ([], refl);
    later_ = omega arith;
    known = known;
  }

  -- A packet that was sent reaches a receiver that is at least as far as the sender knows.
  pub gets-After :
      (o : Outcome) (d : Datagram) (peer bottom edge : ℕ)
      → IsGood (source file) (length file) o
      → IsReport (ack_of o)
      → Chain (ack_of o) (replies_of o)
      → (ack_of o).main_ack ≤ edge
      → bottom ≤ bottom_ack (ack_of o)
      → IsSent file bottom edge d
      → After edge o (next o (datagram d peer))
  gets-After (running r) d peer bottom edge g v c known low sent =
      let small : d.seq_index < inactive =
        omega (arith, sent.numbered, packet_count_bounds (length file) (omega arith) fits) in
      let u = (update r.reply d.seq_index).0 in
      let (grows, reach) = update-Precedes r.reply d.seq_index edge v.valid small sent.old known in
      let packet : IsPacket (source file) (length file) r d = record {
        numbered = sent.numbered;
        in_window = omega (arith, sent.in_window);
        carries = sent.carries;
      } in
      let good' =
        next-IsGood (source file) (length file) full (omega arith) fits (running r)
          (datagram d peer) g packet in
      let (ack, replies) =
        replied_lem u r.sent (next (running r) (datagram d peer)) (next-Replied r d peer) good' in
      record {
        good = good';
        acks = subst IsReport (sym ack) (update-IsReport d.seq_index v small);
        chain =
            subst (λ a. Chain a (replies_of (next (running r) (datagram d peer)))) (sym ack)
              (subst (Chain u) (sym replies) (
                Precedes-refl u,
                update-IsReport d.seq_index v small,
                Chain-mono r.reply u r.sent grows c,
              ));
        grown = (u ∷ [], replies);
        later_ = omega (arith, grows.bottom, ap bottom_ack ack);
        known = omega (arith, reach, ap (λ a. a.main_ack) ack);
      }
  gets-After (finished r) d peer bottom edge g v c known low sent =
      subst (After edge (finished r)) (sym (next_finished r d peer)) (record {
        good = g;
        acks = v;
        chain = (Precedes-refl r.reply, v, c);
        grown = (r.reply ∷ [], refl);
        later_ = omega arith;
        known = known;
      })
  gets-After (returned r) d peer bottom edge g v c known low sent =
      subst (After edge (returned r)) (sym (next_returned r (datagram d peer)))
        (stays edge (returned r) g v c known)
  gets-After aborted d peer bottom edge g v c known low sent = absurd g

  pub idles-After :
      (o : Outcome) (edge : ℕ)
      → IsGood (source file) (length file) o
      → IsReport (ack_of o)
      → Chain (ack_of o) (replies_of o)
      → (ack_of o).main_ack ≤ edge
      → After edge o (next o (errno eagain))
  idles-After (running r) edge g v c known =
      subst (After edge (running r)) (sym (next_waiting r).0) (stays edge (running r) g v c known)
  idles-After (finished r) edge g v c known =
      subst (After edge (finished r)) (sym (next_waiting r).1) (record {
        good = g;
        acks = v;
        chain = c;
        grown = ([], refl);
        later_ = omega arith;
        known = known;
      })
  idles-After (returned r) edge g v c known =
      subst (After edge (returned r)) (sym (next_returned r (errno eagain)))
        (stays edge (returned r) g v c known)
  idles-After aborted edge g v c known = absurd g
