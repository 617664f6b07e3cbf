-- ===== src/FileUdp/Receiver/Tail.antt =====
-- When receiver() ends: it does as soon as it has every packet, if the last part of the file that
-- it writes has no packet or at least HARD_WIND packets. Otherwise it may wait for ever.
use tcp_labs.Base.{
  ℕ, ◌+◌, ◌≤◌, ◌<◌, ◌%◌, ◌≡◌, ◌⊎◌, inl, inr, true, false, List, [], ◌∷◌, leb, if◌then◌else◌, add64,
  Bool-cases, arith,
}
use native.Mathlib.Decide.{dec_lt}
use tcp_labs.FileUdp.Ack.{DatagramAck, bottom_ack, update}
use tcp_labs.FileUdp.Datagram.{Datagram, slots, hard_wind, packet_count}
use tcp_labs.FileUdp.Datagram.Chunks.{AllFull}
use tcp_labs.FileUdp.Udp.{SystemResult, datagram, errno}
use tcp_labs.FileUdp.Receiver.{
  Receiver, Outcome, running, finished, returned, aborted, receiver, handshake, send_reply, flush,
  accept, next, run,
}
use tcp_labs.FileUdp.Receiver.Transfer.{
  max_length, packet_count_bounds, Kept, IsReceiving, IsGood, IsPacket,
}
use tcp_labs.FileUdp.Receiver.Flush.{flush_lem}
use tcp_labs.FileUdp.Receiver.Safety.{accept_new, accept_old, taken, taken-Kept}
use tcp_labs.FileUdp.Receiver.Runs.{
  IsExpected, AllExpected, step_datagram, step_errno, handshake-IsReceiving, handshake-IsPacket,
  next-IsGood, receiver-IsReceiving, bottom_ack-datagram_ack, reply-handshake,
}

-- The packets behind the last full half of the window.
abbrev pub TailFits : ℕ → Type 0
TailFits len = (packet_count len % slots ≡ 0) ⊎ (hard_wind ≤ packet_count len % slots)

-- The loop runs while a packet is missing, and only then.
abbrev pub IsShort : ℕ → Outcome → Type 0
IsShort len (running r) = bottom_ack r.reply < packet_count len
IsShort len (finished r) = packet_count len ≤ bottom_ack r.reply
IsShort len (returned r) = packet_count len ≤ bottom_ack r.reply
IsShort len aborted = Unit {0}

pub starts :
    (len : ℕ) (awnd flags : ℕ)
    → slots ≤ packet_count len
    → bottom_ack (receiver awnd flags len).reply < packet_count len
unfolding receiver
starts len awnd flags h = omega (arith, bottom_ack-datagram_ack awnd flags)

module _ (src : ℕ → List ℕ) (len : ℕ) (full : AllFull src) (pos : 0 < len) (fits : len ≤ max_length)
    (tail : TailFits len) where
  flush-IsShort :
      (r : Receiver) → Kept src len r → r.write_edge ≤ bottom_ack r.reply → IsShort len (flush r)
  flush-IsShort r k h = elim (dec_lt (r.buffer.base + slots) (packet_count len)) [
    | yes more ↦
        let b = packet_count_bounds len pos fits in
        let stays : leb r.buffer.limit (add64 r.buffer.base slots) ≡ false =
          ground (arith, k.limit_eq) in
        rw (flush_lem src len full pos fits r k h, stays)
          (omega (arith, k.close, k.edge_eq, k.aligned, k.within, tail))
    | no last ↦
        let b = packet_count_bounds len pos fits in
        let ends : leb r.buffer.limit (add64 r.buffer.base slots) ≡ true =
          ground (arith, k.limit_eq, k.inside) in
        rw (flush_lem src len full pos fits r k h, ends) (omega (arith, h, k.edge_eq))
  ]

  accept-IsShort :
      (r : Receiver) (d : Datagram)
      → IsReceiving src len r
      → IsPacket src len r d
      → bottom_ack r.reply < packet_count len
      → IsShort len (accept r d)
  accept-IsShort r d v p h = elim (Bool-cases (update r.reply d.seq_index).1) [
    | inl new ↦ rw (accept_new src len full pos fits r v d p new) (taken-IsShort new)
    | inr old ↦ rw (accept_old src len full pos fits r v d p old) h
  ]
    where
      next_reply : DatagramAck
      next_reply = (update r.reply d.seq_index).0

      taken-IsShort :
          (update r.reply d.seq_index).1 ≡ true
          → IsShort len (
              if leb r.write_edge (bottom_ack next_reply)
              then flush (taken src len full pos fits r v d p)
              else running (send_reply (taken src len full pos fits r v d p)))
      taken-IsShort new = elim (Bool-cases (leb r.write_edge (bottom_ack next_reply))) [
        | inl reached ↦ rw reached (
            flush-IsShort (taken src len full pos fits r v d p)
              (taken-Kept src len full pos fits r v d p new) (ground arith))
        | inr below ↦ rw below (ground (arith, v.edge_eq))
      ]

  -- The invariant of the loop with a missing packet.
  abbrev IsLive : Outcome → Type 0
  IsLive o = IsGood src len o × IsShort len o

  pub next-IsShort :
      (o : Outcome) (result : SystemResult Datagram)
      → IsGood src len o
      → IsShort len o
      → IsExpected src len o result
      → IsShort len (next o result)
  unfolding next
  next-IsShort (running r) (datagram d sender) g s h = rw (step_datagram r d sender) (
      accept-IsShort (handshake r sender) d (handshake-IsReceiving src len full pos fits sender g)
        (handshake-IsPacket src len full pos fits sender h) (rw (reply-handshake r sender) s))
  next-IsShort (running r) (errno e) g s h = rw (step_errno r e h) s
  next-IsShort (finished r) (datagram d sender) g s h = s
  next-IsShort (finished r) (errno e) g s h = rw h s
  next-IsShort (returned r) result g s h = s
  next-IsShort aborted result g s h = tt

  run-IsLive :
      (o : Outcome) (results : List (SystemResult Datagram))
      → IsLive o
      → AllExpected src len o results
      → IsLive (run o results)
  unfolding run
  run-IsLive o [] g h = g
  run-IsLive o (result ∷ results) g h =
      run-IsLive (next o result) results
        (next-IsGood src len full pos fits o result g.0 h.0, next-IsShort o result g.0 g.1 h.0) h.1

  -- If the part of the file behind the last whole half of the window has no packet or at least
  -- HARD_WIND, for a file of 1 to max_length bytes that has at least SLOTS packets, and calls that
  -- time out or give packets of it, each less than HARD_WIND above the lowest number that the receiver
  -- lacks at that time (and any error while no packet has come), the loop runs only while a packet is
  -- missing, and is left only when none is.
  pub receiver_finishes :
      (awnd flags : ℕ) (results : List (SystemResult Datagram))
      → slots ≤ packet_count len
      → AllExpected src len (running (receiver awnd flags len)) results
      → IsShort len (run (running (receiver awnd flags len)) results)
  receiver_finishes awnd flags results long h =
      let v = receiver-IsReceiving src len full pos fits awnd flags long in
      (run-IsLive (running (receiver awnd flags len)) results (v, starts len awnd flags long) h).1
