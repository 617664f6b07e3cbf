-- ===== src/FileUdp/Receiver/Hang.antt =====
-- When receiver() never ends: the write of one half of the window is not followed by another test,
-- so a last part of fewer than HARD_WIND packets that came before the half was full stays unwritten.
use tcp_labs.Base.{
  ℕ, ◌+◌, ◌≤◌, ◌<◌, ◌≡◌, ◌≢◌, inl, inr, true, false, List, [], ◌∷◌, leb, ◌||◌, ◌==◌, add64,
  Bool-cases, length, arith,
}
use tcp_labs.FileUdp.Ack.{bottom_ack, is_acked, update}
use tcp_labs.FileUdp.Ack.Invariant.{update_accepted}
use tcp_labs.FileUdp.Ack.Bottom.{is_acked_lt-bottom_ack, bottom_ack_lem, update-bottom_ack}
use tcp_labs.FileUdp.Datagram.{Datagram, slots, packet_count, chunks}
use tcp_labs.FileUdp.Datagram.Chunks.{AllFull, length-chunks}
use tcp_labs.FileUdp.Udp.{SystemResult, datagram, errno}
use tcp_labs.FileUdp.Receiver.{
  Receiver, Outcome, running, send_reply, handshake, advance, accept, next, run,
}
use tcp_labs.FileUdp.Receiver.Transfer.{
  max_length, packet_count_bounds, Kept, IsReceiving, IsReceiving-other, IsPacket,
}
use tcp_labs.FileUdp.Receiver.Flush.{flush_lem, part, file_half, receiving}
use tcp_labs.FileUdp.Receiver.Safety.{accept_new, accept_old, taken, taken-Kept, small, acked}
use tcp_labs.FileUdp.Receiver.Runs.{
  IsExpected, AllExpected, step_datagram, step_errno, handshake-IsReceiving, handshake-IsPacket,
  reply-handshake, file-handshake,
}

module _ (src : ℕ → List ℕ) (len : ℕ) where
  -- A receiver in its loop that has every packet and has written no more than `file`.
  abbrev pub Waits : List ℕ → Outcome → Type 0
  Waits file o =
      (r : Receiver) × (o ≡ running r)
      × IsReceiving src len r
      × (bottom_ack r.reply ≡ packet_count len)
      × (r.file ≡ file)

module _ (src : ℕ → List ℕ) (len : ℕ) (full : AllFull src) (pos : 0 < len)
    (fits : len ≤ max_length) where
  accept-Waits :
      (file : List ℕ) (r : Receiver) (d : Datagram)
      → IsReceiving src len r
      → IsPacket src len r d
      → bottom_ack r.reply ≡ packet_count len
      → r.file ≡ file
      → Waits src len file (accept r d)
  accept-Waits file r d v p all e = elim (Bool-cases (update r.reply d.seq_index).1) [
    | inl new ↦ absurd (
        ground (
          arith,
          update_accepted d.seq_index v.acks (small src len full pos fits r v d p) new,
          is_acked_lt-bottom_ack v.acks d.seq_index,
          p.numbered,
        ))
    | inr old ↦ (
      send_reply r,
      accept_old src len full pos fits r v d p old,
      IsReceiving-other src len _ _ (r.reply ∷ r.sent) v,
      all,
      e,
    )
  ]

  next-Waits :
      (file : List ℕ) (r : Receiver) (result : SystemResult Datagram)
      → IsReceiving src len r
      → IsExpected src len (running r) result
      → bottom_ack r.reply ≡ packet_count len
      → r.file ≡ file
      → Waits src len file (next (running r) result)
  unfolding next
  next-Waits file r (datagram d sender) v h all e = rw (step_datagram r d sender) (
      accept-Waits file (handshake r sender) d
        (handshake-IsReceiving src len full pos fits sender v)
        (handshake-IsPacket src len full pos fits sender h) (rw (reply-handshake r sender) all)
        (rw (file-handshake r sender) e))
  next-Waits file r (errno e) v h all same = (r, step_errno r e h, v, all, same)

  -- Such a receiver stays in its loop and writes nothing more, whatever comes.
  run-Waits :
      (file : List ℕ) (o : Outcome) (results : List (SystemResult Datagram))
      → Waits src len file o
      → AllExpected src len o results
      → Waits src len file (run o results)
  unfolding run
  run-Waits file o [] w h = w
  run-Waits file o (result ∷ results) (r, e, v, all, same) h =
      run-Waits file (next o result) results
        (rw e (next-Waits file r result v (rw e at (h.0)) all same)) h.1

  -- In a state of a transfer in which one packet is missing, the lowest one, and the file goes on behind
  -- the half of the window at its base: when that packet comes, at most that half is written, the tail
  -- never is, and the loop never ends, for any calls that time out or give packets of the file.
  pub last_gap_hangs :
      (r : Receiver) (d : Datagram) (results : List (SystemResult Datagram))
      → IsReceiving src len r
      → IsPacket src len r d
      → d.seq_index ≡ bottom_ack r.reply
      → ((k : ℕ) → k < packet_count len → k ≢ d.seq_index → is_acked r.reply k ≡ true)
      → r.buffer.base + slots < packet_count len
      → AllExpected src len (accept r d) results
      → Waits src len (chunks src 0 (r.buffer.base + slots)) (run (accept r d) results)
        × (length (chunks src 0 (r.buffer.base + slots)) < len)
  last_gap_hangs r d results v p lowest others more h = (
    run-Waits (chunks src 0 (r.buffer.base + slots)) (accept r d) results accepted h,
    omega
        (arith, length-chunks src 0 (r.buffer.base + slots) full, packet_count_bounds len pos fits),
  )
    where
      new : (update r.reply d.seq_index).1 ≡ true
      new =
          rw lowest
            (update-bottom_ack v.acks (omega (arith, v.within, packet_count_bounds len pos fits)))

      after : Receiver
      after = taken src len full pos fits r v d p

      kept : Kept src len after
      kept = taken-Kept src len full pos fits r v d p new

      now_acked : (k : ℕ) → is_acked after.reply k ≡ (is_acked r.reply k || k == d.seq_index)
      now_acked = acked src len full pos fits r v d p new

      all : bottom_ack after.reply ≡ packet_count len
      all =
          bottom_ack_lem (packet_count len) kept.acks
            (ground (arith, now_acked (packet_count len), v.recent (packet_count len), p.numbered))
            (λ k below. ground (arith, now_acked k, others k below))

      accepted : Waits src len (chunks src 0 (r.buffer.base + slots)) (accept r d)
      accepted =
          let b = packet_count_bounds len pos fits in
          let reached : leb r.write_edge (bottom_ack after.reply) ≡ true =
            ground (arith, all, v.edge_eq) in
          let full_half : r.write_edge ≤ bottom_ack after.reply = omega (arith, all, v.edge_eq) in
          let stays : leb r.buffer.limit (add64 r.buffer.base slots) ≡ false =
            ground (arith, v.limit_eq) in
          (
            send_reply (advance after (part src len full pos fits after kept)),
            rw (accept_new src len full pos fits r v d p new, reached)
                (rw (flush_lem src len full pos fits after kept full_half, stays)),
            receiving src len full pos fits after kept more full_half,
            all,
            file_half src len full pos fits after kept more,
          )
