-- ===== src/FileUdp/Receiver/Short.antt =====
-- A file of fewer than SLOTS packets: receiver() starts with its edge at SLOTS, which the packets
-- of such a file never reach.
use tcp_labs.Base.{
  ℕ, ◌%◌, ◌<◌, ◌≡◌, refl, ◌⊎◌, inl, inr, true, false, List, [], ◌∷◌, leb, ◌==◌, if◌then◌else◌,
  Bool-cases, arith,
}
use tcp_labs.FileUdp.Ack.{DatagramAck, bottom_ack, is_acked, update}
use tcp_labs.FileUdp.Ack.Invariant
use tcp_labs.FileUdp.Ack.Invariant.{
  update-IsValid, is_acked-update, datagram_ack-IsValid, is_acked-datagram_ack,
}
use tcp_labs.FileUdp.Ack.Bottom.{is_acked_lt-bottom_ack}
use tcp_labs.FileUdp.Window.{in_range, store}
use tcp_labs.FileUdp.Datagram.{Datagram, slots, packet_count}
use tcp_labs.FileUdp.Udp.{SystemResult, datagram, errno, eagain}
use tcp_labs.FileUdp.Receiver.{
  Receiver, Outcome, running, finished, returned, aborted, receiver, handshake, cells, keep, accept,
  next, run,
}
use tcp_labs.FileUdp.Receiver.Runs.{step_datagram, step_errno}

-- Still in the loop, with nothing written.
abbrev pub NothingWritten : Outcome → Type 0
NothingWritten o = (r : Receiver) × (o ≡ running r) × (r.file ≡ [])

module _ (len : ℕ) where
  -- A packet with one of the file's numbers, whatever it carries, or the time limit.
  abbrev pub IsNumbered : Outcome → SystemResult Datagram → Type 0
  IsNumbered (running r) (datagram d sender) = d.seq_index < packet_count len
  IsNumbered (running r) (errno e) = (r.is_first_recv ≡ true) ⊎ (e ≡ eagain)
  IsNumbered (finished r) result = Unit {0}
  IsNumbered (returned r) result = Unit {0}
  IsNumbered aborted result = Unit {0}

  abbrev pub AllNumbered : Outcome → List (SystemResult Datagram) → Type 0
  AllNumbered o [] = Unit {0}
  AllNumbered o (result ∷ results) = IsNumbered o result × AllNumbered (next o result) results

module _ (len : ℕ) (short : packet_count len < slots) where
  record Idle (r : Receiver) : Type 0 where
    limit_eq : r.buffer.limit ≡ packet_count len
    base_eq : r.buffer.base ≡ 0
    edge_eq : r.write_edge ≡ slots
    acks : Invariant.IsValid r.reply
    recent : (k : ℕ) → is_acked r.reply k ≡ true → k < packet_count len
    written : r.file ≡ []

  abbrev IsIdle : Outcome → Type 0
  IsIdle o = (r : Receiver) × (o ≡ running r) × Idle r

  module _ (r : Receiver) (d : Datagram) (v : Idle r) (h : d.seq_index < packet_count len) where
    open r use {buffer}

    abbrev reply : DatagramAck
    reply = (update r.reply d.seq_index).0

    abbrev still : (ℕ → List ℕ) → List DatagramAck → Receiver
    still held sent = record r {
      reply = reply;
      buffer = record buffer { cells = held };
      sent = sent;
    }

    recent-update : (k : ℕ) → is_acked reply k ≡ true → k < packet_count len
    recent-update k a =
        ground (arith, is_acked-update d.seq_index v.acks (omega arith) k, v.recent k)

    still-Idle : (held : ℕ → List ℕ) (sent : List DatagramAck) → Idle (still held sent)
    still-Idle held sent = record {
      limit_eq = v.limit_eq;
      base_eq = v.base_eq;
      edge_eq = v.edge_eq;
      acks = update-IsValid d.seq_index v.acks (omega arith);
      recent = recent-update;
      written = v.written;
    }

    below_edge : leb r.write_edge (bottom_ack reply) ≡ false
    below_edge =
        let acks = update-IsValid d.seq_index v.acks (omega arith) in
        ground (
          arith,
          v.edge_eq,
          is_acked_lt-bottom_ack acks (packet_count len),
          recent-update (packet_count len),
        )

    numbered : in_range cells buffer d.seq_index ≡ true
    unfolding in_range
    numbered = ground (arith, v.base_eq, v.limit_eq)

    abbrev held : ℕ → List ℕ
    held cell = if cell == d.seq_index % cells then d.payload else buffer.cells cell

    accept_new :
        (update r.reply d.seq_index).1 ≡ true → accept r d ≡ running (still held (reply ∷ r.sent))
    unfolding accept keep store
    accept_new new = rw new (rw (numbered, keep) (rw (below_edge, keep)))

    accept_old :
        (update r.reply d.seq_index).1 ≡ false
        → accept r d ≡ running (still buffer.cells (reply ∷ r.sent))
    unfolding accept
    accept_old old = rw old

    accept-IsIdle : IsIdle (accept r d)
    accept-IsIdle = elim (Bool-cases (update r.reply d.seq_index).1) [
      | inl new ↦ (still held (reply ∷ r.sent), accept_new new, still-Idle held (reply ∷ r.sent))
      | inr old ↦ (
        still buffer.cells (reply ∷ r.sent),
        accept_old old,
        still-Idle buffer.cells (reply ∷ r.sent),
      )
    ]

  handshake-Idle : (r : Receiver) (sender : ℕ) → Idle r → Idle (handshake r sender)
  unfolding handshake
  handshake-Idle r sender v = elim (Bool-cases r.is_first_recv) [
    | inl first ↦ rw first (record {
      limit_eq = v.limit_eq;
      base_eq = v.base_eq;
      edge_eq = v.edge_eq;
      acks = v.acks;
      recent = v.recent;
      written = v.written;
    })
    | inr later ↦ simp later v
  ]

  next-IsIdle :
      (r : Receiver) (result : SystemResult Datagram)
      → Idle r
      → IsNumbered len (running r) result
      → IsIdle (next (running r) result)
  unfolding next
  next-IsIdle r (datagram d sender) v h =
      rw (step_datagram r d sender)
        (accept-IsIdle (handshake r sender) d (handshake-Idle r sender v) h)
  next-IsIdle r (errno e) v h = (r, step_errno r e h, v)

  run-NothingWritten :
      (o : Outcome) (results : List (SystemResult Datagram))
      → IsIdle o
      → AllNumbered len o results
      → NothingWritten (run o results)
  unfolding run
  run-NothingWritten o [] (r, e, v) h = (r, e, v.written)
  run-NothingWritten o (result ∷ results) (r, e, v) h =
      run-NothingWritten (next o result) results (rw e (next-IsIdle r result v (rw e at (h.0)))) h.1

  receiver-Idle : (awnd flags : ℕ) → Idle (receiver awnd flags len)
  unfolding receiver
  receiver-Idle awnd flags = record {
    limit_eq = refl;
    base_eq = refl;
    edge_eq = refl;
    acks = datagram_ack-IsValid awnd flags;
    recent = λ k a. absurd (ground (arith, is_acked-datagram_ack awnd flags k));
    written = refl;
  }

  -- Whatever packets of a file of fewer than SLOTS packets come, receiver() writes nothing and never leaves its loop.
  pub short_file_hangs :
      (awnd flags : ℕ) (results : List (SystemResult Datagram))
      → AllNumbered len (running (receiver awnd flags len)) results
      → NothingWritten (run (running (receiver awnd flags len)) results)
  short_file_hangs awnd flags results h =
      run-NothingWritten (running (receiver awnd flags len)) results
        (receiver awnd flags len, refl, receiver-Idle awnd flags) h
