-- ===== src/FileUdp/Receiver/Safety.antt =====
-- receiver() takes the packets of one file: no assertion fails, and what it writes is the file.
use tcp_labs.Base.{
  ℕ, ◌+◌, ◌%◌, ◌≤◌, ◌<◌, ◌≡◌, ◌≢◌, inl, inr, true, false, List, ◌∷◌, some, leb, ◌==◌, if◌then◌else◌,
  ◌||◌, arith, Bool-cases,
}
use native.Mathlib.Decide.{ℕ_discrete}
use tcp_labs.FileUdp.Ack.{inactive, bottom_ack, is_acked, update}
use tcp_labs.FileUdp.Ack.Invariant
use tcp_labs.FileUdp.Ack.Invariant.{
  update-IsValid, update_rejected, update_accepted, is_acked-update,
}
use tcp_labs.FileUdp.Ack.Bottom.{
  is_acked_lt-bottom_ack, bottom_ack-le_of_missing, bottom_ack-le-update,
}
use tcp_labs.FileUdp.Window.{in_range, store}
use tcp_labs.FileUdp.Datagram.{Datagram, hard_wind, packet_count}
use tcp_labs.FileUdp.Datagram.Chunks.{AllFull}
use tcp_labs.FileUdp.Receiver.{flush, send_reply, running, Receiver, cells, keep, accept}
use tcp_labs.FileUdp.Receiver.Transfer.{
  max_length, packet_count_bounds, Kept, Kept-other, IsReceiving-other, IsReceiving, IsGood,
  IsPacket,
}
use tcp_labs.FileUdp.Receiver.Flush.{flush-IsGood}

module _ (src : ℕ → List ℕ) (len : ℕ) (full : AllFull src) (pos : 0 < len) (fits : len ≤ max_length)
    (r : Receiver) (v : IsReceiving src len r) (d : Datagram) (p : IsPacket src len r d) where
  open r use {buffer, reply, write_edge}
  open d use {seq_index, payload}

  -- the variables behind a store
  abbrev pub taken : Receiver
  taken = record r {
    reply = (update reply seq_index).0;
    buffer = record buffer {
      cells = λ cell. if cell == seq_index % cells then payload else buffer.cells cell;
    };
  }

  pub small : seq_index < inactive
  small = omega (arith, p.numbered, packet_count_bounds len pos fits)

  abbrev pub before : ℕ
  before = bottom_ack reply

  abbrev pub after : ℕ
  after = bottom_ack (update reply seq_index).0

  module _ (new : (update reply seq_index).1 ≡ true) where
    pub missing : is_acked reply seq_index ≡ false
    missing = update_accepted seq_index v.acks small new

    pub low : before ≤ seq_index
    low = bottom_ack-le_of_missing seq_index v.acks missing

    in_range-taken : in_range cells buffer seq_index ≡ true
    unfolding in_range
    in_range-taken =
        ground
          (arith, low, v.kept, v.behind, p.in_window, p.numbered, packet_count_bounds len pos fits)

    pub acked : (k : ℕ) → is_acked taken.reply k ≡ (is_acked reply k || k == seq_index)
    acked k = ground (arith, is_acked-update seq_index v.acks small k)

    pub next_acks : Invariant.IsValid taken.reply
    next_acks = update-IsValid seq_index v.acks small

    pub after_bounds : (before ≤ after) × (after ≤ before + hard_wind) × (after ≤ packet_count len)
    after_bounds =
        let over = is_acked_lt-bottom_ack next_acks (bottom_ack reply + hard_wind) in
        let end = is_acked_lt-bottom_ack next_acks (packet_count len) in
        (
          bottom_ack-le-update seq_index v.acks small,
          ground (
            arith,
            over,
            acked (bottom_ack reply + hard_wind),
            v.recent (bottom_ack reply + hard_wind),
            p.in_window,
          ),
          ground (arith, end, acked (packet_count len), v.recent (packet_count len), p.numbered),
        )

    if_same : taken.buffer.cells (seq_index % cells) ≡ payload
    if_same = ground arith

    -- Two numbers in the window do not share a cell.
    other_cell :
        (k : ℕ)
        → k ≢ seq_index
        → (k < packet_count len) × (k < before + hard_wind)
        → buffer.base ≤ k
        → k % cells ≢ seq_index % cells
    other_cell k ne near h same = ground (arith, low, v.kept, v.behind, p.in_window, p.numbered)

    pub taken-Kept : Kept src len taken
    taken-Kept = record {
      length_eq = v.length_eq;
      count_eq = v.count_eq;
      limit_eq = v.limit_eq;
      edge_eq = v.edge_eq;
      aligned = v.aligned;
      inside = v.inside;
      acks = next_acks;
      reached = omega (arith, v.reached, after_bounds);
      within = after_bounds.2;
      close = ground (arith, after_bounds, v.behind, v.kept, missing, low, p.numbered);
      recent = λ k a. ground (arith, acked k, v.recent k, p.in_window, p.numbered, after_bounds);
      buffered = λ k a h. elim (ℕ_discrete k seq_index) [
        | yes e ↦ rw (e, if_same) (p.carries)
        | no ne ↦
            let old : is_acked reply k ≡ true = ground (arith, acked k) in
            let apart : k % cells ≢ seq_index % cells =
              λ same. other_cell k ne (v.recent k old) h same in
            ground (arith, v.buffered k old h)
      ];
      written = v.written;
    }

    store-taken : store cells buffer seq_index payload ≡ some taken.buffer
    unfolding store
    store-taken = rw in_range-taken

    -- The round, with the packet stored.
    pub accept_new :
        accept r d ≡ (if leb write_edge after then flush taken else running (send_reply taken))
    unfolding accept keep
    accept_new = rw new (rw (store-taken, keep))

    taken-IsGood :
        IsGood src len (if leb write_edge after then flush taken else running (send_reply taken))
    taken-IsGood = elim (Bool-cases (leb write_edge after)) [
      | inl reached ↦
          rw reached (flush-IsGood src len full pos fits taken taken-Kept (ground arith))
      | inr below ↦ rw below (record {
        kept = Kept-other src len _ _ (taken.reply ∷ r.sent) taken-Kept;
        behind = inl (ground arith);
      })
    ]

  -- The round, with a packet that is refused.
  pub accept_old : (update reply seq_index).1 ≡ false → accept r d ≡ running (send_reply r)
  unfolding accept
  accept_old old = rw (old, update_rejected seq_index v.acks small old)

  -- A packet of the file fails no assertion; the receiver goes on, or has written the file.
  pub accept-IsGood : IsGood src len (accept r d)
  accept-IsGood = elim (Bool-cases (update reply seq_index).1) [
    | inl new ↦ rw (accept_new new) (taken-IsGood new)
    | inr old ↦ rw (accept_old old) (IsReceiving-other src len _ _ (reply ∷ r.sent) v)
  ]
