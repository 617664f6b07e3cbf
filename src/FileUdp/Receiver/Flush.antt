-- ===== src/FileUdp/Receiver/Flush.antt =====
-- The write of receiver(): which bytes go to the file, and what holds behind it.
use tcp_labs.Base.{
  ℕ, ◌+◌, ◌-◌, ◌*◌, ◌%◌, ◌≤◌, ◌<◌, ◌≡◌, ap, sym, ◌∙◌, inl, inr, min, true, false, List, ◌++◌, some,
  leb, if◌then◌else◌, add64, take, length, arith,
}
use native.Mathlib.Decide.{dec_lt}
use tcp_labs.FileUdp.Ack.{bottom_ack}
use tcp_labs.FileUdp.Ack.Bottom.{is_acked_lt-bottom_ack}
use tcp_labs.FileUdp.Window.{offset_begin, push, empty, raw_ptr}
use tcp_labs.FileUdp.Datagram.{single_length, slots, packet_count, chunks, read_cells}
use tcp_labs.FileUdp.Datagram.Chunks.{
  AllFull, length-chunks, chunks-add, take_all, take-append_add, read_cells_lem,
}
use tcp_labs.FileUdp.Receiver.{
  Receiver, running, finished, cells, send_reply, write_length, advance, flush,
}
use tcp_labs.FileUdp.Receiver.Transfer.{
  max_length, packet_count_bounds, Kept, IsReceiving, content, IsGood,
}

module _ (src : ℕ → List ℕ) (len : ℕ) (full : AllFull src) (pos : 0 < len) (fits : len ≤ max_length)
    (r : Receiver) (k : Kept src len r) where
  open r use {buffer, write_edge}

  raw_ptr-Kept : raw_ptr cells buffer ≡ some (buffer.base % cells)
  unfolding raw_ptr
  raw_ptr-Kept = ground (arith, k.aligned)

  write_length-Kept :
      write_length r ≡ min len (single_length * write_edge) - single_length * buffer.base
  unfolding write_length offset_begin
  write_length-Kept = omega (arith, packet_count_bounds len pos fits)

  -- The half of the window that is written lies in the array and holds the file's packets.
  read-Kept :
      write_edge ≤ bottom_ack r.reply
      → read_cells cells buffer.cells (buffer.base % cells) (write_length r)
        ≡ some (take (write_length r) (chunks src buffer.base (write_edge - buffer.base)))
  read-Kept h =
      read_cells_lem cells buffer.cells src (buffer.base % cells) buffer.base
        (write_edge - buffer.base) (write_length r) full (omega (arith, k.edge_eq, k.aligned))
        (omega (arith, write_length-Kept)) held
    where
      held :
          (i : ℕ)
          → i < write_edge - buffer.base
          → buffer.cells (buffer.base % cells + i) ≡ src (buffer.base + i)
      held i below =
          let same : buffer.base % cells + i ≡ (buffer.base + i) % cells =
            omega (arith, k.edge_eq, k.aligned) in
          rw same (
            k.buffered (buffer.base + i)
              (is_acked_lt-bottom_ack k.acks (buffer.base + i) (omega arith)) (omega arith))

  -- A full half of the window is written as it stands.
  pub file_half :
      buffer.base + slots < packet_count len
      → r.file ++ take (write_length r) (chunks src buffer.base (write_edge - buffer.base))
        ≡ chunks src 0 (buffer.base + slots)
  file_half h =
      let edge : write_edge - buffer.base ≡ slots = omega (arith, k.edge_eq) in
      let size : write_length r ≡ single_length * slots =
        omega (arith, write_length-Kept, k.edge_eq, packet_count_bounds len pos fits) in
      rw
        (
          edge,
          size,
          k.written,
          take_all (single_length * slots) (chunks src buffer.base slots)
              (length-chunks src buffer.base slots full),
        )
        (sym (chunks-add src 0 buffer.base slots buffer.base (omega arith)))

  -- The last part is cut at the length of the file.
  file_last :
      packet_count len ≤ buffer.base + slots
      → r.file ++ take (write_length r) (chunks src buffer.base (write_edge - buffer.base))
        ≡ content src len
  file_last h =
      let part = packet_count len - buffer.base in
      let edge : write_edge - buffer.base ≡ part = omega (arith, k.edge_eq, k.inside) in
      let size : write_length r ≡ len - single_length * buffer.base =
        omega (arith, write_length-Kept, k.edge_eq, packet_count_bounds len pos fits) in
      let all : packet_count len ≡ buffer.base + part = omega (arith, k.inside) in
      let cut : len ≡ length (chunks src 0 buffer.base) + (len - single_length * buffer.base) =
        omega (
          arith,
          k.inside,
          length-chunks src 0 buffer.base full,
          packet_count_bounds len pos fits,
        ) in
      rw (edge, size, k.written)
        (sym (
          ap (take len)
            (ap (chunks src 0) all ∙ chunks-add src 0 buffer.base part buffer.base (omega arith))
          ∙ ap (λ n. take n (chunks src 0 buffer.base ++ chunks src buffer.base part)) cut
          ∙ take-append_add (len - single_length * buffer.base) (chunks src 0 buffer.base)
              (chunks src buffer.base part)))

  -- the bytes that are written
  abbrev pub part : List ℕ
  part = take (write_length r) (chunks src buffer.base (write_edge - buffer.base))

  pub flush_lem :
      write_edge ≤ bottom_ack r.reply
      → flush r ≡ (
          if leb buffer.limit (add64 buffer.base slots)
          then finished (send_reply (advance r part))
          else running (send_reply (advance r part)))
  unfolding flush empty push
  flush_lem h = rw (raw_ptr-Kept, flush) (rw (read-Kept h, flush))

  pub receiving :
      buffer.base + slots < packet_count len
      → write_edge ≤ bottom_ack r.reply
      → IsReceiving src len (send_reply (advance r part))
  unfolding push
  receiving more h =
      let b = packet_count_bounds len pos fits in
      let base : add64 buffer.base slots ≡ buffer.base + slots = omega arith in
      record {
        kept = record {
          length_eq = k.length_eq;
          count_eq = k.count_eq;
          limit_eq = k.limit_eq;
          edge_eq = omega (arith, k.edge_eq, k.count_eq);
          aligned = omega (arith, k.aligned);
          inside = omega arith;
          acks = k.acks;
          reached = omega (arith, k.edge_eq);
          within = k.within;
          close = omega (arith, k.close, k.edge_eq, k.count_eq);
          recent = k.recent;
          buffered = λ n a low. k.buffered n a (omega arith);
          written = rw base (file_half more);
        };
        behind = elim (dec_lt (bottom_ack r.reply) (packet_count len)) [
          | yes below ↦ inl (omega (arith, k.close, k.edge_eq, k.count_eq))
          | no all ↦ inr (omega (arith, k.within))
        ];
      }

  -- What the write leaves, in both cases.
  pub flush-IsGood : write_edge ≤ bottom_ack r.reply → IsGood src len (flush r)
  flush-IsGood h = elim (dec_lt (buffer.base + slots) (packet_count len)) [
    | yes more ↦
        let b = packet_count_bounds len pos fits in
        let open_ : leb buffer.limit (add64 buffer.base slots) ≡ false =
          ground (arith, k.limit_eq) in
        rw (flush_lem h, open_) (receiving more h)
    | no last ↦
        let b = packet_count_bounds len pos fits in
        let closed : leb buffer.limit (add64 buffer.base slots) ≡ true =
          ground (arith, k.limit_eq, k.inside) in
        rw (flush_lem h, closed) (file_last (omega arith))
  ]
