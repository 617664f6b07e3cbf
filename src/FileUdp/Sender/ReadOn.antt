-- ===== src/FileUdp/Sender/ReadOn.antt =====
-- The read of sender(): the half of the window that has been acknowledged gets the next packets.
use tcp_labs.Base.{
  ℕ, ◌+◌, ◌-◌, ◌*◌, ◌%◌, ◌^◌, ◌≤◌, ◌<◌, ◌≡◌, ap, sym, ◌∙◌, inl, inr, false, List, some, ltb, add64,
  length, take, drop, arith,
}
use mathlib.Core.Path.{subst}
use native.Mathlib.Decide.{dec_lt}
use tcp_labs.FileUdp.Ack.{DatagramAck}
use tcp_labs.FileUdp.Ack.Bottom.{bottom_ack-le}
use tcp_labs.FileUdp.Window.{raw_ptr, push}
use tcp_labs.FileUdp.Datagram.{single_length, slots, packet_count}
use tcp_labs.FileUdp.Receiver.{cells}
use tcp_labs.FileUdp.Receiver.Transfer.{max_length, packet_count_bounds}
use tcp_labs.FileUdp.Reading.{overlay, write_cells, fread, window_bytes}
use tcp_labs.FileUdp.Sender.{Sender, read_on}
use tcp_labs.FileUdp.Sender.Memory.{part, fread_lem, write_cells_inside, write_cells_outside}
use tcp_labs.FileUdp.Sender.Source.{
  before, source, length-take-le, bounds, source_inside, source_full,
}
use tcp_labs.FileUdp.Sender.Transfer.{Kept}

module _ (file : List ℕ) (long : window_bytes ≤ length file) (fits : length file ≤ max_length)
    (wind flags : ℕ) where
  later_cell : (j i : ℕ) → i ≡ j + cells → part file j ≡ before file i
  later_cell j i e =
      let late : ltb i cells ≡ false = ground arith in
      let same : i - cells ≡ j = omega arith in rw (late, same)

  raw_ptr-Kept : (s : Sender) → Kept file s → raw_ptr cells s.buffer ≡ some (s.buffer.base % cells)
  unfolding raw_ptr
  raw_ptr-Kept s k = ground (arith, k.aligned)

  -- The bytes that are read, and the cells behind the read.
  abbrev pub bytes : Sender → List ℕ
  bytes s = take (single_length * slots) (drop (single_length * (s.buffer.base + cells)) file)

  abbrev pub held : Sender → ℕ → List ℕ
  held s = write_cells s.buffer.cells (s.buffer.base % cells) (bytes s)

  abbrev pub read : Sender → DatagramAck → Sender
  read s reply = record s {
    total_reply = reply;
    buffer = record s.buffer { base = s.buffer.base + slots; cells = held s };
    write_edge = s.write_edge + slots;
    unread = drop (single_length * (s.buffer.base + cells + slots)) file;
  }

  small : (s : Sender) → Kept file s → s.buffer.base + cells < 2 ^ 33
  small s k = omega (
    arith,
    k.low,
    k.within,
    k.reached,
    bottom_ack-le k.acks,
    packet_count_bounds (length file) (omega arith) fits,
  )

  pub read_on_lem :
      (s : Sender) (reply : DatagramAck)
      → Kept file s
      → read_on wind flags (record s { total_reply = reply }) ≡ some (read s reply)
  unfolding read_on push
  read_on_lem s reply k =
      let room = small s k in
      let got =
        ap (fread s.buffer.cells (s.buffer.base % cells) (single_length * slots)) k.rest_eq
        ∙ fread_lem s.buffer.cells file (s.buffer.base % cells) (s.buffer.base + cells) slots
            (omega (arith, k.aligned)) in
      let base : add64 s.buffer.base slots ≡ s.buffer.base + slots = omega arith in
      let edge : add64 s.write_edge slots ≡ s.write_edge + slots = omega (arith, k.edge_eq) in
      rw (raw_ptr-Kept s k, read_on) (rw (got, read_on) (rw (base, edge)))

  -- The half of the window that stays.
  held-Kept :
      (s : Sender) (i : ℕ)
      → Kept file s
      → s.buffer.base + slots ≤ i
      → i < packet_count (length file)
      → i < s.buffer.base + cells
      → held s (i % cells) ≡ source file i
  held-Kept s i k low inside near =
      write_cells_outside s.buffer.cells (bytes s) (s.buffer.base % cells) slots (i % cells)
        (length-take-le (single_length * slots)
          (drop (single_length * (s.buffer.base + cells)) file))
        (elim (dec_lt (i % cells) (s.buffer.base % cells)) [
          | yes before ↦ inl before
          | no behind ↦ inr (omega (arith, k.aligned))
        ])
      ∙ k.buffered i (omega arith) inside near

  -- The half that is new.
  held_new :
      (s : Sender) (j : ℕ)
      → Kept file s
      → j < slots
      → s.buffer.base + cells + j < packet_count (length file)
      → held s ((s.buffer.base + cells + j) % cells) ≡ source file (s.buffer.base + cells + j)
  held_new s j k near inside =
      let i = s.buffer.base + cells + j in
      let cell : i % cells ≡ s.buffer.base % cells + j = omega (arith, k.aligned) in
      let same : s.buffer.base % cells + j ≡ (s.buffer.base + j) % cells =
        omega (arith, k.aligned) in
      let b = bounds file long fits in
      ap (held s) cell
      ∙ write_cells_inside s.buffer.cells file (s.buffer.base % cells) (s.buffer.base + cells) slots
          j near
      ∙ ap (overlay (part file i)) (
          ap s.buffer.cells same
          ∙ k.buffered (s.buffer.base + j) (omega arith) (omega arith) (omega arith)
          ∙ source_full file long fits (s.buffer.base + j) (omega arith))
      ∙ ap (overlay (part file i)) (later_cell (s.buffer.base + j) i (omega arith))
      ∙ sym (source_inside file long fits i inside)

  pub held_lem :
      (s : Sender) (i : ℕ)
      → Kept file s
      → s.buffer.base + slots ≤ i
      → i < packet_count (length file)
      → i < s.buffer.base + slots + cells
      → held s (i % cells) ≡ source file i
  held_lem s i k low inside near = elim (dec_lt i (s.buffer.base + cells)) [
    | yes old ↦ held-Kept s i k low inside old
    | no new ↦
        let j = i - (s.buffer.base + cells) in
        let same : s.buffer.base + cells + j ≡ i = omega arith in
        subst (λ n. held s (n % cells) ≡ source file n) same
          (held_new s j k (omega arith) (omega arith))
  ]
