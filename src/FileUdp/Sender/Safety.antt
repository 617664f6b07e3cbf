-- ===== src/FileUdp/Sender/Safety.antt =====
-- sender() up to its loop, and each step of its thread.
use tcp_labs.Base.{
  ℕ, ◌+◌, ◌%◌, ◌≤◌, ◌<◌, ◌≡◌, refl, ap, sym, ◌∙◌, true, false, List, some, ◌==◌, ltb, if◌then◌else◌,
  length, take, drop, replicate, arith,
}
use tcp_labs.FileUdp.Ack.{DatagramAck, datagram_ack}
use tcp_labs.FileUdp.Ack.Invariant.{datagram_ack-IsValid}
use tcp_labs.FileUdp.Datagram.{single_length, packet_count}
use tcp_labs.FileUdp.Window.{raw_ptr}
use tcp_labs.FileUdp.Udp.{SystemResult, datagram, errno, eagain}
use tcp_labs.FileUdp.Receiver.{cells}
use tcp_labs.FileUdp.Receiver.Transfer.{max_length}
use tcp_labs.FileUdp.Receiver.Runs.{bottom_ack-datagram_ack}
use tcp_labs.FileUdp.Reading.{overlay, write_cells, fread, window_bytes}
use tcp_labs.FileUdp.Sender.{
  Sender, Thread, at_top, at_recv, ended, crashed, blank_window, new_sender, sender, go_on, hear,
}
use tcp_labs.FileUdp.Sender.Memory.{part, length-take, write_cells_inside}
use tcp_labs.FileUdp.Sender.Source.{source, bounds, take_beyond, drop_zero, source_inside}
use tcp_labs.FileUdp.Sender.Transfer.{Kept, IsSound, Kept-other}
use tcp_labs.FileUdp.Sender.Rounds.{round-IsSound}
use tcp_labs.FileUdp.Sender.Replies.{Follows, take_reply-IsSound}

raw_ptr-blank_window : (count : ℕ) → raw_ptr cells (blank_window count) ≡ some 0
unfolding raw_ptr blank_window
raw_ptr-blank_window count = refl

-- The cells behind the first read.
abbrev pub filled : List ℕ → ℕ → List ℕ
filled file =
    write_cells (blank_window (packet_count (length file))).cells 0 (take window_bytes file)

first_read :
    (file : List ℕ)
    → fread (blank_window (packet_count (length file))).cells 0 window_bytes file
      ≡ some (filled file, drop window_bytes file, length (take window_bytes file))
unfolding fread
first_read file = refl

sender_lem :
    (awnd flags : ℕ) (file : List ℕ)
    → sender awnd flags (length file) file ≡ (
        if length (take window_bytes file) == window_bytes
        then at_top (
            new_sender awnd flags
              (packet_count (length file))
              (filled file, drop window_bytes file, length (take window_bytes file)))
        else crashed)
unfolding sender
sender_lem awnd flags file =
    rw (raw_ptr-blank_window (packet_count (length file)), sender) (rw (first_read file, sender))

-- A file that does not fill the window fails the assertion on what the first read gives.
pub sender_short :
    (awnd flags : ℕ) (file : List ℕ)
    → length file < window_bytes
    → sender awnd flags (length file) file ≡ crashed
sender_short awnd flags file h =
    let short : (length (take window_bytes file) == window_bytes) ≡ false =
      ground (arith, ap length (take_beyond window_bytes file (omega arith))) in
    rw (sender_lem awnd flags file, short)

module _ (file : List ℕ) (long : window_bytes ≤ length file) (fits : length file ≤ max_length)
    (wind flags : ℕ) where
  abbrev pub started : ℕ → ℕ → Sender
  started awnd ack_flags =
      new_sender awnd ack_flags (packet_count (length file))
        (filled file, drop window_bytes file, length (take window_bytes file))

  pub sender_long :
      (awnd ack_flags : ℕ)
      → sender awnd ack_flags (length file) file ≡ at_top (started awnd ack_flags)
  sender_long awnd ack_flags =
      let whole : (length (take window_bytes file) == window_bytes) ≡ true =
        ground (arith, length-take window_bytes file long) in
      rw (sender_lem awnd ack_flags file, whole)

  filled_lem :
      (k : ℕ) → k < packet_count (length file) → k < cells → filled file (k % cells) ≡ source file k
  unfolding blank_window
  filled_lem k inside near =
      let early : ltb k cells ≡ true = ground arith in
      ap (filled file) (let e : k % cells ≡ 0 + k = omega arith in e)
      ∙ ap
          (λ xs.
            write_cells (blank_window (packet_count (length file))).cells 0 (take window_bytes xs)
              (0 + k))
          (sym (drop_zero file))
      ∙ write_cells_inside (blank_window (packet_count (length file))).cells file 0 0 cells k near
      ∙ ap (λ i. overlay (part file i) (replicate single_length 0))
          (let e : 0 + k ≡ k = omega arith in e)
      ∙ ap (overlay (part file k)) (rw early)
      ∙ sym (source_inside file long fits k inside)

  pub started-Kept : (awnd ack_flags : ℕ) → Kept file (started awnd ack_flags)
  unfolding new_sender datagram_ack
  started-Kept awnd ack_flags =
      let b = bounds file long fits in
      let bottom = bottom_ack-datagram_ack awnd ack_flags in
      record {
        count_eq = refl;
        limit_eq = refl;
        aligned = refl;
        edge_eq = omega arith;
        acks = datagram_ack-IsValid awnd ack_flags;
        low = omega arith;
        behind = omega arith;
        reached = omega arith;
        within = omega arith;
        close = omega arith;
        queued = tt;
        buffered = λ k low inside near. filled_lem k inside (omega arith);
        rest_eq = refl;
        good = tt;
      }

  -- A result that the network may give: a reply that follows the last one, or the time limit.
  abbrev pub IsAnswer : Thread → SystemResult DatagramAck → Type 0
  IsAnswer (at_recv s) (datagram reply peer) = Follows reply s
  IsAnswer (at_recv s) (errno e) = e ≡ eagain
  IsAnswer t result = Unit {0}

  pub go_on-IsSound : (t : Thread) → IsSound file t → IsSound file (go_on wind flags t)
  unfolding go_on
  go_on-IsSound (at_top s) k = round-IsSound file long fits wind flags s k
  go_on-IsSound (at_recv s) k = k
  go_on-IsSound (ended s) k = k
  go_on-IsSound crashed k = k

  -- The time limit, or a reply about packets that have been sent and no older than the last one, keeps
  -- the invariant of a transfer, and no assertion fails.
  pub hear-IsSound :
      (t : Thread) (result : SystemResult DatagramAck)
      → IsSound file t
      → IsAnswer t result
      → IsSound file (hear wind flags t result)
  unfolding hear
  hear-IsSound (at_recv s) (datagram reply peer) k f =
      take_reply-IsSound file long fits wind flags s reply k f
  hear-IsSound (at_recv s) (errno e) k again =
      rw again (Kept-other file s.lost_queue true s.sent k k.queued k.good)
  hear-IsSound (at_top s) result k h = k
  hear-IsSound (ended s) result k h = k
  hear-IsSound crashed result k h = k
