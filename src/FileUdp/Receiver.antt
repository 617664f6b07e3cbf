-- ===== src/FileUdp/Receiver.antt =====
-- receiver() of protocol/file_udp.cpp: one round of its loop for each system call's result.
pub mod Transfer
pub mod Flush
pub mod Safety
pub mod Runs
pub mod Tail
pub mod Hang
pub mod Short
mod Tests
use tcp_labs.Base.{
  ℕ, ◌*◌, min, Bool, true, false, List, [], ◌∷◌, ◌++◌, Option, none, some, leb, if◌then◌else◌,
  add64, sub64, replicate,
}
use tcp_labs.FileUdp.Ack.{DatagramAck, datagram_ack, bottom_ack, update}
use tcp_labs.FileUdp.Window.{Window, window, offset_begin, store, push, empty, raw_ptr}
use tcp_labs.FileUdp.Datagram.{
  Datagram, single_length, slots, packet_count, byte_offset, read_cells,
}
use tcp_labs.FileUdp.Udp.{SystemResult, Received, got, timed_out, failed, recv, recvfrom}

-- The local variables, and what has gone out: `file` is what fwrite() was handed, `sent` the
-- replies, newest first, `peer` the address of connect().
pub record Receiver : Type 0 where
  pub is_first_recv : Bool
  pub peer : Option ℕ
  pub reply : DatagramAck
  pub file_length : ℕ
  pub max_seq_index : ℕ
  pub buffer : Window (List ℕ)
  pub write_edge : ℕ
  pub file : List ℕ
  pub sent : List DatagramAck

-- `running` is at the top of the loop, `finished` at the top of the loop behind `endOfRecv`,
-- `returned` behind that one, and `aborted` is a failed assertion.
pub data Outcome : Type 0 where
  running : Receiver → Outcome
  finished : Receiver → Outcome
  returned : Receiver → Outcome
  aborted : Outcome

-- Two times SLOTS, the parameter of the window.
abbrev pub cells : ℕ
cells = slots * 2

-- The variables before the loop; the uninitialised fields of the reply are arguments.
unfoldable pub receiver : ℕ → ℕ → ℕ → Receiver
unfolding window packet_count
receiver awnd flags length = record {
  is_first_recv = true;
  peer = none;
  reply = datagram_ack awnd flags;
  file_length = length;
  max_seq_index = packet_count length;
  buffer = window (packet_count length) (replicate single_length 0);
  write_edge = slots;
  file = [];
  sent = [];
}

abbrev pub send_reply : Receiver → Receiver
send_reply r = record r { sent = r.reply ∷ r.sent }

-- The number of bytes that the receiver writes when `bottom_ack()` has reached the edge.
unfoldable pub write_length : Receiver → ℕ
write_length r =
    sub64 (min r.file_length (byte_offset r.write_edge)) (byte_offset (offset_begin r.buffer))

-- The edge and the window after a write.
abbrev pub advance : Receiver → List ℕ → Receiver
advance r bytes = record r {
  file = r.file ++ bytes;
  write_edge = min r.max_seq_index (add64 r.write_edge slots);
  buffer = push r.buffer slots;
}

-- fwrite() from raw_ptr(), and the test for the end.
unfoldable pub flush : Receiver → Outcome
unfolding write_length
flush r = elim (raw_ptr cells r.buffer) [
  | none ↦ aborted
  | some cell ↦ elim (read_cells cells r.buffer.cells cell (write_length r)) [
    | none ↦ aborted
    | some bytes ↦
        let next = advance r bytes in
        if empty next.buffer then finished (send_reply next) else running (send_reply next)
  ]
]

-- A packet that update() has taken.
unfoldable pub keep : Receiver → Datagram → Outcome
unfolding flush
keep r d = elim (store cells r.buffer d.seq_index d.payload) [
  | none ↦ aborted
  | some buffer ↦
      let next = record r { buffer = buffer } in
      if leb next.write_edge (bottom_ack next.reply) then flush next else running (send_reply next)
]

-- The first packet connects the socket to its sender.
unfoldable pub handshake : Receiver → ℕ → Receiver
handshake r sender =
    if r.is_first_recv then record r { peer = some sender; is_first_recv = false } else r

unfoldable pub accept : Receiver → Datagram → Outcome
unfolding keep
accept r d =
    let (reply, is_ack_valid) = update r.reply d.seq_index in
    let next = record r { reply = reply } in
    if is_ack_valid then keep next d else running (send_reply next)

-- One round of `while (true)`, on what the call returned.
unfoldable pub round : Receiver → Received Datagram → Outcome
unfolding accept handshake
round r (got d sender) = accept (handshake r sender) d
round r timed_out = running r
round r failed = aborted

unfoldable pub step : Receiver → SystemResult Datagram → Outcome
unfolding round recv recvfrom
step r result = round r (if r.is_first_recv then recvfrom result else recv result)

-- The loop behind `endOfRecv` answers every datagram until the first call that times out.
unfoldable pub linger : Receiver → Received Datagram → Outcome
linger r (got d sender) = finished (send_reply r)
linger r timed_out = returned r
linger r failed = aborted

-- The next system call, wherever the thread is.
unfoldable pub next : Outcome → SystemResult Datagram → Outcome
unfolding step linger recv
next (running r) result = step r result
next (finished r) result = linger r (recv result)
next (returned r) result = returned r
next aborted result = aborted

unfoldable pub run : Outcome → List (SystemResult Datagram) → Outcome
unfolding next
run o [] = o
run o (result ∷ results) = run (next o result) results
