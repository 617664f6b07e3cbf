-- ===== src/FileUdp/Receiver/Tests.antt =====
-- receiver()'s theorems at inputs: a file of zeros.
use tcp_labs.Base.{
  ℕ, ◌+◌, ◌*◌, ◌<◌, ◌≡◌, ◌≢◌, refl, inl, inr, true, false, List, [], ◌∷◌, none, replicate,
  length-replicate, arith,
}
use tcp_labs.FileUdp.Ack.{inactive, contains, is_acked, bottom_ack}
use tcp_labs.FileUdp.Ack.Naks.{IsNaks-replicate, contains-replicate}
use tcp_labs.FileUdp.Datagram.{Datagram, single_length, slots, packet_count, chunks}
use tcp_labs.FileUdp.Datagram.Chunks.{AllFull}
use tcp_labs.FileUdp.Udp.{SystemResult, datagram, errno, eagain}
use tcp_labs.FileUdp.Receiver.{Receiver, running, receiver, accept, next, run}
use tcp_labs.FileUdp.Receiver.Transfer.{IsReceiving, IsGood}
use tcp_labs.FileUdp.Receiver.Runs.{AllExpected, receiver_writes_file}
use tcp_labs.FileUdp.Receiver.Tail.{IsShort, receiver_finishes}
use tcp_labs.FileUdp.Receiver.Hang.{Waits, last_gap_hangs}
use tcp_labs.FileUdp.Receiver.Short.{NothingWritten, short_file_hangs}

abbrev zeros : ℕ → List ℕ
zeros k = replicate single_length 0

zeros-full : AllFull zeros
zeros-full i = length-replicate single_length 0

abbrev packet : ℕ → Datagram
packet k = record { seq_index = k; wind = 0; flags = 0; payload = zeros k }

-- 3000 packets, the last one of 400 bytes.
abbrev long : ℕ
long = single_length * 2999 + 400

abbrev opening : List (SystemResult Datagram)
opening = errno eagain ∷ datagram (packet 1) 7 ∷ []

opening-AllExpected : AllExpected zeros long (running (receiver 0 0 long)) opening
unfolding next receiver packet_count bottom_ack replicate
opening-AllExpected =
    (inl refl, (record { numbered = omega arith; in_window = omega arith; carries = refl }, tt))

receiver_writes_file_example : IsGood zeros long (run (running (receiver 0 0 long)) opening)
unfolding packet_count
receiver_writes_file_example =
    receiver_writes_file zeros long zeros-full (omega arith) (omega arith) 0 0 opening (omega arith)
      opening-AllExpected

receiver_finishes_example : IsShort long (run (running (receiver 0 0 long)) opening)
unfolding packet_count
receiver_finishes_example =
    receiver_finishes zeros long zeros-full (omega arith) (omega arith) (inr (omega arith)) 0 0
      opening (omega arith) opening-AllExpected

-- 2050 packets, all there but the last of the first half.
abbrev gapped : ℕ
gapped = single_length * 2050

abbrev almost : Receiver
almost = record {
  is_first_recv = false;
  peer = none;
  reply = record { awnd = 0; flags = 0; main_ack = 2050; naks = 2047 ∷ replicate 15 inactive };
  file_length = gapped;
  max_seq_index = 2050;
  buffer = record { base = 0; limit = 2050; cells = zeros };
  write_edge = slots;
  file = [];
  sent = [];
}

almost-IsReceiving : IsReceiving zeros gapped almost
unfolding packet_count bottom_ack is_acked chunks
almost-IsReceiving = record {
  kept = record {
    length_eq = refl;
    count_eq = refl;
    limit_eq = refl;
    edge_eq = omega arith;
    aligned = refl;
    inside = omega arith;
    acks = record {
      sorted = inr (omega arith, omega arith, IsNaks-replicate 2048 2050 15);
      size = omega (arith, length-replicate 15 inactive);
      small = omega arith;
    };
    reached = omega arith;
    within = omega arith;
    close = omega arith;
    recent = λ k a. ground arith;
    buffered = λ k a h. refl;
    written = refl;
  };
  behind = inl (omega arith);
}

last_gap_hangs_example :
    Waits zeros gapped (chunks zeros 0 2048) (run (accept almost (packet 2047)) [])
unfolding packet_count bottom_ack
last_gap_hangs_example =
    (last_gap_hangs zeros gapped zeros-full (omega arith) (omega arith) almost (packet 2047) []
      almost-IsReceiving
      (record { numbered = omega arith; in_window = omega arith; carries = refl }) refl others
      (omega arith) tt).0
  where
    others : (k : ℕ) → k < packet_count gapped → k ≢ 2047 → is_acked almost.reply k ≡ true
    others k h ne = unfold is_acked contains in ground (arith, contains-replicate 15 k)

-- One packet.
abbrev one_packet : List (SystemResult Datagram)
one_packet = datagram (packet 0) 7 ∷ []

short_file_hangs_example : NothingWritten (run (running (receiver 0 0 100)) one_packet)
unfolding packet_count
short_file_hangs_example = short_file_hangs 100 (omega arith) 0 0 one_packet (omega arith, tt)
