-- ===== src/FileUdp/Link.antt =====
-- sender() and receiver() of protocol/file_udp.cpp with the network between them. Packets may be
-- lost, repeated and reordered; replies may be lost and the last one repeated, but none overtakes
-- another, as sender() assumes. A receiving call gives what has come or times out: a port that refuses
-- a packet (ECONNREFUSED), when the receiver has closed its socket, is left out.
pub mod Receiving
pub mod Sending
pub mod Invariant
pub mod Arrivals
pub mod Steps
pub mod Delivery
pub mod Live
pub mod Moves
pub mod Ready
pub mod Advance
pub mod Completion
mod Tests
use tcp_labs.Base.{ℕ, ◌≡◌, List, [], ◌∷◌, ◌++◌, length}
use tcp_labs.FileUdp.Ack.{DatagramAck, datagram_ack}
use tcp_labs.FileUdp.Datagram.{Datagram}
use tcp_labs.FileUdp.Udp.{SystemResult, datagram, errno, eagain}
use tcp_labs.FileUdp.Receiver.{
  Receiver, Outcome, running, finished, returned, aborted, receiver, next,
}
use tcp_labs.FileUdp.Sender.Transfer.{packets_of}
use tcp_labs.FileUdp.Sender.{Sender, Thread, at_top, at_recv, ended, crashed, sender, go_on, hear}

-- The replies of the receiver, newest first.
abbrev pub replies_of : Outcome → List DatagramAck
replies_of (running r) = r.sent
replies_of (finished r) = r.sent
replies_of (returned r) = r.sent
replies_of aborted = []

-- The two threads, and the replies up to the last one that has come through, newest first.
pub record System : Type 0 where
  pub source_end : Thread
  pub target_end : Outcome
  pub heard : List DatagramAck

module _ (wind flags : ℕ) where
  pub data Step (s : System) : System → Type 0 where
    sender_goes : Step s (record s { source_end = go_on wind flags s.source_end })
    sender_waits : Step s (record s { source_end = hear wind flags s.source_end (errno eagain) })
    sender_hears :
        {b : Sender} (newer skipped : List DatagramAck) (reply : DatagramAck) (peer : ℕ)
        → s.source_end ≡ at_recv b
        → replies_of s.target_end ≡ newer ++ (reply ∷ (skipped ++ s.heard))
        → Step s (record s {
          source_end = hear wind flags s.source_end (datagram reply peer);
          heard = reply ∷ (skipped ++ s.heard);
        })
    sender_hears_again :
        {b : Sender} (reply : DatagramAck) (rest : List DatagramAck) (peer : ℕ)
        → s.source_end ≡ at_recv b
        → s.heard ≡ reply ∷ rest
        → Step s (record s { source_end = hear wind flags s.source_end (datagram reply peer) })
    receiver_gets :
        (newer older : List Datagram) (d : Datagram) (peer : ℕ)
        → packets_of s.source_end ≡ newer ++ (d ∷ older)
        → Step s (record s { target_end = next s.target_end (datagram d peer) })
    receiver_waits : Step s (record s { target_end = next s.target_end (errno eagain) })

-- Both ends at the start of a transfer of `file`. The arguments are the fields that are never set.
abbrev pub start : ℕ → ℕ → ℕ → ℕ → List ℕ → System
start awnd ack_flags awnd' ack_flags' file = record {
  source_end = sender awnd ack_flags (length file) file;
  target_end = running (receiver awnd' ack_flags' (length file));
  heard = [];
}

pub data Reach (wind flags : ℕ) (first : System) : System → Type 0 where
  begun : Reach wind flags first first
  later : {s t : System} → Reach wind flags first s → Step wind flags s t → Reach wind flags first t
