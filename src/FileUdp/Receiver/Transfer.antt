-- ===== src/FileUdp/Receiver/Transfer.antt =====
-- What holds while receiver() takes the packets of one file from a sender that keeps its window.
use tcp_labs.Base.{
  Bool, Option, ℕ, ◌+◌, ◌-◌, ◌*◌, ◌%◌, ◌≤◌, ◌<◌, ◌≡◌, ◌⊎◌, min, true, List, take, arith,
}
use tcp_labs.FileUdp.Ack.{DatagramAck, inactive, bottom_ack, is_acked}
use tcp_labs.FileUdp.Ack.Invariant
use tcp_labs.FileUdp.Ack.Invariant.{update-IsValid, update_rejected, is_acked-update}
use tcp_labs.FileUdp.Datagram.{Datagram, single_length, slots, hard_wind, packet_count, chunks}
use tcp_labs.FileUdp.Receiver.{Receiver, Outcome, running, finished, returned, aborted, cells}

-- The length of a file whose packets all have a number below INACTIVE.
abbrev pub max_length : ℕ
max_length = single_length * (inactive - 1)

pub packet_count_bounds :
    (len : ℕ)
    → 0 < len
    → len ≤ max_length
    → (len ≤ single_length * packet_count len)
      × (single_length * packet_count len < len + single_length)
      × (packet_count len < inactive)
unfolding packet_count
packet_count_bounds len h k = omega arith

-- The file's packets, by number, and its length in bytes.
module _ (src : ℕ → List ℕ) (len : ℕ) where
  -- What holds of the variables when update() has taken a packet and it is stored.
  pub record Kept (r : Receiver) : Type 0 where
    pub length_eq : r.file_length ≡ len
    pub count_eq : r.max_seq_index ≡ packet_count len
    pub limit_eq : r.buffer.limit ≡ packet_count len
    pub edge_eq : r.write_edge ≡ min (packet_count len) (r.buffer.base + slots)
    pub aligned : r.buffer.base % slots ≡ 0
    pub inside : r.buffer.base < packet_count len
    pub acks : Invariant.IsValid r.reply
    pub reached : r.buffer.base ≤ bottom_ack r.reply
    pub within : bottom_ack r.reply ≤ packet_count len
    pub close : bottom_ack r.reply < r.write_edge + hard_wind
    pub recent :
        (k : ℕ)
        → is_acked r.reply k ≡ true
        → (k < packet_count len) × (k < bottom_ack r.reply + hard_wind)
    pub buffered :
        (k : ℕ) → is_acked r.reply k ≡ true → r.buffer.base ≤ k → r.buffer.cells (k % cells) ≡ src k
    pub written : r.file ≡ chunks src 0 r.buffer.base

  -- What holds at the top of the loop. The second case is a receiver that has every packet.
  pub record IsReceiving (r : Receiver) : Type 0 where
    pub kept : Kept r
    pub open kept use *
    pub behind : (bottom_ack r.reply < r.write_edge) ⊎ (bottom_ack r.reply ≡ packet_count len)

  -- The bytes of the file.
  abbrev pub content : List ℕ
  content = take len (chunks src 0 (packet_count len))

  -- No assertion fails, and what is finished has written the file.
  abbrev pub IsGood : Outcome → Type 0
  IsGood (running r) = IsReceiving r
  IsGood (finished r) = r.file ≡ content
  IsGood (returned r) = r.file ≡ content
  IsGood aborted = ⊥

  -- A packet of the file, sent by a sender that keeps HARD_WIND.
  pub record IsPacket (r : Receiver) (d : Datagram) : Type 0 where
    pub numbered : d.seq_index < packet_count len
    pub in_window : d.seq_index < bottom_ack r.reply + hard_wind
    pub carries : d.payload ≡ src d.seq_index

  -- Neither says anything of the peer or of what was sent.
  pub Kept-other :
      (first : Bool) (peer : Option ℕ) (sent : List DatagramAck) {r : Receiver}
      → Kept r
      → Kept (record r { is_first_recv = first; peer = peer; sent = sent })
  Kept-other first peer sent k = record {
    length_eq = k.length_eq;
    count_eq = k.count_eq;
    limit_eq = k.limit_eq;
    edge_eq = k.edge_eq;
    aligned = k.aligned;
    inside = k.inside;
    acks = k.acks;
    reached = k.reached;
    within = k.within;
    close = k.close;
    recent = k.recent;
    buffered = k.buffered;
    written = k.written;
  }

  pub IsReceiving-other :
      (first : Bool) (peer : Option ℕ) (sent : List DatagramAck) {r : Receiver}
      → IsReceiving r
      → IsReceiving (record r { is_first_recv = first; peer = peer; sent = sent })
  IsReceiving-other first peer sent v = record {
    kept = Kept-other first peer sent v.kept;
    behind = v.behind;
  }
