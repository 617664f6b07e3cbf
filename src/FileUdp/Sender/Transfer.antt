-- ===== src/FileUdp/Sender/Transfer.antt =====
-- What holds at the head of the loop of sender(), and how a packet that is sent keeps it.
use tcp_labs.Base.{
  ℕ, ◌+◌, ◌*◌, ◌%◌, ◌^◌, ◌≤◌, ◌<◌, ◌≡◌, ap, sym, Bool, true, List, [], ◌∷◌, ◌++◌, Option, none,
  some, length, drop, arith,
}
use tcp_labs.FileUdp.Ack.{bottom_ack}
use tcp_labs.FileUdp.Ack.Invariant
use tcp_labs.FileUdp.Window.{offset_begin, offset_end, at, in_range}
use tcp_labs.FileUdp.Datagram.{Datagram, single_length, slots, hard_wind, packet_count}
use tcp_labs.FileUdp.Receiver.{cells}
use tcp_labs.FileUdp.Receiver.Transfer.{max_length, packet_count_bounds}
use tcp_labs.FileUdp.Reading.{window_bytes}
use tcp_labs.FileUdp.Sender.{
  LostPack, Sender, Thread, at_top, at_recv, ended, crashed, packet, post, enqueue, resend,
}
use tcp_labs.FileUdp.Sender.Source.{source}

-- What a thread has handed to UDP::send(), newest first.
abbrev pub packets_of : Thread → List Datagram
packets_of (at_top s) = s.sent
packets_of (at_recv s) = s.sent
packets_of (ended s) = s.sent
packets_of crashed = []

-- Of a computation that may fail an assertion: it does not, and its result has `P`.
abbrev pub Holds : {A : Type 0} → (A → Type 0) → Option A → Type 0
Holds P none = ⊥
Holds P (some a) = P a

-- The numbers that wait in the queue have been sent.
abbrev pub AllBelow : ℕ → List LostPack → Type 0
AllBelow n [] = Unit {0}
AllBelow n (p ∷ ps) = (p.seq_index < n) × AllBelow n ps

pub AllBelow-append :
    (n : ℕ) (ps : List LostPack) (p : LostPack)
    → AllBelow n ps
    → p.seq_index < n
    → AllBelow n (ps ++ p ∷ [])
AllBelow-append n [] p all h = (h, tt)
AllBelow-append n (q ∷ ps) p all h = (all.0, AllBelow-append n ps p all.1 h)

pub AllBelow-mono : (m n : ℕ) (ps : List LostPack) → m ≤ n → AllBelow m ps → AllBelow n ps
AllBelow-mono m n [] h all = tt
AllBelow-mono m n (p ∷ ps) h all = (omega (arith, all.0), AllBelow-mono m n ps h all.1)

module _ (file : List ℕ) where
  -- A packet of the file, less than HARD_WIND above `bottom` and below the next number to be sent.
  pub record IsSent (bottom next : ℕ) (d : Datagram) : Type 0 where
    pub numbered : d.seq_index < packet_count (length file)
    pub in_window : d.seq_index < bottom + hard_wind
    pub old : d.seq_index < next
    pub carries : d.payload ≡ source file d.seq_index

  abbrev pub AllSent : ℕ → ℕ → List Datagram → Type 0
  AllSent bottom next [] = Unit {0}
  AllSent bottom next (d ∷ ds) = IsSent bottom next d × AllSent bottom next ds

  pub IsSent-mono : (b c m n : ℕ) {d : Datagram} → b ≤ c → m ≤ n → IsSent b m d → IsSent c n d
  IsSent-mono b c m n h k s = record {
    numbered = s.numbered;
    in_window = omega (arith, s.in_window);
    old = omega (arith, s.old);
    carries = s.carries;
  }

  pub AllSent-mono :
      (b c m n : ℕ) (ds : List Datagram) → b ≤ c → m ≤ n → AllSent b m ds → AllSent c n ds
  AllSent-mono b c m n [] h k all = tt
  AllSent-mono b c m n (d ∷ ds) h k all =
      (IsSent-mono b c m n h k all.0, AllSent-mono b c m n ds h k all.1)

  -- What holds of the variables before and behind each packet that is sent.
  pub record Kept (s : Sender) : Type 0 where
    pub count_eq : s.max_seq_index ≡ packet_count (length file)
    pub limit_eq : s.buffer.limit ≡ packet_count (length file)
    pub aligned : s.buffer.base % slots ≡ 0
    pub edge_eq : s.write_edge ≡ s.buffer.base + slots
    pub acks : Invariant.IsValid s.total_reply
    pub low : s.buffer.base ≤ bottom_ack s.total_reply
    pub behind : bottom_ack s.total_reply < s.write_edge
    pub reached : s.total_reply.main_ack ≤ s.send_seq_index
    pub within : s.send_seq_index ≤ packet_count (length file)
    pub close : s.send_seq_index ≤ bottom_ack s.total_reply + hard_wind
    pub queued : AllBelow s.send_seq_index s.lost_queue
    pub buffered :
        (k : ℕ)
        → s.buffer.base ≤ k
        → k < packet_count (length file)
        → k < s.buffer.base + cells
        → s.buffer.cells (k % cells) ≡ source file k
    pub rest_eq : s.unread ≡ drop (single_length * (s.buffer.base + cells)) file
    pub good : AllSent (bottom_ack s.total_reply) s.send_seq_index s.sent

  -- No assertion has failed.
  abbrev pub IsSound : Thread → Type 0
  IsSound (at_top s) = Kept s
  IsSound (at_recv s) = Kept s
  IsSound (ended s) =
      AllSent (bottom_ack s.total_reply) s.send_seq_index s.sent
      × (packet_count (length file) ≤ bottom_ack s.total_reply)
  IsSound crashed = ⊥

  -- The queue, the time limit and what was sent may change.
  pub Kept-other :
      (queue : List LostPack) (timeout : Bool) (sent : List Datagram) {s : Sender}
      → Kept s
      → AllBelow s.send_seq_index queue
      → AllSent (bottom_ack s.total_reply) s.send_seq_index sent
      → Kept (record s { lost_queue = queue; is_timeout = timeout; sent = sent })
  Kept-other queue timeout sent k below good = record {
    count_eq = k.count_eq;
    limit_eq = k.limit_eq;
    aligned = k.aligned;
    edge_eq = k.edge_eq;
    acks = k.acks;
    low = k.low;
    behind = k.behind;
    reached = k.reached;
    within = k.within;
    close = k.close;
    queued = below;
    buffered = k.buffered;
    rest_eq = k.rest_eq;
    good = good;
  }

module _ (file : List ℕ) (long : window_bytes ≤ length file) (fits : length file ≤ max_length)
    (wind flags : ℕ) where
  abbrev count : ℕ
  count = packet_count (length file)

  abbrev pub posted : Sender → ℕ → Sender
  posted s i = record s { sent = packet wind flags i (source file i) ∷ s.sent }

  in_range-Kept :
      {s : Sender} (i : ℕ)
      → Kept file s
      → bottom_ack s.total_reply ≤ i
      → i < count
      → i < bottom_ack s.total_reply + hard_wind
      → in_range cells s.buffer i ≡ true
  unfolding in_range offset_begin offset_end
  in_range-Kept {s} i k low below near =
      let b = packet_count_bounds (length file) (omega arith) fits in
      ground (arith, k.low, k.behind, k.edge_eq, k.limit_eq)

  -- A number that has been sent and is not acknowledged, or the next one, is in the window.
  pub post_lem :
      {s : Sender} (i : ℕ)
      → Kept file s
      → bottom_ack s.total_reply ≤ i
      → i < count
      → i < bottom_ack s.total_reply + hard_wind
      → post wind flags s i ≡ some (posted s i)
  unfolding post at
  post_lem {s} i k low below near =
      let b = packet_count_bounds (length file) (omega arith) fits in
      let in_ = in_range-Kept i k low below near in
      let held : s.buffer.cells (i % cells) ≡ source file i =
        k.buffered i (omega (arith, k.low)) below (omega (arith, k.behind, k.edge_eq)) in
      let read : at cells s.buffer i ≡ some (source file i) = rw in_ (ap some held) in
      rw (read, post)

  pub posted-IsSent :
      (bottom next i : ℕ)
      → i < count
      → i < bottom + hard_wind
      → i < next
      → IsSent file bottom next (packet wind flags i (source file i))
  posted-IsSent bottom next i below near old =
      let b = packet_count_bounds (length file) (omega arith) fits in
      let same : i % 2 ^ 32 ≡ i = omega arith in
      record {
        numbered = omega arith;
        in_window = omega arith;
        old = omega arith;
        carries = ap (source file) (sym same);
      }

  abbrev pub resent : Sender → ℕ → ℕ → Sender
  resent s i trigger = enqueue wind flags (posted s i) i trigger

  pub resend_lem :
      {s : Sender} (i trigger : ℕ)
      → Kept file s
      → bottom_ack s.total_reply ≤ i
      → i < s.send_seq_index
      → (resend wind flags s i trigger ≡ some (resent s i trigger)) × Kept file (resent s i trigger)
  unfolding resend
  resend_lem {s} i trigger k low below =
      let near : i < bottom_ack s.total_reply + hard_wind = omega (arith, k.close) in
      let inside : i < count = omega (arith, k.within) in
      (
        rw (post_lem i k low inside near, resend),
        Kept-other file (s.lost_queue ++ record { seq_index = i; trigger_ack = trigger } ∷ [])
            s.is_timeout (packet wind flags i (source file i) ∷ s.sent) k
            (AllBelow-append s.send_seq_index s.lost_queue _ k.queued below)
            (posted-IsSent (bottom_ack s.total_reply) s.send_seq_index i inside near below, k.good),
      )
