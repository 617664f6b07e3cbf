-- ===== src/FileUdp/Sender.antt =====
-- sender() of protocol/file_udp.cpp: its variables, one round of its loop, and what it does with the
-- result of its receiving call.
pub mod Memory
pub mod Source
pub mod Transfer
pub mod Rounds
pub mod ReadOn
pub mod Replies
pub mod Keeping
pub mod Frame
pub mod Waiting
pub mod Tracking
pub mod Missing
pub mod Resent
pub mod Resending
pub mod Recovery
pub mod Safety
pub mod Progress
pub mod Late
pub mod Tests
use tcp_labs.Base.{
  ℕ, zero, suc, ◌+◌, ◌-◌, ◌*◌, ◌%◌, ◌^◌, ◌≡◌, min, Bool, true, false, not, ◌&&◌, ◌||◌, List, [],
  ◌∷◌, ◌++◌, Option, none, some, ltb, leb, ◌==◌, if◌then◌else◌, add32, sub32, add64, length, take,
  drop, replicate,
}
use tcp_labs.FileUdp.Ack.{DatagramAck, datagram_ack, inactive, bottom_ack, is_acked}
use tcp_labs.FileUdp.Window.{Window, window, at, push, raw_ptr}
use tcp_labs.FileUdp.Datagram.{Datagram, single_length, slots, soft_wind, hard_wind, packet_count}
use tcp_labs.FileUdp.Udp.{SystemResult, Received, got, timed_out, failed, recv}
use tcp_labs.FileUdp.Receiver.{cells}
use tcp_labs.FileUdp.Reading.{window_bytes, fread}

-- struct LostPack
pub record LostPack : Type 0 where
  pub seq_index : ℕ
  pub trigger_ack : ℕ

-- `unread` are the bytes of the file that fread() has not given yet, `sent` the packets handed to
-- UDP::send(), newest first.
pub record Sender : Type 0 where
  pub total_reply : DatagramAck
  pub max_seq_index : ℕ
  pub buffer : Window (List ℕ)
  pub lost_queue : List LostPack
  pub send_seq_index : ℕ
  pub is_timeout : Bool
  pub write_edge : ℕ
  pub unread : List ℕ
  pub sent : List Datagram

-- Where the thread stands: at the head of the loop, in the receiving call, behind `return`, or at a
-- failed assertion.
pub data Thread : Type 0 where
  at_top : Sender → Thread
  at_recv : Sender → Thread
  ended : Sender → Thread
  crashed : Thread

unfoldable pub blank_window : ℕ → Window (List ℕ)
unfolding window
blank_window count = window count (replicate single_length 0)

-- The variables before the loop. The uninitialised fields of the reply are arguments.
unfoldable pub new_sender : ℕ → ℕ → ℕ → (ℕ → List ℕ) × List ℕ × ℕ → Sender
unfolding blank_window
new_sender awnd flags count (held, unread, n) = record {
  total_reply = datagram_ack awnd flags;
  max_seq_index = count;
  buffer = record (blank_window count) { cells = held };
  lost_queue = [];
  send_seq_index = 0;
  is_timeout = false;
  write_edge = min count slots;
  unread = unread;
  sent = [];
}

-- sender() up to its loop, for a file with the bytes `file`.
unfoldable pub sender : ℕ → ℕ → ℕ → List ℕ → Thread
unfolding new_sender
sender awnd flags length file =
    let buffer = blank_window (packet_count length) in
    elim (raw_ptr cells buffer) [
      | none ↦ crashed
      | some cell ↦ elim (fread buffer.cells cell window_bytes file) [
        | none ↦ crashed
        | some (held, unread, n) ↦
            if n == window_bytes
            then at_top (new_sender awnd flags (packet_count length) (held, unread, n))
            else crashed
      ]
    ]

module _ (wind flags : ℕ) where
  -- A packet with the contents of its cell. Two of its fields are never set: `wind` and `flags` are
  -- what they hold.
  abbrev pub packet : ℕ → List ℕ → Datagram
  packet index payload = record {
    seq_index = index % 2 ^ 32;
    wind = wind;
    flags = flags;
    payload = payload;
  }

  unfoldable pub post : Sender → ℕ → Option Sender
  post s index = elim (at cells s.buffer index) [
    | none ↦ none
    | some payload ↦ some (record s { sent = packet index payload ∷ s.sent })
  ]

  abbrev pub enqueue : Sender → ℕ → ℕ → Sender
  enqueue s index trigger = record s {
    lost_queue = s.lost_queue ++ record { seq_index = index; trigger_ack = trigger } ∷ [];
  }

  -- Sent again, and queued to be checked later.
  unfoldable pub resend : Sender → ℕ → ℕ → Option Sender
  unfolding post
  resend s index trigger = elim (post s index) [
    | none ↦ none
    | some s' ↦ some (enqueue s' index trigger)
  ]

  -- The body of `while (count-- > 0)` with the queue `p ∷ rest`: the variables, and whether the loop
  -- goes on.
  unfoldable pub resend_front : Sender → LostPack → List LostPack → Option (Sender × Bool)
  resend_front s p rest =
      let popped = record s { lost_queue = rest } in
      if not s.is_timeout && ltb s.total_reply.main_ack p.trigger_ack
      then some (s, false)
      else if is_acked s.total_reply p.seq_index
      then some (popped, true)
      else elim (resend popped p.seq_index (add32 s.total_reply.main_ack 4)) [
        | none ↦ none
        | some s' ↦ some (s', true)
      ]

  -- `none` is also front() of an empty queue.
  unfoldable pub resend_lost : ℕ → Sender → Option Sender
  resend_lost zero s = some s
  resend_lost (suc count) s = elim s.lost_queue [
    | [] ↦ none
    | p ∷ rest ↦ elim (resend_front s p rest) [
      | none ↦ none
      | some (s', more) ↦ elim more [ true ↦ resend_lost count s' | false ↦ some s' ]
    ]
  ]

  -- The loop from `index` on, with `count` rounds left.
  unfoldable pub resend_all : ℕ → ℕ → Sender → Option Sender
  resend_all zero index s = some s
  resend_all (suc count) index s = elim (resend s index (add64 index 4)) [
    | none ↦ none
    | some s' ↦ resend_all count (add64 index 1) s'
  ]

  unfoldable pub after_timeout : Sender → Option Sender
  unfolding resend_all
  after_timeout s =
      if s.is_timeout
      then resend_all (s.send_seq_index - s.total_reply.main_ack) s.total_reply.main_ack s
      else some s

  -- The test for the receiving call.
  unfoldable pub must_wait : Sender → Bool
  must_wait s =
      leb s.max_seq_index s.send_seq_index
      || leb (add64 s.total_reply.main_ack soft_wind) s.send_seq_index
      || leb (add64 (bottom_ack s.total_reply) hard_wind) s.send_seq_index

  -- The end of a round: the receiving call, or the next packet.
  unfoldable pub wait_or_send : Sender → Thread
  unfolding must_wait
  wait_or_send s =
      let next : Thread = elim (post s s.send_seq_index) [
        | none ↦ crashed
        | some s' ↦ at_top (record s' { send_seq_index = add64 s'.send_seq_index 1 })
      ] in
      if must_wait s then at_recv s else next

  -- One round of `while (true)`, up to its receiving call or to its end.
  unfoldable pub round : Sender → Thread
  unfolding resend_lost after_timeout wait_or_send
  round s = elim (resend_lost (length s.lost_queue) s) [
    | none ↦ crashed
    | some s1 ↦ elim (after_timeout s1) [
      | none ↦ crashed
      | some s2 ↦ wait_or_send (record s2 { is_timeout = false })
    ]
  ]

  -- The loop over the entries of a reply.
  unfoldable pub resend_naks : Sender → List ℕ → Option Sender
  resend_naks s [] = some s
  resend_naks s (nak ∷ naks) =
      let again : Option Sender = elim (resend s nak (add32 s.total_reply.main_ack 4)) [
        | none ↦ none
        | some s' ↦ resend_naks s' naks
      ] in
      let passed = resend_naks s naks in
      if nak == inactive then some s else if leb s.total_reply.main_ack nak then again else passed

  unfoldable pub check_naks : Sender → DatagramAck → Option Sender
  unfolding resend_naks
  check_naks s reply =
      if leb s.total_reply.main_ack (sub32 reply.main_ack 2)
      then resend_naks s reply.naks
      else some s

  -- The next half of the window is read over the one that has been acknowledged.
  unfoldable pub read_on : Sender → Option Sender
  unfolding fread
  read_on s = elim (raw_ptr cells s.buffer) [
    | none ↦ none
    | some cell ↦ elim (fread s.buffer.cells cell (slots * single_length) s.unread) [
      | none ↦ none
      | some (held, unread, n) ↦ some (record s {
        buffer = push (record s.buffer { cells = held }) slots;
        write_edge = add64 s.write_edge slots;
        unread = unread;
      })
    ]
  ]

  unfoldable pub refill : Sender → Option Sender
  unfolding read_on
  refill s = if leb s.write_edge (bottom_ack s.total_reply) then read_on s else some s

  -- A reply that has come.
  unfoldable pub take_reply : Sender → DatagramAck → Thread
  unfolding check_naks refill
  take_reply s reply = elim (check_naks s reply) [
    | none ↦ crashed
    | some s1 ↦ elim (refill (record s1 { total_reply = reply })) [
      | none ↦ crashed
      | some s2 ↦ if leb s2.max_seq_index (bottom_ack reply) then ended s2 else at_top s2
    ]
  ]

  unfoldable pub on_recv : Sender → Received DatagramAck → Thread
  unfolding take_reply
  on_recv s (got reply peer) = take_reply s reply
  on_recv s timed_out = at_top (record s { is_timeout = true })
  on_recv s failed = crashed

  -- The thread goes on by one round.
  unfoldable pub go_on : Thread → Thread
  unfolding round
  go_on (at_top s) = round s
  go_on (at_recv s) = at_recv s
  go_on (ended s) = ended s
  go_on crashed = crashed

  -- Its receiving call returns.
  unfoldable pub hear : Thread → SystemResult DatagramAck → Thread
  unfolding on_recv recv
  hear (at_recv s) result = on_recv s (recv result)
  hear t result = t
