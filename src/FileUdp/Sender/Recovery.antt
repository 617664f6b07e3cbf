-- ===== src/FileUdp/Sender/Recovery.antt =====
-- What sender() sends behind a time limit: every packet that is on its way and not acknowledged.
use tcp_labs.Base.{
  ℕ, ◌^◌, ◌≤◌, ◌<◌, ◌≡◌, refl, ap, ◌∙◌, ◌⊎◌, inl, inr, true, false, List, [], ◌∷◌, length, arith,
}
use native.Mathlib.Decide.{dec_lt}
use tcp_labs.FileUdp.Ack.{DatagramAck, bottom_ack, is_acked}
use tcp_labs.FileUdp.Datagram.{Datagram}
use tcp_labs.FileUdp.Receiver.Transfer.{max_length, packet_count_bounds}
use tcp_labs.FileUdp.Reading.{window_bytes}
use tcp_labs.FileUdp.Sender.{Sender, Thread, at_top, at_recv, ended, crashed, round}
use tcp_labs.FileUdp.Sender.Source.{source}
use tcp_labs.FileUdp.Sender.Transfer.{packets_of, Kept, Kept-other, AllSent, IsSound}
use tcp_labs.FileUdp.Sender.Rounds.{round-IsSound}
use tcp_labs.FileUdp.Sender.Resent.{HasNumber, Queued-first}
use tcp_labs.FileUdp.Sender.Resending.{Waits, Resends, round-Resends}
use tcp_labs.FileUdp.Sender.Tracking.{Tracks}

module _ (file : List ℕ) where
  -- Packet `k` of the file is among those sent.
  abbrev pub HasPacket : ℕ → List Datagram → Type 0
  HasPacket k [] = ⊥
  HasPacket k (d ∷ ds) = ((d.seq_index ≡ k) × (d.payload ≡ source file k)) ⊎ HasPacket k ds

  HasNumber-HasPacket :
      (k bottom number : ℕ) (ds : List Datagram)
      → k < 2 ^ 32
      → AllSent file bottom number ds
      → HasNumber k ds
      → HasPacket k ds
  HasNumber-HasPacket k bottom number [] small all h = absurd h
  HasNumber-HasPacket k bottom number (d ∷ ds) small all (inl e) =
      let same : d.seq_index ≡ k = e ∙ omega arith in
      inl (same, all.0.carries ∙ ap (source file) same)
  HasNumber-HasPacket k bottom number (d ∷ ds) small all (inr h) =
      inr (HasNumber-HasPacket k bottom number ds small all.1 h)

module _ (file : List ℕ) (long : window_bytes ≤ length file) (fits : length file ≤ max_length)
    (wind flags : ℕ) where
  Resends-HasPacket :
      (reply : DatagramAck) (number k : ℕ) (missing : is_acked reply k ≡ false)
      (reached : reply.main_ack ≤ number) (small : number < 2 ^ 64) (old : k < number) (t : Thread)
      → k < 2 ^ 32
      → IsSound file t
      → Resends wind flags reply number k missing reached small old t
      → HasPacket file k (packets_of t)
  Resends-HasPacket reply number k missing reached small old (at_top s) low sound h =
      HasNumber-HasPacket file k (bottom_ack s.total_reply) s.send_seq_index s.sent low sound.good h
  Resends-HasPacket reply number k missing reached small old (at_recv s) low sound h =
      HasNumber-HasPacket file k (bottom_ack s.total_reply) s.send_seq_index s.sent low sound.good h
  Resends-HasPacket reply number k missing reached small old (ended s) low sound h = absurd h
  Resends-HasPacket reply number k missing reached small old crashed low sound h = absurd sound

  -- The same with packets that were sent before.
  pub round-HasPacket :
      (s : Sender) (k : ℕ)
      → Kept file s
      → Tracks s.total_reply s.lost_queue
      → k < s.send_seq_index
      → is_acked s.total_reply k ≡ false
      → HasPacket file k (packets_of (round wind flags (record s { is_timeout = true })))
  round-HasPacket s k kept tracks old missing =
      let b = packet_count_bounds (length file) (omega arith) fits in
      let s' = record s { is_timeout = true } in
      let start = Kept-other file s.lost_queue true s.sent kept kept.queued kept.good in
      let small : s.send_seq_index < 2 ^ 64 = omega (arith, kept.within) in
      let waits =
        elim (dec_lt k s.total_reply.main_ack)
          as (λ x.
            Waits wind flags s.total_reply s.send_seq_index k missing (length s.lost_queue) s.sent
              s.lost_queue) [
                | yes low ↦ inr (inr (Queued-first k s.lost_queue (tracks k low missing)))
                | no up ↦ inr (inl (omega arith))
              ] in
      Resends-HasPacket s.total_reply s.send_seq_index k missing kept.reached small old
        (round wind flags s') (omega (arith, kept.within))
        (round-IsSound file long fits wind flags s' start)
        (round-Resends wind flags s.total_reply s.send_seq_index k missing kept.reached small old s'
          (record { reply_eq = refl; number_eq = refl; late = refl; goal = waits }))

  -- In a state with the invariant of a transfer, in which every number that the last reply calls
  -- missing waits in the queue, the round behind a time limit sends each packet again that has been
  -- sent and is not acknowledged, with its bytes of the file.
  pub timeout_resends :
      (s : Sender) (k : ℕ)
      → Kept file s
      → Tracks s.total_reply s.lost_queue
      → k < s.send_seq_index
      → is_acked s.total_reply k ≡ false
      → HasPacket file k (packets_of (round wind flags (record s { is_timeout = true; sent = [] })))
  timeout_resends s k kept tracks old missing =
      round-HasPacket (record s { sent = [] }) k
        (Kept-other file s.lost_queue s.is_timeout [] kept kept.queued tt) tracks old missing
