-- ===== src/FileUdp/Sender/Progress.antt =====
-- The rounds of sender() between two receiving calls.
use tcp_labs.Base.{ℕ, zero, suc, ◌+◌, ◌≤◌, ◌<◌, ◌≡◌, refl, ap, ◌∙◌, List, length, arith}
use mathlib.Core.Path.{subst}
use tcp_labs.FileUdp.Ack.{bottom_ack}
use tcp_labs.FileUdp.Ack.Bottom.{bottom_ack-le}
use tcp_labs.FileUdp.Datagram.{hard_wind}
use tcp_labs.FileUdp.Receiver.Transfer.{max_length, packet_count_bounds}
use tcp_labs.FileUdp.Reading.{window_bytes}
use tcp_labs.FileUdp.Sender.{Sender, Thread, at_top, at_recv, ended, crashed, round, go_on}
use tcp_labs.FileUdp.Sender.Transfer.{Kept, IsSound}
use tcp_labs.FileUdp.Sender.Rounds.{round-IsSound}
use tcp_labs.FileUdp.Sender.Frame.{Advanced, round-Advanced}

-- A number of rounds.
unfoldable pub rounds : ℕ → ℕ → ℕ → Thread → Thread
rounds wind flags zero t = t
rounds wind flags (suc n) t = rounds wind flags n (go_on wind flags t)

-- A round ends at the head of the loop or at its receiving call.
pub data Ends (t : Thread) : Type 0 where
  at_head : (s : Sender) → t ≡ at_top s → Ends t
  at_call : (s : Sender) → t ≡ at_recv s → Ends t
  behind : (s : Sender) → t ≡ ended s → Ends t
  at_fault : t ≡ crashed → Ends t

pub ends : (t : Thread) → Ends t
ends (at_top s) = at_head s refl
ends (at_recv s) = at_call s refl
ends (ended s) = behind s refl
ends crashed = at_fault refl

rounds-at_recv : (wind flags n : ℕ) (s : Sender) → rounds wind flags n (at_recv s) ≡ at_recv s
unfolding rounds go_on
rounds-at_recv wind flags zero s = refl
rounds-at_recv wind flags (suc n) s = rounds-at_recv wind flags n s

module _ (file : List ℕ) (long : window_bytes ≤ length file) (fits : length file ≤ max_length)
    (wind flags : ℕ) where
  rounds_reach :
      (n : ℕ) (s : Sender)
      → Kept file s
      → bottom_ack s.total_reply + hard_wind < s.send_seq_index + n
      → (s' : Sender) × (rounds wind flags n (at_top s) ≡ at_recv s')
        × Kept file s'
        × (s'.total_reply ≡ s.total_reply)
  unfolding rounds go_on
  rounds_reach zero s k h = absurd (omega (arith, k.close))
  rounds_reach (suc n) s k h =
      let sound = round-IsSound file long fits wind flags s k in
      let moved =
        round-Advanced wind flags s.total_reply s.send_seq_index s
          (record { reply_eq = refl; number_eq = refl }) in
      elim (ends (round wind flags s)) [
        | at_head s' e ↦
            let k' : Kept file s' = subst (IsSound file) e sound in
            let m = subst (Advanced wind flags s.total_reply s.send_seq_index) e moved in
            let less : bottom_ack s'.total_reply + hard_wind < s'.send_seq_index + n = omega (
              arith,
              ap bottom_ack m.reply_eq,
              m.number_eq,
              k.within,
              packet_count_bounds (length file) (omega arith) fits,
            ) in
            let (t, reach, kept, same) = rounds_reach n s' k' less in
            (t, ap (rounds wind flags n) e ∙ reach, kept, same ∙ m.reply_eq)
        | at_call s' e ↦
            let k' : Kept file s' = subst (IsSound file) e sound in
            let m = subst (Advanced wind flags s.total_reply s.send_seq_index) e moved in
            (s', ap (rounds wind flags n) e ∙ rounds-at_recv wind flags n s', k', m.reply_eq)
        | behind s' e ↦ absurd (subst (Advanced wind flags s.total_reply s.send_seq_index) e moved)
        | at_fault e ↦ absurd (subst (IsSound file) e sound)
      ]

  -- In a state with the invariant of a transfer, sender() comes to its receiving call in at most
  -- HARD_WIND + 1 rounds; it keeps the invariant and the last reply on the way.
  pub rounds_wait :
      (s : Sender)
      → Kept file s
      → (s' : Sender) × (rounds wind flags (hard_wind + 1) (at_top s) ≡ at_recv s')
        × Kept file s'
        × (s'.total_reply ≡ s.total_reply)
  rounds_wait s k =
      rounds_reach (hard_wind + 1) s k (omega (arith, k.reached, bottom_ack-le k.acks))
