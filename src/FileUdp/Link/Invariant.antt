-- ===== src/FileUdp/Link/Invariant.antt =====
-- What holds of both ends of a transfer and of the replies between them.
use tcp_labs.Base.{ℕ, ◌≤◌, ◌≡◌, ap, sym, ◌∙◌, true, List, [], ◌∷◌, ◌++◌, length, arith}
use mathlib.Core.Path.{subst}
use tcp_labs.FileUdp.Ack.{DatagramAck, bottom_ack, is_acked}
use tcp_labs.FileUdp.Datagram.{Datagram}
use tcp_labs.FileUdp.Receiver.Transfer.{IsGood}
use tcp_labs.FileUdp.Sender.Source.{source}
use tcp_labs.FileUdp.Sender.Transfer.{IsSent, AllSent, IsSound}
use tcp_labs.FileUdp.Sender.Tracking.{IsTracked}
use tcp_labs.FileUdp.Link.{replies_of, System}
use tcp_labs.FileUdp.Link.Receiving.{ack_of, Precedes, IsReport, Precedes-trans}
use tcp_labs.FileUdp.Link.Sending.{reply_of, next_of}

-- Replies, newest first, of which none is later than the one before it, nor than `b`.
abbrev pub Chain : DatagramAck → List DatagramAck → Type 0
Chain b [] = Unit {0}
Chain b (a ∷ rest) = Precedes a b × IsReport a × Chain a rest

pub Chain-append :
    (newer : List DatagramAck) (a b : DatagramAck) (rest : List DatagramAck)
    → Chain b (newer ++ (a ∷ rest))
    → Precedes a b × IsReport a × Chain a rest
Chain-append [] a b rest c = c
Chain-append (x ∷ newer) a b rest (p, v, c) =
    let (q, w, d) = Chain-append newer a x rest c in (Precedes-trans a x b q p, w, d)

-- A chain below `b` is one below a later object.
pub Chain-mono :
    (b c : DatagramAck) (replies : List DatagramAck)
    → Precedes b c
    → Chain b replies
    → Chain c replies
Chain-mono b c [] p all = tt
Chain-mono b c (a ∷ rest) p (q, v, all) = (Precedes-trans a b c q p, v, all)

-- The last reply that sender() has: the newest that has come, or the one of its beginning.
abbrev pub Sees : DatagramAck → List DatagramAck → Type 0
Sees t [] = (t.main_ack ≡ 0) × (bottom_ack t ≡ 0)
Sees t (a ∷ rest) = t ≡ a

-- A packet that was sent.
pub AllSent-append :
    (file : List ℕ) (bottom number : ℕ) (newer older : List Datagram) (d : Datagram)
    → AllSent file bottom number (newer ++ (d ∷ older))
    → IsSent file bottom number d
AllSent-append file bottom number [] older d all = all.0
AllSent-append file bottom number (x ∷ newer) older d all =
    AllSent-append file bottom number newer older d all.1

module _ (file : List ℕ) where
  pub record Joint (s : System) : Type 0 where
    pub sound : IsSound file s.source_end
    pub good : IsGood (source file) (length file) s.target_end
    pub acks : IsReport (ack_of s.target_end)
    pub chain : Chain (ack_of s.target_end) (replies_of s.target_end)
    pub passed : (newer : List DatagramAck) × (replies_of s.target_end ≡ newer ++ s.heard)
    pub seen : Sees (reply_of s.source_end) s.heard
    pub tracked : IsTracked s.source_end
    pub known : (ack_of s.target_end).main_ack ≤ next_of s.source_end

-- What has come precedes what the receiver has.
pub Sees-Precedes :
    (t b : DatagramAck) (newer heard replies : List DatagramAck)
    → Chain b replies
    → replies ≡ newer ++ heard
    → Sees t heard
    → bottom_ack t ≤ bottom_ack b
Sees-Precedes t b newer [] replies c e s = omega (arith, s)
Sees-Precedes t b newer (a ∷ rest) replies c e s =
    let (p, v, d) = Chain-append newer a b rest (subst (Chain b) e c) in
    omega (arith, p.bottom, ap bottom_ack s)

-- A later reply precedes nothing that has come.
pub Sees-later :
    (t reply : DatagramAck) (skipped heard : List DatagramAck)
    → Chain reply (skipped ++ heard)
    → Sees t heard
    → bottom_ack t ≤ bottom_ack reply
Sees-later t reply skipped [] c s = omega (arith, s)
Sees-later t reply skipped (a ∷ rest) c s =
    let (p, v, d) = Chain-append skipped a reply rest c in omega (arith, p.bottom, ap bottom_ack s)

pub Sees-acked :
    (t reply : DatagramAck) (skipped heard : List DatagramAck)
    → Chain reply (skipped ++ heard)
    → Sees t heard
    → (k : ℕ) → is_acked t k ≡ true
    → is_acked reply k ≡ true
unfolding is_acked
Sees-acked t reply skipped [] c s k h = absurd (ground (arith, s.0))
Sees-acked t reply skipped (a ∷ rest) c s k h =
    let (p, v, d) = Chain-append skipped a reply rest c in
    p.acked k (sym (ap (λ r. is_acked r k) s) ∙ h)
