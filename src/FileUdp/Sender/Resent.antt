-- ===== src/FileUdp/Sender/Resent.antt =====
-- One packet that is sent again.
use tcp_labs.Base.{
  ℕ, zero, suc, ◌%◌, ◌^◌, ◌≡◌, refl, ap, sym, ◌⊎◌, inl, inr, List, [], ◌∷◌, ◌++◌, length,
}
use mathlib.Core.Path.{subst}
use tcp_labs.Base.Cases.{option-cases}
use tcp_labs.FileUdp.Datagram.{Datagram}
use tcp_labs.FileUdp.Receiver.{cells}
use tcp_labs.FileUdp.Window.{at}
use tcp_labs.FileUdp.Sender.{LostPack, Sender, packet, post, resend}
use tcp_labs.FileUdp.Sender.Keeping.{HoldsIf}
use tcp_labs.FileUdp.Sender.Tracking.{Queued}

-- A packet with the number `k` is among those sent.
abbrev pub HasNumber : ℕ → List Datagram → Type 0
HasNumber k [] = ⊥
HasNumber k (d ∷ ds) = (d.seq_index ≡ k % 2 ^ 32) ⊎ HasNumber k ds

-- `k` is among the first `n` of the queue.
abbrev pub QueuedFirst : ℕ → ℕ → List LostPack → Type 0
QueuedFirst k zero ps = ⊥
QueuedFirst k (suc n) [] = ⊥
QueuedFirst k (suc n) (p ∷ ps) = (p.seq_index ≡ k) ⊎ QueuedFirst k n ps

pub Queued-first : (k : ℕ) (ps : List LostPack) → Queued k ps → QueuedFirst k (length ps) ps
Queued-first k [] h = h
Queued-first k (p ∷ ps) (inl e) = inl e
Queued-first k (p ∷ ps) (inr h) = inr (Queued-first k ps h)

pub QueuedFirst-append :
    (k n : ℕ) (ps qs : List LostPack) → QueuedFirst k n ps → QueuedFirst k n (ps ++ qs)
QueuedFirst-append k zero ps qs h = absurd h
QueuedFirst-append k (suc n) [] qs h = absurd h
QueuedFirst-append k (suc n) (p ∷ ps) qs (inl e) = inl e
QueuedFirst-append k (suc n) (p ∷ ps) qs (inr h) = inr (QueuedFirst-append k n ps qs h)

module _ (wind flags : ℕ) where
  pub record Resent (s : Sender) (i trigger : ℕ) (s' : Sender) : Type 0 where
    pub reply_eq : s'.total_reply ≡ s.total_reply
    pub number_eq : s'.send_seq_index ≡ s.send_seq_index
    pub late_eq : s'.is_timeout ≡ s.is_timeout
    pub queue_eq :
        s'.lost_queue ≡ s.lost_queue ++ record { seq_index = i; trigger_ack = trigger } ∷ []
    pub sent_eq : (payload : List ℕ) × (s'.sent ≡ packet wind flags i payload ∷ s.sent)

  pub resend-Resent :
      (s : Sender) (i trigger : ℕ) → HoldsIf (Resent s i trigger) (resend wind flags s i trigger)
  unfolding resend post
  resend-Resent s i trigger = elim (option-cases (at cells s.buffer i)) [
    | inl e ↦ rw (e, resend) tt
    | inr (payload, e) ↦
        rw (e, resend)
          (record {
            reply_eq = refl;
            number_eq = refl;
            late_eq = refl;
            queue_eq = refl;
            sent_eq = (payload, refl);
          })
  ]

  pub HasNumber-Resent :
      (k i trigger : ℕ) {s s' : Sender}
      → Resent s i trigger s'
      → (i ≡ k) ⊎ HasNumber k s.sent
      → HasNumber k s'.sent
  HasNumber-Resent k i trigger r h =
      let (payload, e) = r.sent_eq in
      subst (HasNumber k) (sym e)
        (elim h [ inl same ↦ inl (ap (λ j. j % 2 ^ 32) same) | inr old ↦ inr old ])
