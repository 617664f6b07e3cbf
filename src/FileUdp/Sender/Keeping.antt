-- ===== src/FileUdp/Sender/Keeping.antt =====
-- What sender() keeps while it sends packets again, if it does not depend on the queue of lost packets
-- and on what was sent.
use tcp_labs.Base.{
  ℕ, zero, suc, ◌-◌, inl, inr, Bool, true, false, not, ◌&&◌, List, [], ◌∷◌, Option, none, some, ltb,
  leb, ◌==◌, if◌then◌else◌, add32, sub32, add64,
}
use mathlib.Core.Path.{subst}
use tcp_labs.Base.Cases.{option-cases, list-cases}
use tcp_labs.FileUdp.Ack.{DatagramAck, inactive, is_acked}
use tcp_labs.FileUdp.Window.{at}
use tcp_labs.FileUdp.Datagram.{Datagram}
use tcp_labs.FileUdp.Receiver.{cells}
use tcp_labs.FileUdp.Sender.{
  LostPack, Sender, post, resend, resend_front, resend_lost, resend_all, after_timeout, resend_naks,
  check_naks,
}

-- Of a computation that may fail an assertion: if it does not, its result has `P`.
abbrev pub HoldsIf : {A : Type 0} → (A → Type 0) → Option A → Type 0
HoldsIf P none = Unit {0}
HoldsIf P (some a) = P a

pub if-HoldsIf :
    {A : Type 0} (P : A → Type 0) (b : Bool) (x y : Option A)
    → HoldsIf P x
    → HoldsIf P y
    → HoldsIf P (if b then x else y)
if-HoldsIf P true x y h k = h
if-HoldsIf P false x y h k = k

-- A computation that goes on with the result of another.
pub bind-HoldsIf :
    {A B : Type 0} (P : A → Type 0) (Q : B → Type 0) (m : Option A) (f : A → Option B)
    → HoldsIf P m
    → ((a : A) → P a → HoldsIf Q (f a))
    → HoldsIf Q (elim m as (λ x. Option B) [ none ↦ none | some a ↦ f a ])
bind-HoldsIf P Q none f h k = tt
bind-HoldsIf P Q (some a) f h k = k a h

pub HoldsIf-mono :
    {A : Type 0} (P Q : A → Type 0) (m : Option A)
    → ((a : A) → P a → Q a)
    → HoldsIf P m
    → HoldsIf Q m
HoldsIf-mono P Q none f h = tt
HoldsIf-mono P Q (some a) f h = f a h

-- Whatever does not depend on the queue and on what was sent.
module _ (wind flags : ℕ) (Keeps : Sender → Type 0)
    (other : (s : Sender) (queue : List LostPack) (sent : List Datagram)
      → Keeps s
      → Keeps (record s { lost_queue = queue; sent = sent })) where
  resend-Keeps :
      (s : Sender) (i trigger : ℕ) → Keeps s → HoldsIf Keeps (resend wind flags s i trigger)
  unfolding resend post
  resend-Keeps s i trigger h = elim (option-cases (at cells s.buffer i)) [
    | inl e ↦ rw (e, resend) tt
    | inr (payload, e) ↦ rw (e, resend) (other s _ _ h)
  ]

  resend_front-Keeps :
      (s : Sender) (p : LostPack) (rest : List LostPack)
      → Keeps s
      → HoldsIf (λ r. Keeps r.0) (resend_front wind flags s p rest)
  unfolding resend_front
  resend_front-Keeps s p rest h =
      let popped : Keeps (record s { lost_queue = rest }) = other s rest s.sent h in
      if-HoldsIf (λ (r : Sender × Bool). Keeps r.0)
        (not s.is_timeout && ltb s.total_reply.main_ack p.trigger_ack) (some (s, false)) _ h
        (if-HoldsIf (λ (r : Sender × Bool). Keeps r.0) (is_acked s.total_reply p.seq_index)
          (some (record s { lost_queue = rest }, true)) _ popped
          (bind-HoldsIf Keeps (λ (r : Sender × Bool). Keeps r.0)
            (resend wind flags (record s { lost_queue = rest }) p.seq_index
              (add32 s.total_reply.main_ack 4))
            (λ s'. some (s', true))
            (resend-Keeps (record s { lost_queue = rest }) p.seq_index
              (add32 s.total_reply.main_ack 4) popped)
            (λ s' k. k)))

  goes_on :
      (count : ℕ) (s : Sender) (more : Bool)
      → HoldsIf Keeps (resend_lost wind flags count s)
      → Keeps s
      → HoldsIf Keeps (elim more [ true ↦ resend_lost wind flags count s | false ↦ some s ])
  goes_on count s true h k = h
  goes_on count s false h k = k

  pub resend_lost-Keeps :
      (count : ℕ) (s : Sender) → Keeps s → HoldsIf Keeps (resend_lost wind flags count s)
  unfolding resend_lost
  resend_lost-Keeps zero s h = h
  resend_lost-Keeps (suc count) s h = elim (list-cases s.lost_queue) [
    | inl e ↦ rw (e, resend_lost) tt
    | inr (p, rest, e) ↦ elim (option-cases (resend_front wind flags s p rest)) [
      | inl failed ↦ rw (e, resend_lost) (rw (failed, resend_lost) tt)
      | inr ((s', more), got) ↦
          let k = subst (HoldsIf _) got (resend_front-Keeps s p rest h) in
          rw (e, resend_lost)
            (rw (got, resend_lost) (goes_on count s' more (resend_lost-Keeps count s' k) k))
    ]
  ]

  pub resend_all-Keeps :
      (count i : ℕ) (s : Sender) → Keeps s → HoldsIf Keeps (resend_all wind flags count i s)
  unfolding resend_all
  resend_all-Keeps zero i s h = h
  resend_all-Keeps (suc count) i s h =
      bind-HoldsIf Keeps Keeps (resend wind flags s i (add64 i 4))
        (λ s'. resend_all wind flags count (add64 i 1) s') (resend-Keeps s i (add64 i 4) h)
        (λ s' k. resend_all-Keeps count (add64 i 1) s' k)

  pub after_timeout-Keeps : (s : Sender) → Keeps s → HoldsIf Keeps (after_timeout wind flags s)
  unfolding after_timeout
  after_timeout-Keeps s h =
      if-HoldsIf Keeps s.is_timeout _ (some s)
        (resend_all-Keeps (s.send_seq_index - s.total_reply.main_ack) s.total_reply.main_ack s h) h

  resend_naks-Keeps :
      (s : Sender) (naks : List ℕ) → Keeps s → HoldsIf Keeps (resend_naks wind flags s naks)
  unfolding resend_naks
  resend_naks-Keeps s [] h = h
  resend_naks-Keeps s (nak ∷ naks) h =
      let trigger = add32 s.total_reply.main_ack 4 in
      if-HoldsIf Keeps (nak == inactive) (some s) _ h (
        if-HoldsIf Keeps (leb s.total_reply.main_ack nak) _ _
          (bind-HoldsIf Keeps Keeps (resend wind flags s nak trigger)
            (λ s'. resend_naks wind flags s' naks) (resend-Keeps s nak trigger h)
            (λ s' k. resend_naks-Keeps s' naks k))
          (resend_naks-Keeps s naks h))

  pub check_naks-Keeps :
      (s : Sender) (new : DatagramAck) → Keeps s → HoldsIf Keeps (check_naks wind flags s new)
  unfolding check_naks
  check_naks-Keeps s new h =
      if-HoldsIf Keeps (leb s.total_reply.main_ack (sub32 new.main_ack 2)) _ (some s)
        (resend_naks-Keeps s new.naks h) h
