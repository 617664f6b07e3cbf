-- ===== src/FileUdp/Sender/Missing.antt =====
-- What a reply calls missing for the first time is put into the queue.
use tcp_labs.Base.{
  ℕ, suc, ◌+◌, ◌-◌, ◌*◌, ◌≤◌, ◌<◌, ◌≡◌, refl, ap, sym, ◌⊎◌, inl, inr, Bool, true, false, Bool-cases,
  List, [], ◌∷◌, some, leb, ◌==◌, if◌then◌else◌, add32, sub32, arith,
}
use mathlib.Core.Path.{subst}
use native.Mathlib.Decide.{dec_lt}
use tcp_labs.Base.Cases.{option-cases}
use tcp_labs.FileUdp.Ack.{DatagramAck, inactive, bottom_ack, contains, is_acked}
use tcp_labs.FileUdp.Ack.Naks.{IsNaks, contains_lt}
use tcp_labs.FileUdp.Ack.Invariant
use tcp_labs.FileUdp.Ack.Invariant.{IsTopped}
use tcp_labs.FileUdp.Window.{raw_ptr}
use tcp_labs.FileUdp.Datagram.{single_length, slots}
use tcp_labs.FileUdp.Receiver.{cells}
use tcp_labs.FileUdp.Udp.{datagram, errno, eagain}
use tcp_labs.FileUdp.Reading.{fread}
use tcp_labs.FileUdp.Sender.{
  LostPack, Sender, Thread, at_top, at_recv, ended, crashed, resend, resend_naks, check_naks,
  read_on, refill, take_reply, go_on, hear,
}
use tcp_labs.FileUdp.Sender.Keeping.{HoldsIf, if-HoldsIf, bind-HoldsIf, HoldsIf-mono}
use tcp_labs.FileUdp.Sender.Tracking.{
  Queued, Queued-append_left, Queued-append_right, Tracks, IsTracked, round-IsTracked,
  resend_lost_queue,
}

missing_contains :
    (a : DatagramAck) (k : ℕ) → k < a.main_ack → is_acked a k ≡ false → contains a.naks k ≡ true
unfolding is_acked
missing_contains a k h missing = ground arith

contains-cons :
    (nak : ℕ) (naks : List ℕ) (k : ℕ)
    → contains (nak ∷ naks) k ≡ true
    → (nak ≡ k) ⊎ (contains naks k ≡ true)
unfolding contains
contains-cons nak naks k h = ground arith

contains-nil : (k : ℕ) → contains [] k ≡ true → ⊥
unfolding contains
contains-nil k h = ground arith

module _ (wind flags edge : ℕ) (small : edge ≤ inactive) where
  -- Everything that was in the queue or is an entry from `main` on is in the queue now.
  abbrev Covers : ℕ → List LostPack → List ℕ → Sender → Type 0
  Covers main queue naks s =
      (k : ℕ)
      → k < edge
      → Queued k queue ⊎ ((main ≤ k) × (contains naks k ≡ true))
      → Queued k s.lost_queue

  resend_naks-Covers :
      (s : Sender) (lo : ℕ) (naks : List ℕ)
      → IsNaks lo edge naks
      → HoldsIf (Covers s.total_reply.main_ack s.lost_queue naks) (resend_naks wind flags s naks)
  unfolding resend_naks
  resend_naks-Covers s lo [] v =
      λ k below h. elim h [ inl there ↦ there | inr (high, here) ↦ absurd (contains-nil k here) ]
  resend_naks-Covers s lo (nak ∷ naks) (inl (none_left, v)) =
      let stop : (nak == inactive) ≡ true = ground arith in
      rw stop (λ k below h. elim h [
        | inl there ↦ there
        | inr (high, here) ↦ elim (contains-cons nak naks k here) [
          | inl e ↦ absurd (omega arith)
          | inr later ↦ absurd (ground (arith, contains_lt edge edge k naks small v))
        ]
      ])
  resend_naks-Covers s lo (nak ∷ naks) (inr (low, below, v)) =
      let active : (nak == inactive) ≡ false = ground arith in
      elim (Bool-cases (leb s.total_reply.main_ack nak)) [
        | inl new ↦
            rw (active, new)
              (bind-HoldsIf _ (Covers s.total_reply.main_ack s.lost_queue (nak ∷ naks))
                (resend wind flags s nak (add32 s.total_reply.main_ack 4))
                (λ s'. resend_naks wind flags s' naks)
                (resend_lost_queue wind flags s nak (add32 s.total_reply.main_ack 4))
                (λ s1 same.
                  HoldsIf-mono _ _ (resend_naks wind flags s1 naks)
                    (λ s' covers k near h. covers k near (elim h [
                      | inl there ↦ inl (
                          subst (Queued k) (sym same.1) (Queued-append_left k s.lost_queue _ there))
                      | inr (high, here) ↦ elim (contains-cons nak naks k here) [
                        | inl e ↦
                            inl (
                              subst (Queued k) (sym same.1)
                                (Queued-append_right k s.lost_queue _ e))
                        | inr later ↦ inr (omega (arith, ap (λ a. a.main_ack) same.0), later)
                      ]
                    ]))
                    (resend_naks-Covers s1 (suc nak) naks v)))
        | inr old ↦
            rw (active, old)
              (HoldsIf-mono _ _ (resend_naks wind flags s naks)
                (λ s' covers k near h. covers k near (elim h [
                  | inl there ↦ inl there
                  | inr (high, here) ↦ elim (contains-cons nak naks k here) [
                    | inl e ↦ absurd (ground arith)
                    | inr later ↦ inr (high, later)
                  ]
                ]))
                (resend_naks-Covers s (suc nak) naks v))
      ]

-- The test of the code fails only if `main_ack` has moved by one at most.
near_lem : (main edge : ℕ) → edge ≤ inactive → leb main (sub32 edge 2) ≡ false → edge ≤ main + 1
near_lem main edge small h = ground arith

module _ (wind flags : ℕ) (reply : DatagramAck) where
  record Keeps (s : Sender) : Type 0 where
    reply_eq : s.total_reply ≡ reply
    tracks : Tracks reply s.lost_queue

  check_naks-Tracks :
      (s : Sender)
      → Tracks s.total_reply s.lost_queue
      → Invariant.IsValid reply
      → IsTopped reply
      → ((k : ℕ) → is_acked s.total_reply k ≡ true → is_acked reply k ≡ true)
      → HoldsIf (λ s'. Tracks reply s'.lost_queue) (check_naks wind flags s reply)
  unfolding check_naks
  check_naks-Tracks s tracks valid top later =
      let old : (k : ℕ)
          → k < s.total_reply.main_ack
          → is_acked reply k ≡ false
          → Queued k s.lost_queue =
        λ k below missing. tracks k below (ground (arith, later k)) in
      elim (Bool-cases (leb s.total_reply.main_ack (sub32 reply.main_ack 2))) [
        | inl far ↦ rw far (
            HoldsIf-mono _ _ (resend_naks wind flags s reply.naks)
              (λ s' covers k below missing. covers k below (elim (dec_lt k s.total_reply.main_ack) [
                | yes before ↦ inl (old k before missing)
                | no new ↦ inr (omega arith, missing_contains reply k below missing)
              ]))
              (resend_naks-Covers wind flags reply.main_ack valid.small s 0 reply.naks
                valid.sorted))
        | inr near ↦ rw near (λ k below missing. elim (dec_lt k s.total_reply.main_ack) [
          | yes before ↦ old k before missing
          | no new ↦
              let least = near_lem s.total_reply.main_ack reply.main_ack valid.small near in
              let e : reply.main_ack - 1 ≡ k = omega (arith, least) in
              absurd (ground (arith, top, ap (is_acked reply) e))
        ])
      ]

  read_on-Keeps : (s : Sender) → Keeps s → HoldsIf Keeps (read_on wind flags s)
  unfolding read_on
  read_on-Keeps s h = elim (option-cases (raw_ptr cells s.buffer)) [
    | inl e ↦ rw (e, read_on) tt
    | inr (cell, e) ↦
        elim (option-cases (fread s.buffer.cells cell (slots * single_length) s.unread)) [
          | inl f ↦ rw (e, read_on) (rw (f, read_on) tt)
          | inr (r, f) ↦
              rw (e, read_on)
                (rw (f, read_on) (record { reply_eq = h.reply_eq; tracks = h.tracks }))
        ]
  ]

  refill-Keeps : (s : Sender) → Keeps s → HoldsIf Keeps (refill wind flags s)
  unfolding refill
  refill-Keeps s h =
      if-HoldsIf Keeps (leb s.write_edge (bottom_ack s.total_reply)) _ (some s) (read_on-Keeps s h)
        h

  ends : (b : Bool) (s : Sender) → Keeps s → IsTracked (if b then ended s else at_top s)
  ends true s h = tt
  ends false s h = subst (λ a. Tracks a s.lost_queue) (sym h.reply_eq) h.tracks

  pub take_reply-IsTracked :
      (s : Sender)
      → Tracks s.total_reply s.lost_queue
      → Invariant.IsValid reply
      → IsTopped reply
      → ((k : ℕ) → is_acked s.total_reply k ≡ true → is_acked reply k ≡ true)
      → IsTracked (take_reply wind flags s reply)
  unfolding take_reply
  take_reply-IsTracked s tracks valid top later =
      elim (option-cases (check_naks wind flags s reply)) [
        | inl failed ↦ rw (failed, take_reply) tt
        | inr (s1, got) ↦
            let k1 = subst (HoldsIf _) got (check_naks-Tracks s tracks valid top later) in
            let s1' = record s1 { total_reply = reply } in
            elim (option-cases (refill wind flags s1')) [
              | inl failed ↦ rw (got, take_reply) (rw (failed, take_reply) tt)
              | inr (s2, got2) ↦
                  let k2 : Keeps s2 =
                    subst (HoldsIf _) got2
                      (refill-Keeps s1' (record { reply_eq = refl; tracks = k1 })) in
                  rw (got, take_reply)
                    (rw (got2, take_reply) (ends (leb s2.max_seq_index (bottom_ack reply)) s2 k2))
            ]
      ]

module _ (wind flags : ℕ) where
  pub go_on-IsTracked : (t : Thread) → IsTracked t → IsTracked (go_on wind flags t)
  unfolding go_on
  go_on-IsTracked (at_top s) h = round-IsTracked wind flags s h
  go_on-IsTracked (at_recv s) h = h
  go_on-IsTracked (ended s) h = tt
  go_on-IsTracked crashed h = tt

  -- The time limit.
  pub wait-IsTracked : (t : Thread) → IsTracked t → IsTracked (hear wind flags t (errno eagain))
  unfolding hear
  wait-IsTracked (at_top s) h = h
  wait-IsTracked (at_recv s) h = h
  wait-IsTracked (ended s) h = tt
  wait-IsTracked crashed h = tt

  pub hear-IsTracked :
      (s : Sender) (reply : DatagramAck) (peer : ℕ)
      → Tracks s.total_reply s.lost_queue
      → Invariant.IsValid reply
      → IsTopped reply
      → ((k : ℕ) → is_acked s.total_reply k ≡ true → is_acked reply k ≡ true)
      → IsTracked (hear wind flags (at_recv s) (datagram reply peer))
  unfolding hear
  hear-IsTracked s reply peer tracks valid top later =
      take_reply-IsTracked wind flags reply s tracks valid top later
