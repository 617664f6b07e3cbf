-- ===== src/FileUdp/Sender/Tracking.antt =====
-- No packet is forgotten: a number that a reply calls missing waits in the queue.
use tcp_labs.Base.{
  ℕ, zero, suc, ◌-◌, ◌<◌, ◌≡◌, refl, ap, sym, ◌∙◌, ◌⊎◌, inl, inr, Bool, true, false, not, ◌&&◌,
  Bool-cases, List, [], ◌∷◌, ◌++◌, some, ltb, add32, add64, length, arith,
}
use mathlib.Core.Path.{subst}
use tcp_labs.Base.Cases.{option-cases, list-cases}
use tcp_labs.FileUdp.Ack.{DatagramAck, is_acked}
use tcp_labs.FileUdp.Window.{at}
use tcp_labs.FileUdp.Receiver.{cells}
use tcp_labs.FileUdp.Sender.{
  LostPack, Sender, Thread, at_top, at_recv, ended, crashed, post, resend, resend_front,
  resend_lost, resend_all, after_timeout, must_wait, wait_or_send, round,
}
use tcp_labs.FileUdp.Sender.Keeping.{HoldsIf, if-HoldsIf, bind-HoldsIf, HoldsIf-mono}

abbrev pub Queued : ℕ → List LostPack → Type 0
Queued k [] = ⊥
Queued k (p ∷ ps) = (p.seq_index ≡ k) ⊎ Queued k ps

pub Queued-append_left : (k : ℕ) (ps qs : List LostPack) → Queued k ps → Queued k (ps ++ qs)
Queued-append_left k (p ∷ ps) qs (inl e) = inl e
Queued-append_left k (p ∷ ps) qs (inr h) = inr (Queued-append_left k ps qs h)
Queued-append_left k [] qs h = absurd h

pub Queued-append_right :
    (k : ℕ) (ps : List LostPack) (p : LostPack) → p.seq_index ≡ k → Queued k (ps ++ p ∷ [])
Queued-append_right k [] p e = inl e
Queued-append_right k (q ∷ ps) p e = inr (Queued-append_right k ps p e)

-- Every number below `main_ack` that the reply does not acknowledge.
abbrev pub Tracks : DatagramAck → List LostPack → Type 0
Tracks reply queue = (k : ℕ) → k < reply.main_ack → is_acked reply k ≡ false → Queued k queue

abbrev pub IsTracked : Thread → Type 0
IsTracked (at_top s) = Tracks s.total_reply s.lost_queue
IsTracked (at_recv s) = Tracks s.total_reply s.lost_queue
IsTracked (ended s) = Unit {0}
IsTracked crashed = Unit {0}

module _ (wind flags : ℕ) where
  -- A packet that is sent again is put behind the queue.
  pub resend_lost_queue :
      (s : Sender) (i trigger : ℕ)
      → HoldsIf
          (λ s'.
            (s'.total_reply ≡ s.total_reply)
            × (s'.lost_queue
                ≡ s.lost_queue ++ record { seq_index = i; trigger_ack = trigger } ∷ []))
          (resend wind flags s i trigger)
  unfolding resend post
  resend_lost_queue s i trigger = elim (option-cases (at cells s.buffer i)) [
    | inl e ↦ rw (e, resend) tt
    | inr (payload, e) ↦ rw (e, resend) (refl, refl)
  ]

module _ (wind flags : ℕ) (reply : DatagramAck) where
  record Keeps (s : Sender) : Type 0 where
    reply_eq : s.total_reply ≡ reply
    tracks : Tracks reply s.lost_queue

  -- A number that is sent again may have left the queue before.
  resend-Keeps :
      (s : Sender) (i trigger : ℕ)
      → s.total_reply ≡ reply
      → ((k : ℕ) → k < reply.main_ack → is_acked reply k ≡ false → (i ≡ k) ⊎ Queued k s.lost_queue)
      → HoldsIf Keeps (resend wind flags s i trigger)
  resend-Keeps s i trigger e h =
      HoldsIf-mono _ Keeps (resend wind flags s i trigger)
        (λ s' same. record {
          reply_eq = same.0 ∙ e;
          tracks = λ k below missing. subst (Queued k) (sym same.1) (elim (h k below missing) [
            | inl here ↦ Queued-append_right k s.lost_queue _ here
            | inr there ↦ Queued-append_left k s.lost_queue _ there
          ]);
        })
        (resend_lost_queue wind flags s i trigger)

  resend_front-Keeps :
      (s : Sender) (p : LostPack) (rest : List LostPack)
      → s.lost_queue ≡ p ∷ rest
      → Keeps s
      → HoldsIf (λ r. Keeps r.0) (resend_front wind flags s p rest)
  unfolding resend_front
  resend_front-Keeps s p rest e h =
      let popped = record s { lost_queue = rest } in
      let rests : (k : ℕ)
          → k < reply.main_ack
          → is_acked reply k ≡ false
          → (p.seq_index ≡ k) ⊎ Queued k rest =
        λ k below missing. subst (Queued k) e (h.tracks k below missing) in
      let late = not s.is_timeout && ltb s.total_reply.main_ack p.trigger_ack in
      elim (Bool-cases (is_acked s.total_reply p.seq_index)) [
        | inl acked ↦ rw acked (
            if-HoldsIf (λ (r : Sender × Bool). Keeps r.0) late (some (s, false))
              (some (popped, true)) h
              (record {
                reply_eq = h.reply_eq;
                tracks = λ k below missing. elim (rests k below missing) [
                  | inl here ↦ absurd (
                      ground (
                        arith,
                        ap (λ a. is_acked a p.seq_index) h.reply_eq,
                        ap (is_acked reply) here,
                      ))
                  | inr there ↦ there
                ];
              }))
        | inr new ↦ rw new (
            if-HoldsIf (λ (r : Sender × Bool). Keeps r.0) late (some (s, false)) _ h
              (bind-HoldsIf Keeps (λ (r : Sender × Bool). Keeps r.0)
                (resend wind flags popped p.seq_index (add32 s.total_reply.main_ack 4))
                (λ s'. some (s', true))
                (resend-Keeps popped p.seq_index (add32 s.total_reply.main_ack 4) h.reply_eq rests)
                (λ s' k. k)))
      ]

  goes_on :
      (count : ℕ) (s : Sender) (more : Bool)
      → HoldsIf Keeps (resend_lost wind flags count s)
      → Keeps s
      → HoldsIf Keeps (elim more [ true ↦ resend_lost wind flags count s | false ↦ some s ])
  goes_on count s true h k = h
  goes_on count s false h k = k

  resend_lost-Keeps :
      (count : ℕ) (s : Sender) → Keeps s → HoldsIf Keeps (resend_lost wind flags count s)
  unfolding resend_lost
  resend_lost-Keeps zero s h = h
  resend_lost-Keeps (suc count) s h = elim (list-cases s.lost_queue) [
    | inl e ↦ rw (e, resend_lost) tt
    | inr (p, rest, e) ↦ elim (option-cases (resend_front wind flags s p rest)) [
      | inl failed ↦ rw (e, resend_lost) (rw (failed, resend_lost) tt)
      | inr ((s', more), got) ↦
          let k = subst (HoldsIf _) got (resend_front-Keeps s p rest e h) in
          rw (e, resend_lost)
            (rw (got, resend_lost) (goes_on count s' more (resend_lost-Keeps count s' k) k))
    ]
  ]

  resend_all-Keeps :
      (count i : ℕ) (s : Sender) → Keeps s → HoldsIf Keeps (resend_all wind flags count i s)
  unfolding resend_all
  resend_all-Keeps zero i s h = h
  resend_all-Keeps (suc count) i s h =
      bind-HoldsIf Keeps Keeps (resend wind flags s i (add64 i 4))
        (λ s'. resend_all wind flags count (add64 i 1) s')
        (resend-Keeps s i (add64 i 4) h.reply_eq
          (λ k below missing. inr (h.tracks k below missing)))
        (λ s' k. resend_all-Keeps count (add64 i 1) s' k)

  after_timeout-Keeps : (s : Sender) → Keeps s → HoldsIf Keeps (after_timeout wind flags s)
  unfolding after_timeout
  after_timeout-Keeps s h =
      if-HoldsIf Keeps s.is_timeout _ (some s)
        (resend_all-Keeps (s.send_seq_index - s.total_reply.main_ack) s.total_reply.main_ack s h) h

  wait_or_send-IsTracked : (s : Sender) → Keeps s → IsTracked (wait_or_send wind flags s)
  unfolding wait_or_send post
  wait_or_send-IsTracked s h =
      let tracks = subst (λ a. Tracks a s.lost_queue) (sym h.reply_eq) h.tracks in
      elim (Bool-cases (must_wait wind flags s)) [
        | inl wait ↦ rw wait tracks
        | inr free ↦ elim (option-cases (at cells s.buffer s.send_seq_index)) [
          | inl failed ↦ rw (free, failed, post) tt
          | inr (payload, got) ↦ rw (free, got, post) tracks
        ]
      ]

  round-Keeps : (s : Sender) → Keeps s → IsTracked (round wind flags s)
  unfolding round
  round-Keeps s h = elim (option-cases (resend_lost wind flags (length s.lost_queue) s)) [
    | inl failed ↦ rw (failed, round) tt
    | inr (s1, got) ↦
        let k1 = subst (HoldsIf _) got (resend_lost-Keeps (length s.lost_queue) s h) in
        elim (option-cases (after_timeout wind flags s1)) [
          | inl failed ↦ rw (got, round) (rw (failed, round) tt)
          | inr (s2, got2) ↦
              let k2 : Keeps s2 = subst (HoldsIf _) got2 (after_timeout-Keeps s1 k1) in
              rw (got, round)
                (rw (got2, round)
                  (wait_or_send-IsTracked (record s2 { is_timeout = false })
                    (record { reply_eq = k2.reply_eq; tracks = k2.tracks })))
        ]
  ]

pub round-IsTracked :
    (wind flags : ℕ) (s : Sender)
    → Tracks s.total_reply s.lost_queue
    → IsTracked (round wind flags s)
round-IsTracked wind flags s h =
    round-Keeps wind flags s.total_reply s (record { reply_eq = refl; tracks = h })
