-- ===== src/FileUdp/Sender/Resending.antt =====
-- The two loops of a round behind a time limit: the numbers that they send.
use tcp_labs.Base.{
  ℕ, zero, suc, ◌+◌, ◌-◌, ◌^◌, ◌≤◌, ◌<◌, ◌≡◌, refl, ap, sym, ◌∙◌, ◌⊎◌, inl, inr, Bool, true, false,
  Bool-cases, List, [], ◌∷◌, ◌++◌, some, add32, add64, length, arith,
}
use mathlib.Core.Path.{subst}
use native.Mathlib.Decide.{dec_lt}
use tcp_labs.Base.Cases.{option-cases, list-cases}
use tcp_labs.FileUdp.Ack.{DatagramAck, is_acked}
use tcp_labs.FileUdp.Datagram.{Datagram}
use tcp_labs.FileUdp.Receiver.{cells}
use tcp_labs.FileUdp.Window.{at}
use tcp_labs.FileUdp.Sender.{
  LostPack, Sender, Thread, at_top, at_recv, ended, crashed, post, resend, resend_front,
  resend_lost, resend_all, after_timeout, must_wait, wait_or_send, round,
}
use tcp_labs.FileUdp.Sender.Keeping.{HoldsIf, bind-HoldsIf, HoldsIf-mono}
use tcp_labs.FileUdp.Sender.Resent.{
  HasNumber, QueuedFirst, QueuedFirst-append, Resent, resend-Resent, HasNumber-Resent,
}

module _ (wind flags : ℕ) (reply : DatagramAck) (number k : ℕ)
    (missing : is_acked reply k ≡ false) where
  -- The number has been sent, waits in the queue, or is for the second loop.
  abbrev pub Waits : ℕ → List Datagram → List LostPack → Type 0
  Waits n sent queue = HasNumber k sent ⊎ ((reply.main_ack ≤ k) ⊎ QueuedFirst k n queue)

  -- Behind a time limit, with `n` entries of the queue before the end of the loop.
  pub record Runs (n : ℕ) (s : Sender) : Type 0 where
    pub reply_eq : s.total_reply ≡ reply
    pub number_eq : s.send_seq_index ≡ number
    pub late : s.is_timeout ≡ true
    pub goal : Waits n s.sent s.lost_queue

  Resent-Runs :
      (n : ℕ) (rest : List LostPack) (p : LostPack) (trigger : ℕ) (s s' : Sender)
      → Resent wind flags s p.seq_index trigger s'
      → s.lost_queue ≡ rest
      → s.total_reply ≡ reply
      → s.send_seq_index ≡ number
      → s.is_timeout ≡ true
      → Waits (suc n) s.sent (p ∷ rest)
      → Runs n s'
  Resent-Runs n rest p trigger s s' sent queue at_reply at_number late first = record {
    reply_eq = sent.reply_eq ∙ at_reply;
    number_eq = sent.number_eq ∙ at_number;
    late = sent.late_eq ∙ late;
    goal = elim first [
      | inl before ↦ inl (HasNumber-Resent wind flags k p.seq_index trigger sent (inr before))
      | inr (inl up) ↦ inr (inl up)
      | inr (inr (inl here)) ↦
          inl (HasNumber-Resent wind flags k p.seq_index trigger sent (inl here))
      | inr (inr (inr there)) ↦ inr (
          inr (
            subst (QueuedFirst k n)
              (sym (
                sent.queue_eq
                ∙ ap (λ q. q ++ record { seq_index = p.seq_index; trigger_ack = trigger } ∷ [])
                    queue))
              (QueuedFirst-append k n rest _ there)))
    ];
  }

  resend_front-Runs :
      (n : ℕ) (s : Sender) (p : LostPack) (rest : List LostPack)
      → s.lost_queue ≡ p ∷ rest
      → Runs (suc n) s
      → HoldsIf (λ r. (r.1 ≡ true) × Runs n r.0) (resend_front wind flags s p rest)
  unfolding resend_front
  resend_front-Runs n s p rest e r =
      let popped = record s { lost_queue = rest; is_timeout = true } in
      let trigger = add32 s.total_reply.main_ack 4 in
      let first : Waits (suc n) s.sent (p ∷ rest) = subst (Waits (suc n) s.sent) e r.goal in
      let late = r.late in
      elim (Bool-cases (is_acked s.total_reply p.seq_index)) [
        | inl acked ↦
            rw (late, acked)
              (
                refl,
                record {
                  reply_eq = r.reply_eq;
                  number_eq = r.number_eq;
                  late = refl;
                  goal = elim first [
                    | inl sent ↦ inl sent
                    | inr (inl up) ↦ inr (inl up)
                    | inr (inr (inl here)) ↦ absurd (
                        ground (
                          arith,
                          ap (λ a. is_acked a p.seq_index) r.reply_eq,
                          ap (is_acked reply) here,
                        ))
                    | inr (inr (inr there)) ↦ inr (inr there)
                  ];
                },
              )
        | inr new ↦
            rw (late, new)
              (bind-HoldsIf (Resent wind flags popped p.seq_index trigger)
                (λ (t : Sender × Bool). (t.1 ≡ true) × Runs n t.0)
                (resend wind flags popped p.seq_index trigger) (λ s'. some (s', true))
                (resend-Resent wind flags popped p.seq_index trigger)
                (λ s' sent. (
                  refl,
                  Resent-Runs n rest p trigger popped s' sent refl r.reply_eq r.number_eq refl
                      first,
                )))
      ]

  -- The loop over the queue goes to its end.
  resend_lost-Runs : (n : ℕ) (s : Sender) → Runs n s → HoldsIf (Runs 0) (resend_lost wind flags n s)
  unfolding resend_lost
  resend_lost-Runs zero s r = r
  resend_lost-Runs (suc n) s r = elim (list-cases s.lost_queue) [
    | inl e ↦ rw (e, resend_lost) tt
    | inr (p, rest, e) ↦ elim (option-cases (resend_front wind flags s p rest)) [
      | inl failed ↦ rw (e, resend_lost) (rw (failed, resend_lost) tt)
      | inr ((s', more), got) ↦
          let (on, r') : (more ≡ true) × Runs n s' =
            subst (HoldsIf _) got (resend_front-Runs n s p rest e r) in
          rw (e, resend_lost)
            (rw (got, resend_lost) (rw (on, resend_lost) (resend_lost-Runs n s' r')))
    ]
  ]

  -- Behind a time limit, with `i` the next number that the second loop sends.
  record Passes (i : ℕ) (s : Sender) : Type 0 where
    number_eq : s.send_seq_index ≡ number
    goal : HasNumber k s.sent ⊎ (i ≤ k)

  resend_all-Passes :
      (count i : ℕ) (s : Sender)
      → i + count < 2 ^ 64
      → Passes i s
      → HoldsIf (Passes (i + count)) (resend_all wind flags count i s)
  unfolding resend_all
  resend_all-Passes zero i s h r = record {
    number_eq = r.number_eq;
    goal = elim r.goal [ inl sent ↦ inl sent | inr low ↦ inr (omega arith) ];
  }
  resend_all-Passes (suc count) i s h r =
      bind-HoldsIf (Resent wind flags s i (add64 i 4)) (Passes (i + suc count))
        (resend wind flags s i (add64 i 4)) (λ s'. resend_all wind flags count (add64 i 1) s')
        (resend-Resent wind flags s i (add64 i 4))
        (λ s' sent.
          let next : add64 i 1 ≡ i + 1 = omega arith in
          let all : i + suc count ≡ (i + 1) + count = omega arith in
          rw (next, all)
            (resend_all-Passes count (i + 1) s' (omega arith) (record {
              number_eq = sent.number_eq ∙ r.number_eq;
              goal = elim r.goal [
                | inl before ↦ inl (HasNumber-Resent wind flags k i (add64 i 4) sent (inr before))
                | inr low ↦ elim (dec_lt i k) [
                  | yes above ↦ inr (omega arith)
                  | no here ↦
                      inl (HasNumber-Resent wind flags k i (add64 i 4) sent (inl (omega arith)))
                ]
              ];
            })))

  module _ (reached : reply.main_ack ≤ number) (small : number < 2 ^ 64) (old : k < number) where
    after_timeout-HasNumber :
        (s : Sender) → Runs 0 s → HoldsIf (λ s'. HasNumber k s'.sent) (after_timeout wind flags s)
    unfolding after_timeout
    after_timeout-HasNumber s r =
        let late = r.late in
        let main : s.total_reply.main_ack ≡ reply.main_ack = ap (λ a. a.main_ack) r.reply_eq in
        let end : reply.main_ack + (s.send_seq_index - s.total_reply.main_ack) ≡ number =
          omega (arith, main, r.number_eq) in
        let count = s.send_seq_index - s.total_reply.main_ack in
        let start = record s { is_timeout = true } in
        rw late (
          HoldsIf-mono (Passes (s.total_reply.main_ack + count)) (λ s'. HasNumber k s'.sent)
            (resend_all wind flags count s.total_reply.main_ack start)
            (λ s' q. elim q.goal [ inl sent ↦ sent | inr high ↦ absurd (omega arith) ])
            (resend_all-Passes count s.total_reply.main_ack start (omega arith) (record {
              number_eq = r.number_eq;
              goal = elim r.goal [
                | inl sent ↦ inl sent
                | inr (inl up) ↦ inr (omega arith)
                | inr (inr none_left) ↦ absurd none_left
              ];
            })))

    abbrev pub Resends : Thread → Type 0
    Resends (at_top s) = HasNumber k s.sent
    Resends (at_recv s) = HasNumber k s.sent
    Resends (ended s) = ⊥
    Resends crashed = Unit {0}

    wait_or_send-Resends : (s : Sender) → HasNumber k s.sent → Resends (wait_or_send wind flags s)
    unfolding wait_or_send post
    wait_or_send-Resends s h = elim (Bool-cases (must_wait wind flags s)) [
      | inl wait ↦ rw wait h
      | inr free ↦ elim (option-cases (at cells s.buffer s.send_seq_index)) [
        | inl failed ↦ rw (free, failed, post) tt
        | inr (payload, got) ↦ rw (free, got, post) (inr h)
      ]
    ]

    pub round-Resends : (s : Sender) → Runs (length s.lost_queue) s → Resends (round wind flags s)
    unfolding round
    round-Resends s h = elim (option-cases (resend_lost wind flags (length s.lost_queue) s)) [
      | inl failed ↦ rw (failed, round) tt
      | inr (s1, got) ↦
          let k1 = subst (HoldsIf _) got (resend_lost-Runs (length s.lost_queue) s h) in
          elim (option-cases (after_timeout wind flags s1)) [
            | inl failed ↦ rw (got, round) (rw (failed, round) tt)
            | inr (s2, got2) ↦
                let k2 : HasNumber k s2.sent =
                  subst (HoldsIf _) got2 (after_timeout-HasNumber s1 k1) in
                rw (got, round)
                  (rw (got2, round) (wait_or_send-Resends (record s2 { is_timeout = false }) k2))
          ]
    ]
