-- ===== src/FileUdp/Link/Receiving.antt =====
-- The replies of receiver(): each round sends the object of the moment, which only grows.
use tcp_labs.Base.{
  ℕ, ◌≤◌, ◌<◌, ◌≡◌, refl, sym, ◌∙◌, inl, inr, Bool, true, false, List, ◌∷◌, leb, if◌then◌else◌,
  arith,
}
use mathlib.Core.Path.{subst}
use tcp_labs.Base.Cases.{option-cases}
use tcp_labs.FileUdp.Ack.{DatagramAck, inactive, datagram_ack, bottom_ack, is_acked, update}
use tcp_labs.FileUdp.Ack.Invariant
use tcp_labs.FileUdp.Ack.Invariant.{
  IsTopped, update-IsValid, main_ack-update, is_acked-update, update-IsTopped,
}
use tcp_labs.FileUdp.Ack.Bottom.{bottom_ack-le-update}
use tcp_labs.FileUdp.Window.{store, empty, raw_ptr}
use tcp_labs.FileUdp.Datagram.{Datagram, read_cells}
use tcp_labs.FileUdp.Udp.{SystemResult, datagram, errno, eagain}
use tcp_labs.FileUdp.Receiver.{
  Receiver, Outcome, running, finished, returned, aborted, cells, write_length, send_reply, advance,
  flush, keep, handshake, accept, step, next,
}
use tcp_labs.FileUdp.Receiver.Runs.{reply-handshake, step_datagram, step_errno}

-- The object of an outcome.
abbrev pub ack_of : Outcome → DatagramAck
ack_of (running r) = r.reply
ack_of (finished r) = r.reply
ack_of (returned r) = r.reply
ack_of aborted = datagram_ack 0 0

-- No later than.
pub record Precedes (a b : DatagramAck) : Type 0 where
  pub edge : a.main_ack ≤ b.main_ack
  pub bottom : bottom_ack a ≤ bottom_ack b
  pub acked : (k : ℕ) → is_acked a k ≡ true → is_acked b k ≡ true

-- What every object that the receiver sends fulfils.
pub record IsReport (a : DatagramAck) : Type 0 where
  pub valid : Invariant.IsValid a
  pub topped : IsTopped a

pub update-IsReport :
    {a : DatagramAck} (s : ℕ) → IsReport a → s < inactive → IsReport (update a s).0
update-IsReport s r small = record {
  valid = update-IsValid s r.valid small;
  topped = update-IsTopped s r.valid small r.topped;
}

pub Precedes-refl : (a : DatagramAck) → Precedes a a
Precedes-refl a = record { edge = omega arith; bottom = omega arith; acked = λ k h. h }

pub Precedes-trans : (a b c : DatagramAck) → Precedes a b → Precedes b c → Precedes a c
Precedes-trans a b c p q = record {
  edge = omega (arith, p.edge, q.edge);
  bottom = omega (arith, p.bottom, q.bottom);
  acked = λ k h. q.acked k (p.acked k h);
}

-- The outcome of a round that ends with the object `a` and one more reply than `sent`.
abbrev pub Replied : DatagramAck → List DatagramAck → Outcome → Type 0
Replied a sent (running r) = (r.reply ≡ a) × (r.sent ≡ a ∷ sent)
Replied a sent (finished r) = (r.reply ≡ a) × (r.sent ≡ a ∷ sent)
Replied a sent (returned r) = (r.reply ≡ a) × (r.sent ≡ a ∷ sent)
Replied a sent aborted = Unit {0}

if-Replied :
    (a : DatagramAck) (sent : List DatagramAck) (b : Bool) (x y : Outcome)
    → Replied a sent x
    → Replied a sent y
    → Replied a sent (if b then x else y)
if-Replied a sent true x y h k = h
if-Replied a sent false x y h k = k

flush-Replied : (r : Receiver) → Replied r.reply r.sent (flush r)
unfolding flush
flush-Replied r = elim (option-cases (raw_ptr cells r.buffer)) [
  | inl e ↦ rw (e, flush) tt
  | inr (cell, e) ↦ elim (option-cases (read_cells cells r.buffer.cells cell (write_length r))) [
    | inl f ↦ rw (e, flush) (rw (f, flush) tt)
    | inr (bytes, f) ↦
        let after = advance r bytes in
        rw (e, flush)
          (rw (f, flush)
            (if-Replied r.reply r.sent (empty after.buffer) (finished (send_reply after))
              (running (send_reply after)) (refl, refl) (refl, refl)))
  ]
]

keep-Replied : (r : Receiver) (d : Datagram) → Replied r.reply r.sent (keep r d)
unfolding keep
keep-Replied r d = elim (option-cases (store cells r.buffer d.seq_index d.payload)) [
  | inl e ↦ rw (e, keep) tt
  | inr (buffer, e) ↦
      let after = record r { buffer = buffer } in
      rw (e, keep)
        (if-Replied r.reply r.sent (leb after.write_edge (bottom_ack after.reply)) (flush after)
          (running (send_reply after)) (flush-Replied after) (refl, refl))
]

accept-Replied :
    (r : Receiver) (d : Datagram) → Replied (update r.reply d.seq_index).0 r.sent (accept r d)
unfolding accept
accept-Replied r d =
    let a = (update r.reply d.seq_index).0 in
    if-Replied a r.sent (update r.reply d.seq_index).1 (keep (record r { reply = a }) d)
      (running (send_reply (record r { reply = a }))) (keep-Replied (record r { reply = a }) d)
      (refl, refl)

sent-handshake : (r : Receiver) (peer : ℕ) → (handshake r peer).sent ≡ r.sent
unfolding handshake
sent-handshake r peer = ground arith

pub next_running :
    (r : Receiver) (result : SystemResult Datagram) → next (running r) result ≡ step r result
unfolding next
next_running r result = refl

-- A packet in the loop.
pub next-Replied :
    (r : Receiver) (d : Datagram) (peer : ℕ)
    → Replied (update r.reply d.seq_index).0 r.sent (next (running r) (datagram d peer))
next-Replied r d peer =
    let r' = handshake r peer in
    subst (λ o. Replied (update r.reply d.seq_index).0 r.sent o)
      (sym (next_running r (datagram d peer) ∙ step_datagram r d peer))
      (subst (λ a. Replied (update a d.seq_index).0 r.sent (accept r' d)) (reply-handshake r peer)
        (subst (λ sent. Replied (update r'.reply d.seq_index).0 sent (accept r' d))
          (sent-handshake r peer) (accept-Replied r' d)))

-- update() leaves an object that is no earlier, and its edge is the old one or behind the number.
pub update-Precedes :
    (a : DatagramAck) (s edge : ℕ)
    → Invariant.IsValid a
    → s < inactive
    → s < edge
    → a.main_ack ≤ edge
    → Precedes a (update a s).0 × ((update a s).0.main_ack ≤ edge)
update-Precedes a s edge v small below reached = (
  record {
    edge = ground (arith, main_ack-update s v small);
    bottom = bottom_ack-le-update s v small;
    acked = λ k h. ground (arith, is_acked-update s v small k);
  },
  ground (arith, main_ack-update s v small),
)

-- The loop behind `endOfRecv`, and a thread that has returned.
pub next_finished :
    (r : Receiver) (d : Datagram) (peer : ℕ)
    → next (finished r) (datagram d peer) ≡ finished (send_reply r)
unfolding next
next_finished r d peer = refl

pub next_returned :
    (r : Receiver) (result : SystemResult Datagram) → next (returned r) result ≡ returned r
unfolding next
next_returned r result = refl

-- The time limit.
pub next_waiting :
    (r : Receiver)
    → (next (running r) (errno eagain) ≡ running r)
      × (next (finished r) (errno eagain) ≡ returned r)
unfolding next
next_waiting r = (step_errno r eagain (inr refl), refl)
