-- ===== src/FileUdp/Receiver/Runs.antt =====
-- receiver() from its first variables, over any sequence of results that the sender's packets and
-- the time limits of the socket give.
use tcp_labs.Base.{
  ℕ, ◌≤◌, ◌<◌, ◌≡◌, refl, ◌⊎◌, inl, inr, true, false, List, [], ◌∷◌, Bool-cases, some, arith,
}
use tcp_labs.FileUdp.Ack.{datagram_ack, bottom_ack}
use tcp_labs.FileUdp.Ack.Invariant.{datagram_ack-IsValid, is_acked-datagram_ack}
use tcp_labs.FileUdp.Datagram.{Datagram, slots, packet_count, chunks}
use tcp_labs.FileUdp.Datagram.Chunks.{AllFull}
use tcp_labs.FileUdp.Udp.{SystemResult, datagram, errno, eagain}
use tcp_labs.FileUdp.Receiver.{
  Receiver, Outcome, running, finished, returned, aborted, receiver, handshake, accept, step, next,
  run,
}
use tcp_labs.FileUdp.Receiver.Transfer.{
  max_length, IsReceiving, IsReceiving-other, IsGood, IsPacket,
}
use tcp_labs.FileUdp.Receiver.Safety.{accept-IsGood}

module _ (src : ℕ → List ℕ) (len : ℕ) where
  -- A packet of the file, or the time limit. The first call may also fail.
  abbrev pub IsExpected : Outcome → SystemResult Datagram → Type 0
  IsExpected (running r) (datagram d sender) = IsPacket src len r d
  IsExpected (running r) (errno e) = (r.is_first_recv ≡ true) ⊎ (e ≡ eagain)
  IsExpected (finished r) (datagram d sender) = Unit {0}
  IsExpected (finished r) (errno e) = e ≡ eagain
  IsExpected (returned r) result = Unit {0}
  IsExpected aborted result = Unit {0}

  abbrev pub AllExpected : Outcome → List (SystemResult Datagram) → Type 0
  AllExpected o [] = Unit {0}
  AllExpected o (result ∷ results) = IsExpected o result × AllExpected (next o result) results

-- The handshake touches neither.
pub reply-handshake : (r : Receiver) (sender : ℕ) → (handshake r sender).reply ≡ r.reply
unfolding handshake
reply-handshake r sender = ground arith

pub file-handshake : (r : Receiver) (sender : ℕ) → (handshake r sender).file ≡ r.file
unfolding handshake
file-handshake r sender = ground arith

pub bottom_ack-datagram_ack : (awnd flags : ℕ) → bottom_ack (datagram_ack awnd flags) ≡ 0
unfolding bottom_ack datagram_ack
bottom_ack-datagram_ack awnd flags = refl

-- What a round does with the two results that are expected.
pub step_datagram :
    (r : Receiver) (d : Datagram) (sender : ℕ)
    → step r (datagram d sender) ≡ accept (handshake r sender) d
unfolding step
step_datagram r d sender = elim (Bool-cases r.is_first_recv) [ inl e ↦ rw e | inr e ↦ rw e ]

pub step_errno :
    (r : Receiver) (e : ℕ) → (r.is_first_recv ≡ true) ⊎ (e ≡ eagain) → step r (errno e) ≡ running r
unfolding step
step_errno r e (inl first) = rw first
step_errno r e (inr again) = elim (Bool-cases r.is_first_recv) [
  | inl first ↦ rw first
  | inr later ↦ rw (later, again)
]

module _ (src : ℕ → List ℕ) (len : ℕ) (full : AllFull src) (pos : 0 < len)
    (fits : len ≤ max_length) where
  pub receiver-IsReceiving :
      (awnd flags : ℕ) → slots ≤ packet_count len → IsReceiving src len (receiver awnd flags len)
  unfolding receiver chunks
  receiver-IsReceiving awnd flags long =
      let bottom = bottom_ack-datagram_ack awnd flags in
      let none_acked = λ (k : ℕ). is_acked-datagram_ack awnd flags k in
      record {
        kept = record {
          length_eq = refl;
          count_eq = refl;
          limit_eq = refl;
          edge_eq = omega arith;
          aligned = refl;
          inside = omega arith;
          acks = datagram_ack-IsValid awnd flags;
          reached = omega arith;
          within = omega arith;
          close = omega arith;
          recent = λ k a. absurd (ground (arith, none_acked k));
          buffered = λ k a h. absurd (ground (arith, none_acked k));
          written = refl;
        };
        behind = inl (omega arith);
      }

  pub handshake-IsReceiving :
      {r : Receiver} (sender : ℕ) → IsReceiving src len r → IsReceiving src len (handshake r sender)
  unfolding handshake
  handshake-IsReceiving {r} sender v = elim (Bool-cases r.is_first_recv) [
    | inl first ↦ rw first (IsReceiving-other src len false (some sender) r.sent v)
    | inr later ↦ simp later v
  ]

  pub handshake-IsPacket :
      {r : Receiver} {d : Datagram} (sender : ℕ)
      → IsPacket src len r d
      → IsPacket src len (handshake r sender) d
  unfolding handshake
  handshake-IsPacket {r} sender p = elim (Bool-cases r.is_first_recv) [
    | inl first ↦
        rw first (record { numbered = p.numbered; in_window = p.in_window; carries = p.carries })
    | inr later ↦ simp later p
  ]

  pub next-IsGood :
      (o : Outcome) (result : SystemResult Datagram)
      → IsGood src len o
      → IsExpected src len o result
      → IsGood src len (next o result)
  unfolding next
  next-IsGood (running r) (datagram d sender) g h = rw (step_datagram r d sender) (
      accept-IsGood src len full pos fits (handshake r sender) (handshake-IsReceiving sender g) d
        (handshake-IsPacket sender h))
  next-IsGood (running r) (errno e) g h = rw (step_errno r e h) g
  next-IsGood (finished r) (datagram d sender) g h = g
  next-IsGood (finished r) (errno e) g h = rw h g
  next-IsGood (returned r) result g h = g
  next-IsGood aborted result g h = g

  run-IsGood :
      (o : Outcome) (results : List (SystemResult Datagram))
      → IsGood src len o
      → AllExpected src len o results
      → IsGood src len (run o results)
  unfolding run
  run-IsGood o [] g h = g
  run-IsGood o (result ∷ results) g h =
      run-IsGood (next o result) results (next-IsGood o result g h.0) h.1

  -- For a file of 1 to max_length bytes that has at least SLOTS packets, and calls that time out or
  -- give packets of that file, each less than HARD_WIND above the lowest number that the receiver
  -- lacks at that time (and any error while no packet has come): no assertion fails, the file holds
  -- whole packets of the source while the loop runs, and all of its bytes behind the loop.
  pub receiver_writes_file :
      (awnd flags : ℕ) (results : List (SystemResult Datagram))
      → slots ≤ packet_count len
      → AllExpected src len (running (receiver awnd flags len)) results
      → IsGood src len (run (running (receiver awnd flags len)) results)
  receiver_writes_file awnd flags results long h =
      run-IsGood (running (receiver awnd flags len)) results (receiver-IsReceiving awnd flags long)
        h
