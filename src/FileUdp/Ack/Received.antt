-- ===== src/FileUdp/Ack/Received.antt =====
-- What the acknowledgement object promises, without its entries: a set of received numbers, and a
-- rule for which new ones are taken.
use tcp_labs.Base.{
  ℕ, zero, suc, Bool, false, List, [], ◌∷◌, not, ◌&&◌, ◌||◌, leb, ◌==◌, if◌then◌else◌,
}
use tcp_labs.FileUdp.Ack.{DatagramAck, nak_size, update}

abbrev pub Received : Type 0
Received = ℕ → Bool

-- How many numbers below `n` have not been received.
unfoldable pub missing : Received → ℕ → ℕ
missing r zero = 0
missing r (suc n) = if r n then missing r n else suc (missing r n)

-- A number is taken if it is new and at most NAK_SIZE numbers are missing below it.
unfoldable pub accepts : Received → ℕ → Bool
accepts r s = not (r s) && leb (missing r s) nak_size

unfoldable pub receive : Received → ℕ → Received
receive r s = λ k. r k || (accepts r s && k == s)

abbrev pub nothing : Received
nothing = λ k. false

-- The replies to a sequence of numbers, and the set after it.
unfoldable pub replies : Received → List ℕ → List Bool
replies r [] = []
replies r (s ∷ ss) = accepts r s ∷ replies (receive r s) ss

unfoldable pub receive_all : Received → List ℕ → Received
receive_all r [] = r
receive_all r (s ∷ ss) = receive_all (receive r s) ss

-- The same of the code: update() called on each number in turn.
unfoldable pub update_replies : DatagramAck → List ℕ → List Bool
update_replies a [] = []
update_replies a (s ∷ ss) = (update a s).1 ∷ update_replies (update a s).0 ss

unfoldable pub update_all : DatagramAck → List ℕ → DatagramAck
update_all a [] = a
update_all a (s ∷ ss) = update_all (update a s).0 ss
