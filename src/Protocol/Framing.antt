-- ===== src/Protocol/Framing.antt =====
-- What one end sends, the other end reads back, message by message.
use mathlib.Core.List.{append_assoc}
use tcp_labs.Base.{
  ℕ, zero, suc, ◌<◌, ◌≡◌, refl, ap, ◌∙◌, true, false, List, [], ◌∷◌, ◌++◌, some, ◌==◌, length,
  length-append, drop, take-append_exact, drop-append_exact, arith,
}
use tcp_labs.Protocol.Bytes.{Bytes, le_bytes, of_le-le_bytes, length-le_bytes}
use tcp_labs.Protocol.Structs.{DataFlowType, type_registion, RawData, type_id, raw_bytes, IsSized}
use tcp_labs.Protocol.RoundTrip.{read_raw-raw_bytes}
use tcp_labs.Protocol.Dispatch.{
  Role, received, closed, aborted, index, all_types, find_type, send_data, is_new_case, read_data,
  dispatch, receive, receive_all,
}

index-lt : (t : DataFlowType) → index t < 12
unfolding index
index-lt type_registion = omega arith
index-lt _ = omega arith

find_type-index : (t : DataFlowType) → find_type (index t) all_types ≡ some t
unfolding index
find_type-index type_registion = refl
find_type-index _ = refl

-- The header of a message selects the case of its type.
pub receive-header :
    (role : Role) (memory : Bytes) (t : DataFlowType) (rest : Bytes)
    → receive role memory (le_bytes 4 (index t) ++ rest) ≡ dispatch role (some t) rest
unfolding receive
receive-header role memory t rest =
    let size = length-le_bytes 4 (index t) in
    let kept = drop (length (le_bytes 4 (index t) ++ rest)) memory in
    let some_ : (length (le_bytes 4 (index t) ++ rest) == 0) ≡ false =
      ground (arith, size, length-append (le_bytes 4 (index t)) rest) in
    rw (
      some_,
      append_assoc (le_bytes 4 (index t)) rest kept,
      take-append_exact 4 (le_bytes 4 (index t)) (rest ++ kept) size,
      drop-append_exact 4 (le_bytes 4 (index t)) rest size,
      of_le-le_bytes 4 (index t) (omega (arith, index-lt t)),
      find_type-index t,
    )

-- A program reads a message whose fields have their sizes, of a type that it takes, back as it was
-- sent, and leaves what follows.
pub receive-send_data :
    (role : Role) (memory : Bytes) (m : RawData) (rest : Bytes)
    → IsSized m
    → is_new_case role (type_id m) ≡ true
    → receive role memory (send_data m ++ rest) ≡ received m rest
unfolding send_data dispatch
receive-send_data role memory m rest sized takes =
    ap (receive role memory) (append_assoc (le_bytes 4 (index (type_id m))) (raw_bytes m) rest)
    ∙ receive-header role memory (type_id m) (raw_bytes m ++ rest)
    ∙ rw takes (rw (read_raw-raw_bytes m rest sized, read_data))

-- A message of a type that is only for the other program fails the assertion, whatever it holds.
pub receive-refused :
    (role : Role) (memory : Bytes) (m : RawData) (rest : Bytes)
    → is_new_case role (type_id m) ≡ false
    → receive role memory (send_data m ++ rest) ≡ aborted
unfolding send_data dispatch
receive-refused role memory m rest fake =
    ap (receive role memory) (append_assoc (le_bytes 4 (index (type_id m))) (raw_bytes m) rest)
    ∙ receive-header role memory (type_id m) (raw_bytes m ++ rest)
    ∙ rw fake

receive-nil : (role : Role) (memory : Bytes) → receive role memory [] ≡ closed
unfolding receive
receive-nil role memory = refl

abbrev pub AllSent : Role → List RawData → Type 0
AllSent role [] = Unit {0}
AllSent role (m ∷ ms) = IsSized m × (is_new_case role (type_id m) ≡ true) × AllSent role ms

abbrev pub send_all : List RawData → Bytes
send_all [] = []
send_all (m ∷ ms) = send_data m ++ send_all ms

-- Any sequence of messages whose fields have their sizes, of types that a program takes, is read back
-- in order to its end, with fuel for more rounds than there are messages.
pub receive_all-send_all :
    (role : Role) (memory : Bytes) (fuel : ℕ) (ms : List RawData)
    → length ms < fuel
    → AllSent role ms
    → receive_all role memory fuel (send_all ms) ≡ some ms
unfolding receive_all
receive_all-send_all role memory zero ms h s = absurd (omega arith)
receive_all-send_all role memory (suc fuel) [] h s = rw (receive-nil role memory, receive_all)
receive_all-send_all role memory (suc fuel) (m ∷ ms) h s =
    rw (receive-send_data role memory m (send_all ms) s.0 s.1, receive_all)
      (rw (receive_all-send_all role memory fuel ms (omega arith) s.2))
