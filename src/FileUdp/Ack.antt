-- ===== src/FileUdp/Ack.antt =====
-- struct DatagramACK of protocol/file_udp.cpp: what the receiver has got, and how it is told to
-- the sender. `main_ack` is one past the highest number received, and the active entries of `naks`
-- are the numbers below it that are still missing.
pub mod Naks
pub mod Entries
pub mod Invariant
pub mod Received
pub mod Refine
pub mod Bottom
mod Tests
use tcp_labs.Base.{
  ℕ, zero, suc, ◌+◌, ◌-◌, ◌≡◌, Bool, true, false, List, [], ◌∷◌, ltb, leb, ◌==◌, if◌then◌else◌,
  add32, replicate,
}

-- NAK_SIZE
abbrev pub nak_size : ℕ
nak_size = 16

-- INACTIVE, the pattern of `(unsigned)-1`
abbrev pub inactive : ℕ
inactive = 0xffff_ffff

-- The fields `awnd` and `flags` are carried and never read.
pub record DatagramAck : Type 0 where
  pub awnd : ℕ
  pub flags : ℕ
  pub main_ack : ℕ
  pub naks : List ℕ

-- The constructor. It leaves `awnd` and `flags` as they are in memory: two arguments here.
unfoldable pub datagram_ack : ℕ → ℕ → DatagramAck
unfolding replicate
datagram_ack awnd flags = record {
  awnd = awnd;
  flags = flags;
  main_ack = 0;
  naks = replicate nak_size inactive;
}

-- bottom_ack() reads `naks[0]`; the array is never empty.
abbrev first_nak : ℕ → List ℕ → ℕ
first_nak main_ack [] = main_ack
first_nak main_ack (nak ∷ rest) = if nak == inactive then main_ack else nak

unfoldable pub bottom_ack : DatagramAck → ℕ
bottom_ack a = first_nak a.main_ack a.naks

-- The loop of isAcked(): does some entry equal `seq_index`?
unfoldable pub contains : List ℕ → ℕ → Bool
contains [] seq_index = false
contains (nak ∷ rest) seq_index = if seq_index == nak then true else contains rest seq_index

unfoldable pub is_acked : DatagramAck → ℕ → Bool
is_acked a seq_index =
    if leb a.main_ack seq_index then false else if contains a.naks seq_index then false else true

-- What a loop over the entries leaves: the entries, `main_ack`, and the value returned.
pub record Loop : Type 0 where
  pub entries : List ℕ
  pub edge : ℕ
  pub valid : Bool

abbrev before : ℕ → Loop → Loop
before nak l = record l { entries = nak ∷ l.entries }

-- The loop for a new number, from index `i` on, over the entries from there.
pub new_ack : ℕ → List ℕ → ℕ → ℕ → Loop
new_ack i [] main_ack seq_index = record { entries = []; edge = main_ack; valid = false }
new_ack i (nak ∷ rest) main_ack seq_index =
    let bumped = add32 main_ack 1 in
    let grown = before main_ack (new_ack (i + 1) rest bumped seq_index) in
    let passed = before nak (new_ack (i + 1) rest main_ack seq_index) in
    if nak == inactive
    then if ltb (main_ack + (nak_size - i)) seq_index
      then record { entries = nak ∷ rest; edge = main_ack; valid = false }
      else if bumped == seq_index
      then record { entries = main_ack ∷ rest; edge = add32 bumped 1; valid = true }
      else grown
    else if nak == seq_index
    then record { entries = nak ∷ rest; edge = main_ack; valid = false }
    else passed

-- `while (++i < NAK_SIZE) naks[i - 1] = naks[i]; naks[NAK_SIZE - 1] = -1;`, from the entry `i` on
pub shift_down : List ℕ → List ℕ
shift_down [] = []
shift_down (nak ∷ []) = inactive ∷ []
shift_down (nak ∷ next ∷ rest) = next ∷ shift_down (next ∷ rest)

-- The loop for an old number.
pub fill_old : List ℕ → ℕ → ℕ → Loop
fill_old [] main_ack seq_index = record { entries = []; edge = main_ack; valid = false }
fill_old (nak ∷ rest) main_ack seq_index =
    let passed = before nak (fill_old rest main_ack seq_index) in
    if nak == seq_index
    then record { entries = shift_down (nak ∷ rest); edge = main_ack; valid = true }
    else passed

-- update() without the object around its two fields
pub update_loop : ℕ → List ℕ → ℕ → Loop
update_loop main_ack naks seq_index =
    if main_ack == seq_index
    then record { entries = naks; edge = add32 main_ack 1; valid = true }
    else if ltb main_ack seq_index
    then new_ack 0 naks main_ack seq_index
    else fill_old naks main_ack seq_index

-- update(): the object after the call, and the value returned.
unfoldable pub update : DatagramAck → ℕ → DatagramAck × Bool
unfolding update_loop new_ack fill_old shift_down
update a seq_index =
    let l = update_loop a.main_ack a.naks seq_index in
    (record a { main_ack = l.edge; naks = l.entries }, l.valid)
