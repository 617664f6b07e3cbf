-- ===== src/Socket/Exact.antt =====
-- readn() and writen() do not depend on how the system calls cut the stream.
use mathlib.Core.List.{append_assoc, append-nil}
use tcp_labs.Base.{
  ℕ, zero, suc, ◌-◌, ◌≤◌, ◌<◌, ◌≡◌, refl, ap, sym, ◌∙◌, List, [], ◌∷◌, ◌++◌, false, ◌==◌, length,
  length-append, take, drop, take-append-drop, length-drop, arith,
}
use tcp_labs.Socket.{
  ReadCall, filled, read_failed, read_done, readn_loop, readn, WriteCall, took, write_failed,
  write_done, writen_loop, writen,
}

-- The bytes that a list of calls has delivered.
abbrev pub delivered : List ReadCall → List ℕ
delivered [] = []
delivered (read_failed ∷ calls) = delivered calls
delivered (filled bytes ∷ calls) = bytes ++ delivered calls

-- ::read() asked for `n` bytes gives no more, and an error is never met. The calls after the
-- last that is made for these `n` bytes are left open.
abbrev pub IsWithin : ℕ → List ReadCall → Type 0
IsWithin zero calls = Unit {0}
IsWithin (suc n) [] = Unit {0}
IsWithin (suc n) (read_failed ∷ calls) = ⊥
IsWithin (suc n) (filled bytes ∷ calls) =
    (0 < length bytes) × (length bytes ≤ suc n) × IsWithin (suc n - length bytes) calls

suc_ne : (n : ℕ) → (suc n == 0) ≡ false
suc_ne n = ground arith

-- One round of each loop, where it goes on.
readn_loop-suc :
    (buf : List ℕ) (n b : ℕ) (bytes : List ℕ) (calls : List ReadCall)
    → readn_loop buf (suc n) (filled (b ∷ bytes) ∷ calls)
      ≡ readn_loop (buf ++ b ∷ bytes) (suc n - suc (length bytes)) calls
unfolding readn_loop
readn_loop-suc buf n b bytes calls = rw (suc_ne n) (rw (suc_ne (length bytes)))

writen_loop-suc :
    (out : List ℕ) (b : ℕ) (buf : List ℕ) (k : ℕ) (calls : List WriteCall)
    → writen_loop out (b ∷ buf) (took (suc k) ∷ calls)
      ≡ writen_loop (out ++ take (suc k) (b ∷ buf)) (drop (suc k) (b ∷ buf)) calls
unfolding writen_loop
writen_loop-suc out b buf k calls = rw (suc_ne (length buf)) (rw (suc_ne k))

readn_loop_lem :
    (buf : List ℕ) (n : ℕ) (calls : List ReadCall)
    → IsWithin n calls
    → n ≤ length (delivered calls)
    → (rest : List ReadCall) × (got : List ℕ) × (readn_loop buf n calls
        ≡ read_done (buf ++ got) rest)
      × (length got ≡ n)
      × (delivered calls ≡ got ++ delivered rest)
unfolding readn_loop
readn_loop_lem buf zero [] w h = ([], [], rw append-nil, refl, refl)
readn_loop_lem buf (suc n) [] w h = absurd (omega arith)
readn_loop_lem buf zero (read_failed ∷ calls) w h =
    (read_failed ∷ calls, [], rw append-nil, refl, refl)
readn_loop_lem buf (suc n) (read_failed ∷ calls) w h = absurd w
readn_loop_lem buf zero (filled bytes ∷ calls) w h =
    (filled bytes ∷ calls, [], rw append-nil, refl, refl)
readn_loop_lem buf (suc n) (filled [] ∷ calls) w h = absurd (omega (arith, w.0))
readn_loop_lem buf (suc n) (filled (b ∷ bytes) ∷ calls) w h =
    let (rest, got, e, size, all) =
      readn_loop_lem (buf ++ b ∷ bytes) (suc n - suc (length bytes)) calls w.2
        (omega (arith, length-append bytes (delivered calls))) in
    (
      rest,
      (b ∷ bytes) ++ got,
      readn_loop-suc buf n b bytes calls
          ∙ e
          ∙ ap (λ xs. read_done xs rest) (append_assoc buf (b ∷ bytes) got),
      omega (arith, size, w, length-append bytes got),
      ap (◌∷◌ b) (ap (◌++◌ bytes) all ∙ sym (append_assoc bytes got (delivered rest))),
    )

-- However the calls cut the stream, readn() reads the next `n` bytes and leaves the rest, if the calls
-- deliver them and no call until then fails, gives nothing (the end of the stream) or gives more than
-- it is asked for.
pub readn_exact :
    (n : ℕ) (calls : List ReadCall)
    → IsWithin n calls
    → n ≤ length (delivered calls)
    → (rest : List ReadCall) × (got : List ℕ) × (readn n calls ≡ read_done got rest)
      × (length got ≡ n)
      × (delivered calls ≡ got ++ delivered rest)
unfolding readn
readn_exact n calls w h = readn_loop_lem [] n calls w h

-- ::write() takes at least one byte, at most what it is given, and does not fail; the calls are
-- enough for `n` bytes.
abbrev pub IsTaken : ℕ → List WriteCall → Type 0
IsTaken zero calls = Unit {0}
IsTaken (suc n) [] = ⊥
IsTaken (suc n) (write_failed ∷ calls) = ⊥
IsTaken (suc n) (took k ∷ calls) = (0 < k) × (k ≤ suc n) × IsTaken (suc n - k) calls

writen_loop_lem :
    (n : ℕ) (out buf : List ℕ) (calls : List WriteCall)
    → length buf ≡ n
    → IsTaken n calls
    → writen_loop out buf calls ≡ write_done (out ++ buf)
unfolding writen_loop
writen_loop_lem n out [] [] e w = rw append-nil
writen_loop_lem n out [] (write_failed ∷ calls) e w = rw append-nil
writen_loop_lem n out [] (took k ∷ calls) e w = rw append-nil
writen_loop_lem zero out (b ∷ buf) calls e w = absurd (omega arith)
writen_loop_lem (suc n) out (b ∷ buf) [] e w = absurd w
writen_loop_lem (suc n) out (b ∷ buf) (write_failed ∷ calls) e w = absurd w
writen_loop_lem (suc n) out (b ∷ buf) (took zero ∷ calls) e w = absurd (omega (arith, w.0))
writen_loop_lem (suc n) out (b ∷ buf) (took (suc k) ∷ calls) e w =
    writen_loop-suc out b buf k calls
    ∙ writen_loop_lem (suc n - suc k) (out ++ take (suc k) (b ∷ buf)) (drop (suc k) (b ∷ buf)) calls
        (omega (arith, length-drop (suc k) (b ∷ buf))) w.2
    ∙ ap write_done (
        append_assoc out (take (suc k) (b ∷ buf)) (drop (suc k) (b ∷ buf))
        ∙ ap (◌++◌ out) (take-append-drop (suc k) (b ∷ buf)))

-- If no call fails, takes nothing or takes more than it is given, and the calls go on until all is
-- taken, writen() hands the whole buffer over, in order, whatever their cuts are.
pub writen_exact :
    (buf : List ℕ) (calls : List WriteCall)
    → IsTaken (length buf) calls
    → writen buf calls ≡ write_done buf
unfolding writen
writen_exact buf calls w = writen_loop_lem (length buf) [] buf calls refl w
