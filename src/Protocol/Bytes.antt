-- ===== src/Protocol/Bytes.antt =====
-- Numbers as little-endian bytes, and readers that take a prefix of a byte string.
use mathlib.Core.List.{append-nil}
use tcp_labs.Base.{
  replicate, ◌-◌, ℕ, zero, suc, ◌+◌, ◌*◌, ◌/◌, ◌%◌, ◌<◌, ◌≡◌, refl, ap, List, [], ◌∷◌, ◌++◌, length,
  length-append, take, drop, take-append_exact, drop-append_exact, arith,
}

abbrev pub Bytes : Type 0
Bytes = List ℕ

-- 256 ^ w, the number of values of `w` bytes.
abbrev pub span : ℕ → ℕ
span zero = 1
span (suc w) = 256 * span w

unfoldable pub le_bytes : ℕ → ℕ → Bytes
le_bytes zero n = []
le_bytes (suc w) n = (n % 256) ∷ le_bytes w (n / 256)

unfoldable pub of_le : Bytes → ℕ
of_le [] = 0
of_le (b ∷ bytes) = b + 256 * of_le bytes

pub length-le_bytes : (w n : ℕ) → length (le_bytes w n) ≡ w
unfolding le_bytes
length-le_bytes zero n = refl
length-le_bytes (suc w) n = ap suc (length-le_bytes w (n / 256))

pub of_le-le_bytes : (w n : ℕ) → n < span w → of_le (le_bytes w n) ≡ n
unfolding le_bytes of_le
of_le-le_bytes zero n h = omega arith
of_le-le_bytes (suc w) n h = omega (arith, of_le-le_bytes w (n / 256) (omega arith))

-- Into memory that is zero: where the bytes are not enough, the rest stays so.
abbrev pub Reader : Type 0 → Type 0
Reader A = Bytes → A × Bytes

infixl 5 ◌>>=◌
abbrev pub ◌>>=◌ : {A B : Type 0} → Reader A → (A → Reader B) → Reader B
◌>>=◌ m f bytes = let (a, rest) = m bytes in f a rest

abbrev pub give : {A : Type 0} → A → Reader A
give a bytes = (a, bytes)

-- A `char` array.
unfoldable pub text : ℕ → Reader Bytes
text n bytes = (take n bytes ++ replicate (n - length bytes) 0, drop n bytes)

-- An integer of `w` bytes.
unfoldable pub number : ℕ → Reader ℕ
number w = do bytes ← text w; give (of_le bytes)

pub text-append : (n : ℕ) (xs rest : Bytes) → length xs ≡ n → text n (xs ++ rest) ≡ (xs, rest)
unfolding text replicate
text-append n xs rest h =
    let enough : n - length (xs ++ rest) ≡ 0 = omega (arith, h, length-append xs rest) in
    rw (enough, take-append_exact n xs rest h, drop-append_exact n xs rest h)
      (ap (λ bytes. (bytes, rest)) (append-nil xs))

pub number-append :
    (w n : ℕ) (rest : Bytes) → n < span w → number w (le_bytes w n ++ rest) ≡ (n, rest)
unfolding number
number-append w n rest h =
    simp (◌>>=◌, text-append w (le_bytes w n) rest (length-le_bytes w n), of_le-le_bytes w n h)
