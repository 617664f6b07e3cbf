-- ===== src/Base/Maps.antt =====
-- std::map<std::string, int>: pairs in the order of their keys.
use Prim.Native.Nat.{ℕ, suc, ◌-◌}
use Prim.Native.Char.{code}
use Prim.Native.String.{String}
use mathlib.Core.Path.{◌≡◌, refl, ap₂}
use mathlib.Core.Bool.{Bool, true, false, ◌&&◌}
use mathlib.Core.Option.{Option, none, some}
use mathlib.Core.List.{List, [], ◌∷◌}
use native.Mathlib.Omega.{arith}
use tcp_labs.Base.Bools.{ltb, ◌==◌, if◌then◌else◌}

-- The bytes of a literal in ASCII.
abbrev pub codes : String → List ℕ
codes String.[] = []
codes (String.◌∷◌ c s) = code c ∷ codes s

unfoldable pub str_eq : List ℕ → List ℕ → Bool
str_eq [] [] = true
str_eq [] (b ∷ bs) = false
str_eq (a ∷ as_) [] = false
str_eq (a ∷ as_) (b ∷ bs) = a == b && str_eq as_ bs

-- The order of std::string: that of the bytes, from the left.
unfoldable pub str_ltb : List ℕ → List ℕ → Bool
str_ltb [] [] = false
str_ltb [] (b ∷ bs) = true
str_ltb (a ∷ as_) [] = false
str_ltb (a ∷ as_) (b ∷ bs) = if ltb a b then true else if ltb b a then false else str_ltb as_ bs

pub str_eq→eq : (xs ys : List ℕ) → str_eq xs ys ≡ true → xs ≡ ys
unfolding str_eq
str_eq→eq [] [] h = refl
str_eq→eq [] (y ∷ ys) h = absurd (ground arith)
str_eq→eq (x ∷ xs) [] h = absurd (ground arith)
str_eq→eq (x ∷ xs) (y ∷ ys) h = ap₂ ◌∷◌ (ground arith) (str_eq→eq xs ys (ground arith))

pub str_eq_refl : (xs : List ℕ) → str_eq xs xs ≡ true
unfolding str_eq
str_eq_refl [] = refl
str_eq_refl (x ∷ xs) = ground (arith, str_eq_refl xs)

abbrev pub Map : Type 0
Map = List (List ℕ × ℕ)

unfoldable pub find : List ℕ → Map → Option ℕ
find k [] = none
find k ((j, w) ∷ m) = if str_eq j k then some w else find k m

-- `m[k] = v`
unfoldable pub assign : List ℕ → ℕ → Map → Map
assign k v [] = (k, v) ∷ []
assign k v ((j, w) ∷ m) =
    let later = (j, w) ∷ assign k v m in
    if str_eq j k then (k, v) ∷ m else if str_ltb k j then (k, v) ∷ (j, w) ∷ m else later

-- The loop that erases the first pair with the value `v`.
unfoldable pub erase_value : ℕ → Map → Map
erase_value v [] = []
erase_value v ((j, w) ∷ m) = if w == v then m else (j, w) ∷ erase_value v m

-- How many keys have the value `v`.
unfoldable pub count_value : ℕ → Map → ℕ
count_value v [] = 0
count_value v ((j, w) ∷ m) = if w == v then suc (count_value v m) else count_value v m

pub find-assign :
    (j k : List ℕ) (v : ℕ) (m : Map)
    → find j (assign k v m) ≡ (if str_eq k j then some v else find j m)
unfolding find assign
find-assign j k v [] = refl
find-assign j k v ((i, w) ∷ m) = ground (
  arith,
  find-assign j k v m,
  str_eq→eq i k,
  str_eq→eq i j,
  str_eq→eq k j,
  str_eq_refl k,
  str_eq_refl j,
)

-- One pair with the value goes, if there is one.
pub count_value-erase_value :
    (u v : ℕ) (m : Map)
    → count_value u (erase_value v m) ≡ (if u == v then count_value u m - 1 else count_value u m)
unfolding count_value erase_value
count_value-erase_value u v [] = ground arith
count_value-erase_value u v ((j, w) ∷ m) = ground (arith, count_value-erase_value u v m)

-- A key that is not there adds one pair.
pub count_value-assign :
    (u v : ℕ) (k : List ℕ) (m : Map)
    → find k m ≡ none
    → count_value u (assign k v m) ≡ (if u == v then suc (count_value u m) else count_value u m)
unfolding count_value assign find
count_value-assign u v k [] h = ground arith
count_value-assign u v k ((j, w) ∷ m) h = ground (arith, count_value-assign u v k m)

-- A value that no key has is found under no key.
pub find-ne_of_count : (k : List ℕ) (v : ℕ) (m : Map) → count_value v m ≡ 0 → find k m ≡ some v → ⊥
unfolding count_value find
find-ne_of_count k v [] h e = ground arith
find-ne_of_count k v ((j, w) ∷ m) h e = ground (arith, find-ne_of_count k v m)
