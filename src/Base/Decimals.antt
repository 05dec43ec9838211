-- ===== src/Base/Decimals.antt =====
-- Numbers as printf prints them, as lists of character codes.
use Prim.Native.Nat.{ℕ, zero, suc, ◌+◌, ◌-◌, ◌*◌, ◌/◌, ◌%◌, ◌≤◌, ◌<◌}
use mathlib.Core.Path.{◌≡◌, refl}
use mathlib.Core.List.{List, [], ◌∷◌, ◌++◌}
use native.Mathlib.Omega.{arith}
use host_camera_server.Base.Tests.{ltb, if◌then◌else◌}
use host_camera_server.Base.Integers.{ℤ, pos, negsuc}
use host_camera_server.Base.Lists.{length, replicate, length-append}

-- The decimal digits of a number that has at most `fuel` of them.
unfoldable pub digits : ℕ → ℕ → List ℕ
digits zero n = []
digits (suc fuel) n =
    let rest = digits fuel (n / 10) in
    if ltb n 10 then (48 + n) ∷ [] else rest ++ (48 + n % 10) ∷ []

-- The number that a string of digits stands for, read onto `acc`.
unfoldable pub value_onto : ℕ → List ℕ → ℕ
value_onto acc [] = acc
value_onto acc (c ∷ cs) = value_onto (acc * 10 + (c - 48)) cs

abbrev pub value : List ℕ → ℕ
value cs = value_onto 0 cs

value_onto-last :
    (acc : ℕ) (cs : List ℕ) (d : ℕ)
    → value_onto acc (cs ++ d ∷ []) ≡ value_onto acc cs * 10 + (d - 48)
unfolding value_onto
value_onto-last acc [] d = refl
value_onto-last acc (c ∷ cs) d = value_onto-last (acc * 10 + (c - 48)) cs d

-- The number has at most that many digits.
abbrev HasDigits : ℕ → ℕ → Type 0
HasDigits zero n = n < 1
HasDigits (suc fuel) n = HasDigits fuel (n / 10)

pub digits-value : (fuel n : ℕ) → HasDigits fuel n → value (digits fuel n) ≡ n
unfolding digits value_onto
digits-value zero n h = omega arith
digits-value (suc fuel) n h =
    ground
      (arith, digits-value fuel (n / 10) h, value_onto-last 0 (digits fuel (n / 10)) (48 + n % 10))

-- "%0wd" of an int; ten digits are enough.
unfoldable pub padded : ℕ → ℤ → List ℕ
unfolding digits
padded width (pos n) = let ds = digits 10 n in replicate (width - length ds) b'0' ++ ds
padded width (negsuc n) =
    let ds = digits 10 (n + 1) in b'-' ∷ replicate (width - 1 - length ds) b'0' ++ ds

-- "%d" of an int.
abbrev pub decimal : ℤ → List ℕ
decimal (pos n) = digits 10 n
decimal (negsuc n) = b'-' ∷ digits 10 (n + 1)

pub digits-length : (fuel n : ℕ) → length (digits fuel n) ≤ fuel
unfolding digits
digits-length zero n = omega arith
digits-length (suc fuel) n =
    ground (
      arith,
      digits-length fuel (n / 10),
      length-append (digits fuel (n / 10)) ((48 + n % 10) ∷ []),
    )

pub decimal-length : (z : ℤ) → length (decimal z) ≤ 11
decimal-length (pos n) = omega (arith, digits-length 10 n)
decimal-length (negsuc n) = omega (arith, digits-length 10 (n + 1))

length-replicate : (n c : ℕ) → length (replicate n c) ≡ n
length-replicate zero c = omega arith
length-replicate (suc n) c = omega (arith, length-replicate n c)

-- Padding to at most ten places takes no more room.
pub padded-length : (width : ℕ) (z : ℤ) → width ≤ 10 → length (padded width z) ≤ 11
unfolding padded
padded-length width (pos n) h =
    let ds = digits 10 n in
    let k = width - length ds in
    omega (arith, digits-length 10 n, length-append (replicate k b'0') ds, length-replicate k b'0')
padded-length width (negsuc n) h =
    let ds = digits 10 (n + 1) in
    let k = width - 1 - length ds in
    omega (
      arith,
      digits-length 10 (n + 1),
      length-append (replicate k b'0') ds,
      length-replicate k b'0',
    )
