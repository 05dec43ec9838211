-- ===== src/Input/Scan/Numerals.antt =====
-- Reading back decimal numerals that stand in fields after a command letter.
use host_camera_server.Base.{
  ℕ, zero, suc, ◌+◌, ◌-◌, ◌*◌, ◌≤◌, ◌<◌, ◌≡◌, ◌≢◌, refl, ap, List, [], ◌∷◌, ◌++◌, map, append_assoc,
  true, false, ℤ, pos, none, some, All, arith, length, take,
}
unfoldable pub use host_camera_server.Base.{value_onto, value}
use host_camera_server.Input.Scan.{
  is_digit, scan_digits, scan_number, store_int, scan_ints, c_str, newline_in,
}

abbrev pub IsDigit : ℕ → Type 0
IsDigit c = is_digit c ≡ true

abbrev pub IsNumeral : List ℕ → Type 0
IsNumeral [] = ⊥
IsNumeral (c ∷ cs) = IsDigit c × All IsDigit cs

-- The text does not go on with a digit.
abbrev pub IsEnd : List ℕ → Type 0
IsEnd [] = Unit {0}
IsEnd (c ∷ cs) = is_digit c ≡ false

-- Each numeral after a blank.
abbrev pub fields : List (List ℕ) → List ℕ
fields [] = []
fields (ds ∷ dss) = 32 ∷ ds ++ fields dss

digit-range : (c : ℕ) → IsDigit c → (48 ≤ c) × (c ≤ 57)
unfolding is_digit
digit-range c h = ground arith

pub scan_digits-append :
    (acc : ℕ) (ds rest : List ℕ)
    → All IsDigit ds
    → IsEnd rest
    → scan_digits acc (ds ++ rest) ≡ (value_onto acc ds, rest)
unfolding scan_digits value_onto
scan_digits-append acc [] [] h e = refl
scan_digits-append acc [] (c ∷ rest) h e = rw (e, scan_digits)
scan_digits-append acc (d ∷ ds) rest h e =
    rw (h.0, scan_digits) (scan_digits-append (acc * 10 + (d - 48)) ds rest h.1 e)

pub scan_number-field :
    (ds rest : List ℕ)
    → IsNumeral ds
    → IsEnd rest
    → scan_number (32 ∷ ds ++ rest) ≡ some (false, value ds, rest)
unfolding scan_number is_digit
scan_number-field [] rest h e = absurd h
scan_number-field (d ∷ ds) rest h e =
    ground (arith, digit-range d h.0, scan_digits-append 0 (d ∷ ds) rest h e)

IsEnd-fields : (dss : List (List ℕ)) (rest : List ℕ) → IsEnd rest → IsEnd (fields dss ++ rest)
unfolding is_digit
IsEnd-fields [] rest e = e
IsEnd-fields (ds ∷ dss) rest e = refl

-- The fields are stored in the variables one after the other.
pub scan_ints-fields :
    (vs : List ℤ) (dss : List (List ℕ)) (rest : List ℕ)
    → length vs ≡ length dss
    → All IsNumeral dss
    → IsEnd rest
    → scan_ints vs (fields dss ++ rest) ≡ map (λ ds. store_int false (value ds)) dss
unfolding scan_ints
scan_ints-fields [] [] rest l h e = refl
scan_ints-fields [] (ds ∷ dss) rest l h e = absurd (omega arith)
scan_ints-fields (v ∷ vs) [] rest l h e = absurd (omega arith)
scan_ints-fields (v ∷ vs) (ds ∷ dss) rest l h e =
    let here = scan_number-field ds (fields dss ++ rest) h.0 (IsEnd-fields dss rest e) in
    let later = scan_ints-fields vs dss rest (omega arith) h.1 e in
    ground (arith, here, later, append_assoc ds (fields dss) rest)

pub store_int-small : (n : ℕ) → n < 2147483648 → store_int false n ≡ pos n
unfolding store_int
store_int-small n h = ground arith

-- Neither a NUL nor a newline.
abbrev pub IsPlain : ℕ → Type 0
IsPlain c = (c ≢ 0) × (c ≢ 10)

pub All-append : (xs ys : List ℕ) → All IsPlain xs → All IsPlain ys → All IsPlain (xs ++ ys)
All-append [] ys h k = k
All-append (x ∷ xs) ys h k = (h.0, All-append xs ys h.1 k)

digits-IsPlain : (ds : List ℕ) → All IsDigit ds → All IsPlain ds
digits-IsPlain [] h = tt
digits-IsPlain (d ∷ ds) h =
    let (low, high) = digit-range d h.0 in ((omega arith, omega arith), digits-IsPlain ds h.1)

pub numeral-IsPlain : (ds : List ℕ) → IsNumeral ds → All IsPlain ds
numeral-IsPlain [] h = tt
numeral-IsPlain (d ∷ ds) h = digits-IsPlain (d ∷ ds) h

pub fields-IsPlain : (dss : List (List ℕ)) → All IsNumeral dss → All IsPlain (fields dss)
fields-IsPlain [] h = tt
fields-IsPlain (ds ∷ dss) h =
    (omega arith, All-append ds (fields dss) (numeral-IsPlain ds h.0) (fields-IsPlain dss h.1))

pub c_str-append : (xs ys : List ℕ) → All IsPlain xs → c_str (xs ++ ys) ≡ xs ++ c_str ys
unfolding c_str
c_str-append [] ys h = refl
c_str-append (x ∷ xs) ys h = ground (arith, c_str-append xs ys h.1)

pub newline_in-append :
    (xs ys : List ℕ) → All IsPlain xs → newline_in (xs ++ 10 ∷ ys) ≡ some (length xs)
unfolding newline_in
newline_in-append [] ys h = refl
newline_in-append (x ∷ xs) ys h = ground (arith, newline_in-append xs ys h.1)

pub newline_in-none : (xs : List ℕ) → All IsPlain xs → newline_in xs ≡ none
unfolding newline_in
newline_in-none [] h = refl
newline_in-none (x ∷ xs) h = ground (arith, newline_in-none xs h.1)

-- Taking at least a whole line leaves the line and nothing, or its newline and more.
pub take-line :
    (n : ℕ) (xs ys : List ℕ)
    → length xs ≤ n
    → (k : ℕ) × (take n (xs ++ 10 ∷ ys) ≡ xs ++ take k (10 ∷ ys))
take-line n [] ys h = (n, refl)
take-line zero (x ∷ xs) ys h = absurd (omega arith)
take-line (suc n) (x ∷ xs) ys h = let (k, e) = take-line n xs ys (omega arith) in (k, ap (◌∷◌ x) e)

pub IsEnd-c_str-take : (n : ℕ) (ys : List ℕ) → IsEnd (c_str (take n (10 ∷ ys)))
unfolding c_str is_digit
IsEnd-c_str-take zero ys = tt
IsEnd-c_str-take (suc n) ys = refl
