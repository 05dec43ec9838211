-- ===== src/Input/Scan.antt =====
-- What ProcessOneCommand and ProcessOneJoystickCommand use of sscanf and std::string: the format
-- "%c %d %d ...", find, substr and c_str, over lists of character codes.
pub mod Numerals
use host_camera_server.Base.{
  ℕ, zero, suc, ◌+◌, ◌-◌, ◌*◌, ◌%◌, ◌≡◌, List, [], ◌∷◌, Bool, true, false, ◌||◌, ◌&&◌, ℤ, pos,
  negsuc, Option, none, some, u16, signed32, ltb, leb, ◌==◌, take, drop, if◌then◌else◌,
}

-- isspace in the "C" locale.
unfoldable pub is_space : ℕ → Bool
is_space c = c == 32 || leb 9 c && leb c 13

unfoldable pub is_digit : ℕ → Bool
is_digit c = leb 48 c && leb c 57

-- A white-space directive of the format.
unfoldable pub skip_space : List ℕ → List ℕ
skip_space [] = []
skip_space (c ∷ cs) = if is_space c then skip_space cs else c ∷ cs

-- The longest run of digits, read onto `acc`, and what follows it.
unfoldable pub scan_digits : ℕ → List ℕ → ℕ × List ℕ
scan_digits acc [] = (acc, [])
scan_digits acc (c ∷ cs) =
    let rest = scan_digits (acc * 10 + (c - 48)) cs in if is_digit c then rest else (acc, c ∷ cs)

-- A number needs one digit at least.
unfoldable pub scan_unsigned : Bool → List ℕ → Option (Bool × ℕ × List ℕ)
unfolding is_digit scan_digits
scan_unsigned negative [] = none
scan_unsigned negative (c ∷ cs) =
    let (n, rest) = scan_digits 0 (c ∷ cs) in if is_digit c then some (negative, n, rest) else none

unfoldable pub scan_signed : List ℕ → Option (Bool × ℕ × List ℕ)
unfolding scan_unsigned
scan_signed [] = none
scan_signed (c ∷ cs) =
    if c == b'-'
    then scan_unsigned true cs
    else if c == b'+'
    then scan_unsigned false cs
    else scan_unsigned false (c ∷ cs)

-- One number: sign, magnitude and what follows; `none` is a matching or an input failure.
unfoldable pub scan_number : List ℕ → Option (Bool × ℕ × List ℕ)
unfolding skip_space is_space scan_signed
scan_number cs = scan_signed (skip_space cs)

-- "%d": the number is clamped to a 64-bit long, of which the low 32 bits are stored.
unfoldable pub store_int : Bool → ℕ → ℤ
store_int negative n =
    if negative
    then signed32 (
        (4294967296 - (if ltb 9223372036854775808 n then 9223372036854775808 else n) % 4294967296)
        % 4294967296)
    else signed32 ((if ltb 9223372036854775807 n then 9223372036854775807 else n) % 4294967296)

-- "%hu": the number is read as an unsigned long, negated if it has a minus sign, and the low 16 bits
-- are stored; one that is too large gives ULONG_MAX.
unfoldable pub store_u16 : Bool → ℕ → ℕ
store_u16 negative n =
    if ltb 18446744073709551615 n
    then 65535
    else if negative
    then (65536 - n % 65536) % 65536
    else u16 n

-- " %d %d ..." onto variables that hold `vs`; from the first failure on they keep their values.
unfoldable pub scan_ints : List ℤ → List ℕ → List ℤ
unfolding scan_number store_int
scan_ints [] cs = []
scan_ints (v ∷ vs) cs = elim (scan_number cs) [
  | none ↦ v ∷ vs
  | some (negative, n, rest) ↦ store_int negative n ∷ scan_ints vs rest
]

-- " %hu %d" onto `code` and `value`.
unfoldable pub scan_code_value : ℕ → ℤ → List ℕ → ℕ × ℤ
unfolding scan_number store_int store_u16
scan_code_value code value cs = elim (scan_number cs) [
  | none ↦ (code, value)
  | some (negative, n, rest) ↦ (
    store_u16 negative n,
    elim (scan_number rest) [ none ↦ value | some (negative', n', _) ↦ store_int negative' n' ],
  )
]

-- The characters before the first NUL, which is where sscanf stops.
unfoldable pub c_str : List ℕ → List ℕ
c_str [] = []
c_str (c ∷ cs) = if c == 0 then [] else c ∷ c_str cs

-- "%c" takes the first character, whatever it is.
unfoldable pub after_char : List ℕ → List ℕ
unfolding c_str
after_char cmd = drop 1 (c_str cmd)

-- The distance to the first newline.
unfoldable pub newline_in : List ℕ → Option ℕ
newline_in [] = none
newline_in (c ∷ cs) = elim (c == 10) [
  | true ↦ some 0
  | false ↦ elim (newline_in cs) [ none ↦ none | some k ↦ some (k + 1) ]
]

-- msg.find("\n", begin), an index into `msg`.
unfoldable pub find_newline : List ℕ → ℕ → Option ℕ
unfolding newline_in
find_newline msg begin = elim (newline_in (drop begin msg)) [
  | none ↦ none
  | some k ↦ some (begin + k)
]

-- msg.substr(begin, count).
unfoldable pub substr : List ℕ → ℕ → ℕ → List ℕ
substr msg begin count = take count (drop begin msg)
