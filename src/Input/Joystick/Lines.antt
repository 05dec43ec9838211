-- ===== src/Input/Joystick/Lines.antt =====
-- Joystick messages that follow the documented grammar: one command in each line, with its numbers.
use host_camera_server.Base.{
  ℕ, zero, suc, ◌+◌, ◌-◌, ◌≤◌, ◌<◌, ◌≡◌, ◌≢◌, refl, ap, List, [], ◌∷◌, ◌++◌, append_assoc, Bool,
  true, false, ℤ, pos, negsuc, some, All, arith, length, length-append, drop-length_append, take,
  get_or,
}
use host_camera_server.Input.Device.{Platform, Receiver, emit, commit}
use host_camera_server.Input.Scan.{
  is_digit, after_char, c_str, find_newline, newline_in, substr, store_int, store_u16,
  scan_code_value, scan_number,
}
use host_camera_server.Input.Scan.Numerals.{
  IsNumeral, IsEnd, IsPlain, value, numeral-IsPlain, All-append, scan_digits-append,
  scan_number-field, store_int-small, c_str-append, IsEnd-c_str-take,
}
use host_camera_server.Input.Command.Splitting.{
  past, regroup, find_newline-line, substr-line, next_begin-line,
}
use host_camera_server.Input.Command.{next_begin}
use host_camera_server.Input.Joystick.{
  coded_command, click, process_one_joystick_command, joystick_loop, on_joystick_message,
}

-- The types of the events that have a code and a value.
pub data Kind : Type 0 where
  keys miscs axes : Kind

-- A line of a message: the code is a string of digits, and so is the value, which may be negative.
pub data Line : Type 0 where
  commits plugs pulls : Line
  codes : Kind → List ℕ → Bool → List ℕ → Line

abbrev pub kind_letter : Kind → ℕ
kind_letter keys = b'k'
kind_letter miscs = b'm'
kind_letter axes = b'a'

abbrev pub signed_text : Bool → List ℕ → List ℕ
signed_text true ds = b'-' ∷ ds
signed_text false ds = ds

-- The characters of a line, with no newline.
abbrev pub text : Line → List ℕ
text commits = b'c' ∷ []
text plugs = b'i' ∷ []
text pulls = b'p' ∷ []
text (codes t code negative ds) = kind_letter t ∷ 32 ∷ code ++ 32 ∷ signed_text negative ds

abbrev pub message : List Line → List ℕ
message [] = []
message (l ∷ ls) = text l ++ 10 ∷ message ls

-- Codes fit a uint16_t, and values an int.
abbrev pub IsLine : Line → Type 0
IsLine (codes t code negative ds) =
    IsNumeral code × IsNumeral ds × (value code < 65536) × (value ds < 2147483648)
IsLine _ = Unit {0}

abbrev pub signed : Bool → ℕ → ℤ
signed false n = pos n
signed true zero = pos 0
signed true n = negsuc (n - 1)

-- The events that a line asks for.
module _ (os : Platform) where
  abbrev pub kind_type : Kind → ℕ
  kind_type keys = os.ev_key
  kind_type miscs = os.ev_msc
  kind_type axes = os.ev_abs

  abbrev pub act : Line → Receiver → Receiver
  act commits r = commit os r
  act plugs r = click os 631 r
  act pulls r = click os 632 r
  act (codes t code negative ds) r =
      emit os (kind_type t) (value code) (signed negative (value ds)) r

  abbrev pub act_all : List Line → Receiver → Receiver
  act_all [] r = r
  act_all (l ∷ ls) r = act_all ls (act l r)

store_u16-small : (n : ℕ) → n < 65536 → store_u16 false n ≡ n
unfolding store_u16
store_u16-small n h = ground arith

store_int-signed :
    (negative : Bool) (n : ℕ) → n < 2147483648 → store_int negative n ≡ signed negative n
unfolding store_int
store_int-signed false n h = store_int-small n h
store_int-signed true zero h = refl
store_int-signed true (suc n) h = ground arith

scan_number-signed :
    (negative : Bool) (ds rest : List ℕ)
    → IsNumeral ds
    → IsEnd rest
    → scan_number (32 ∷ signed_text negative ds ++ rest) ≡ some (negative, value ds, rest)
unfolding scan_number is_digit
scan_number-signed false ds rest h e = scan_number-field ds rest h e
scan_number-signed true [] rest h e = absurd h
scan_number-signed true (d ∷ ds) rest h e = ground (arith, scan_digits-append 0 (d ∷ ds) rest h e)

IsPlain-signed_text :
    (negative : Bool) (ds : List ℕ) → IsNumeral ds → All IsPlain (signed_text negative ds)
IsPlain-signed_text true ds h = (omega arith, numeral-IsPlain ds h)
IsPlain-signed_text false ds h = numeral-IsPlain ds h

kind_letter-IsPlain : (t : Kind) → IsPlain (kind_letter t) × (kind_letter t ≢ 13)
kind_letter-IsPlain keys = omega arith
kind_letter-IsPlain miscs = omega arith
kind_letter-IsPlain axes = omega arith

text-IsPlain : (l : Line) → IsLine l → All IsPlain (text l)
text-IsPlain commits h = omega arith
text-IsPlain plugs h = omega arith
text-IsPlain pulls h = omega arith
text-IsPlain (codes t code negative ds) h = (
  (kind_letter-IsPlain t).0,
  (
    omega arith,
    All-append code (32 ∷ signed_text negative ds) (numeral-IsPlain code h.0)
        (omega arith, IsPlain-signed_text negative ds h.1),
  ),
)

head-message : (ls : List Line) → get_or (message ls) 0 0 ≢ 13
head-message [] = omega arith
head-message (commits ∷ ls) = omega arith
head-message (plugs ∷ ls) = omega arith
head-message (pulls ∷ ls) = omega arith
head-message (codes t code negative ds ∷ ls) = (kind_letter-IsPlain t).1

-- The two numbers of a line, wherever it ends.
scan_code_value-codes :
    (c : ℕ) (v : ℤ) (code : List ℕ) (negative : Bool) (ds rest : List ℕ)
    → IsLine (codes keys code negative ds)
    → IsEnd rest
    → scan_code_value c v ((32 ∷ code ++ 32 ∷ signed_text negative ds) ++ rest)
      ≡ (value code, signed negative (value ds))
unfolding scan_code_value is_digit
scan_code_value-codes c v code negative ds rest h e = rw (
  append_assoc code (32 ∷ signed_text negative ds) rest,
  scan_code_value,
  scan_number-field code (32 ∷ signed_text negative ds ++ rest) h.0 refl,
  scan_number-signed negative ds rest h.1 e,
  store_u16-small (value code) h.2,
  store_int-signed negative (value ds) h.3,
)

module _ (os : Platform) (rest : List ℕ) (e : IsEnd (c_str rest)) (r : Receiver) where
  after_char-codes :
      (t : Kind) (code : List ℕ) (negative : Bool) (ds : List ℕ)
      → IsLine (codes t code negative ds)
      → after_char (text (codes t code negative ds) ++ rest)
        ≡ (32 ∷ code ++ 32 ∷ signed_text negative ds) ++ c_str rest
  unfolding after_char
  after_char-codes t code negative ds h =
      let l = codes t code negative ds in
      rw (after_char, c_str-append (text l) rest (text-IsPlain l h)) refl

  coded_command-codes :
      (t : Kind) (code : List ℕ) (negative : Bool) (ds : List ℕ)
      → IsLine (codes t code negative ds)
      → coded_command os (kind_type os t) (text (codes t code negative ds) ++ rest) r
        ≡ act os (codes t code negative ds) r
  unfolding coded_command
  coded_command-codes t code negative ds h = rw (
    after_char-codes t code negative ds h,
    scan_code_value-codes (os.stack_code r.calls) (os.stack_value r.calls) code negative ds
        (c_str rest) h e,
  )

  process-text :
      (l : Line)
      → IsLine l
      → process_one_joystick_command os (text l ++ rest) r ≡ (act os l r, true)
  unfolding process_one_joystick_command
  process-text commits h = refl
  process-text plugs h = refl
  process-text pulls h = refl
  process-text (codes keys code negative ds) h =
      ap (λ q. (q, true)) (coded_command-codes keys code negative ds h)
  process-text (codes miscs code negative ds) h =
      ap (λ q. (q, true)) (coded_command-codes miscs code negative ds h)
  process-text (codes axes code negative ds) h =
      ap (λ q. (q, true)) (coded_command-codes axes code negative ds h)

joystick_loop-more :
    (os : Platform) (fuel : ℕ) (msg : List ℕ) (begin end : ℕ) (r : Receiver)
    → find_newline msg begin ≡ some end
    → joystick_loop os (suc fuel) msg begin r
      ≡ joystick_loop os fuel msg
          (next_begin msg end)
          (process_one_joystick_command os (substr msg begin end) r).0
unfolding joystick_loop
joystick_loop-more os fuel msg begin end r e = rw (e, joystick_loop)

joystick_loop-stop :
    (os : Platform) (fuel : ℕ) (pre : List ℕ) (r : Receiver)
    → joystick_loop os (suc fuel) (pre ++ []) (length pre) r ≡ some r
unfolding joystick_loop find_newline
joystick_loop-stop os fuel pre r =
    rw (joystick_loop, find_newline, drop-length_append pre [] (length pre) refl, newline_in)

joystick_loop-message :
    (os : Platform) (ls : List Line) (fuel : ℕ) (pre : List ℕ) (r : Receiver)
    → All IsLine ls
    → length ls < fuel
    → joystick_loop os fuel (pre ++ message ls) (length pre) r ≡ some (act_all os ls r)
joystick_loop-message os ls zero pre r h f = elim f [ ]
joystick_loop-message os [] (suc fuel) pre r h f = joystick_loop-stop os fuel pre r
joystick_loop-message os (l ∷ ls) (suc fuel) pre r h f =
    let t = text l in
    let rest = message ls in
    let (k, e) = substr-line pre t rest in
    rw
      (
        joystick_loop-more os fuel (pre ++ message (l ∷ ls)) (length pre) _ r
            (find_newline-line pre t rest (text-IsPlain l h.0)),
        next_begin-line pre t rest (head-message ls),
        e,
        process-text os (take k (10 ∷ rest)) (IsEnd-c_str-take k rest) r l h.0,
        regroup pre t rest,
      )
      (joystick_loop-message os ls fuel (past pre t rest) (act os l r) h.1 (omega arith))

length-message : (ls : List Line) → length ls ≤ length (message ls)
length-message [] = omega arith
length-message (l ∷ ls) = omega (arith, length-append (text l) (10 ∷ message ls), length-message ls)

-- A joystick message in which every line is a command with all its numbers, codes below 2 ^ 16 and
-- values within an int, sends exactly the events that its lines ask for, in their order, and reports
-- 0; what the stack held is never sent.
pub on_joystick_message-lines :
    (os : Platform) (ls : List Line) (r : Receiver)
    → All IsLine ls
    → on_joystick_message os (message ls) r ≡ some (act_all os ls r, pos 0)
unfolding on_joystick_message
on_joystick_message-lines os ls r h = rw (
  on_joystick_message,
  joystick_loop-message os ls (length (message ls) + 1) [] r h (omega (arith, length-message ls)),
)
