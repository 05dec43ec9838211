-- ===== src/Input/Command/Lines.antt =====
-- Messages that follow the documented grammar: one command in each line, with its numbers.
use host_camera_server.Base.{
  ℕ, zero, suc, ◌+◌, ◌≤◌, ◌<◌, ◌≡◌, ◌≢◌, refl, List, [], ◌∷◌, ◌++◌, map, true, false, ℤ, pos, some,
  All, arith, length, length-append, take, drop-length_append, get_or,
}
use host_camera_server.Input.Device.{Platform, Receiver, send_wait}
use host_camera_server.Input.Touch.{
  Call, commit, reset, down, move, up, wait, perform, perform_all, send_down, send_move, send_up,
}
use host_camera_server.Input.Scan.{
  after_char, c_str, find_newline, newline_in, substr, store_int, scan_ints,
}
use host_camera_server.Input.Scan.Numerals.{
  IsNumeral, IsEnd, IsPlain, value, fields, fields-IsPlain, scan_ints-fields, store_int-small,
  c_str-append, IsEnd-c_str-take,
}
use host_camera_server.Input.Command.Splitting.{
  past, regroup, find_newline-line, substr-line, next_begin-line,
}
use host_camera_server.Input.Command.{
  unset, down_with, move_with, up_with, wait_with, down_command, move_command, up_command,
  wait_command, process_one_command, next_begin, input_loop, on_input_message,
}

-- A line of a message; its numbers are strings of digits.
pub data Line : Type 0 where
  commits resets : Line
  downs moves : List ℕ → List ℕ → List ℕ → List ℕ → Line
  ups waits : List ℕ → Line

abbrev pub letter : Line → ℕ
letter commits = b'c'
letter resets = b'r'
letter (downs s x y p) = b'd'
letter (moves s x y p) = b'm'
letter (ups s) = b'u'
letter (waits ms) = b'w'

abbrev pub numbers : Line → List (List ℕ)
numbers commits = []
numbers resets = []
numbers (downs s x y p) = s ∷ x ∷ y ∷ p ∷ []
numbers (moves s x y p) = s ∷ x ∷ y ∷ p ∷ []
numbers (ups s) = s ∷ []
numbers (waits ms) = ms ∷ []

-- The characters of a line, with no newline.
abbrev pub text : Line → List ℕ
text l = letter l ∷ fields (numbers l)

abbrev pub message : List Line → List ℕ
message [] = []
message (l ∷ ls) = text l ++ 10 ∷ message ls

-- The documented ranges of the numbers; the slot may be 9, which SendDown, SendMove and SendUp refuse.
abbrev pub InRange : Line → Type 0
InRange commits = Unit {0}
InRange resets = Unit {0}
InRange (downs s x y p) = (value s ≤ 9) × (value x ≤ 32767) × (value y ≤ 32767) × (value p ≤ 255)
InRange (moves s x y p) = (value s ≤ 9) × (value x ≤ 32767) × (value y ≤ 32767) × (value p ≤ 255)
InRange (ups s) = value s ≤ 9
InRange (waits ms) = (0 < value ms) × (value ms < 2147483648)

abbrev pub IsLine : Line → Type 0
IsLine l = All IsNumeral (numbers l) × InRange l

-- The call that a line asks for.
abbrev pub call : Line → Call
call commits = commit
call resets = reset
call (downs s x y p) = down (pos (value s)) (pos (value x)) (pos (value y)) (pos (value p))
call (moves s x y p) = move (pos (value s)) (pos (value x)) (pos (value y)) (pos (value p))
call (ups s) = up (pos (value s))
call (waits ms) = wait (value ms)

after_char-text :
    (c : ℕ) (dss : List (List ℕ)) (rest : List ℕ)
    → c ≢ 0
    → All IsNumeral dss
    → after_char (c ∷ fields dss ++ rest) ≡ fields dss ++ c_str rest
unfolding after_char
after_char-text c dss rest z h =
    ground (arith, c_str-append (fields dss) rest (fields-IsPlain dss h))

module _ (rest : List ℕ) (e : IsEnd (c_str rest)) where
  scanned :
      (vs : List ℤ) (c : ℕ) (dss : List (List ℕ))
      → c ≢ 0
      → All IsNumeral dss
      → length vs ≡ length dss
      → scan_ints vs (after_char (c ∷ fields dss ++ rest))
        ≡ map (λ ds. store_int false (value ds)) dss
  scanned vs c dss z h l =
      rw (after_char-text c dss rest z h) (scan_ints-fields vs dss (c_str rest) l h e)

module _ (os : Platform) (r : Receiver) where
  down_with-small :
      (s x y p : ℕ)
      → (s ≤ 9) × (x ≤ 32767) × (y ≤ 32767) × (p ≤ 255)
      → down_with os (pos s ∷ pos x ∷ pos y ∷ pos p ∷ []) r
        ≡ ((send_down os (pos s) (pos x) (pos y) (pos p) r).0, true)
  unfolding down_with
  down_with-small s x y p k = ground arith

  move_with-small :
      (s x y p : ℕ)
      → (s ≤ 9) × (x ≤ 32767) × (y ≤ 32767) × (p ≤ 255)
      → move_with os (pos s ∷ pos x ∷ pos y ∷ pos p ∷ []) r
        ≡ ((send_move os (pos s) (pos x) (pos y) (pos p) r).0, true)
  unfolding move_with
  move_with-small s x y p k = ground arith

  up_with-small : (s : ℕ) → s ≤ 9 → up_with os (pos s ∷ []) r ≡ ((send_up os (pos s) r).0, true)
  unfolding up_with
  up_with-small s k = ground arith

  wait_with-small :
      (ms : ℕ) → (0 < ms) × (ms < 2147483648) → wait_with (pos ms ∷ []) r ≡ (send_wait ms r, true)
  unfolding wait_with
  wait_with-small ms k = ground arith

small_of_le : (n k : ℕ) → n ≤ k → k < 2147483648 → store_int false n ≡ pos n
small_of_le n k h l = store_int-small n (omega arith)

stored :
    (s x y p : List ℕ)
    → (value s ≤ 9) × (value x ≤ 32767) × (value y ≤ 32767) × (value p ≤ 255)
    → map (λ ds. store_int false (value ds)) (s ∷ x ∷ y ∷ p ∷ [])
      ≡ pos (value s) ∷ pos (value x) ∷ pos (value y) ∷ pos (value p) ∷ []
stored s x y p k = rw (
  small_of_le (value s) 9 k.0 (omega arith),
  small_of_le (value x) 32767 k.1 (omega arith),
  small_of_le (value y) 32767 k.2 (omega arith),
  small_of_le (value p) 255 k.3 (omega arith),
)

module _ (os : Platform) (rest : List ℕ) (e : IsEnd (c_str rest)) (r : Receiver) where
  process-text :
      (l : Line)
      → IsLine l
      → process_one_command os (text l ++ rest) r ≡ (perform os (call l) r, true)
  unfolding process_one_command perform down_command move_command up_command wait_command
  process-text commits h = refl
  process-text resets h = refl
  process-text (downs s x y p) h =
      rw (scanned rest e _ b'd' (s ∷ x ∷ y ∷ p ∷ []) (omega arith) h.0 refl, stored s x y p h.1)
        (down_with-small os r (value s) (value x) (value y) (value p) h.1)
  process-text (moves s x y p) h =
      rw (scanned rest e _ b'm' (s ∷ x ∷ y ∷ p ∷ []) (omega arith) h.0 refl, stored s x y p h.1)
        (move_with-small os r (value s) (value x) (value y) (value p) h.1)
  process-text (ups s) h =
      rw
        (
          scanned rest e (unset ∷ []) b'u' (s ∷ []) (omega arith) h.0 refl,
          store_int-small (value s) (omega arith),
        )
        (up_with-small os r (value s) h.1)
  process-text (waits ms) h =
      rw
        (
          scanned rest e (pos 0 ∷ []) b'w' (ms ∷ []) (omega arith) h.0 refl,
          store_int-small (value ms) h.1.1,
        )
        (wait_with-small os r (value ms) h.1)

letter-IsPlain : (l : Line) → IsPlain (letter l) × (letter l ≢ 13)
letter-IsPlain commits = omega arith
letter-IsPlain _ = omega arith

text-IsPlain : (l : Line) → IsLine l → All IsPlain (text l)
text-IsPlain l h = ((letter-IsPlain l).0, fields-IsPlain (numbers l) h.0)

head-message : (ls : List Line) → get_or (message ls) 0 0 ≢ 13
head-message [] = omega arith
head-message (l ∷ ls) = (letter-IsPlain l).1

input_loop-more :
    (os : Platform) (fuel : ℕ) (msg : List ℕ) (begin end : ℕ) (r : Receiver)
    → find_newline msg begin ≡ some end
    → input_loop os (suc fuel) msg begin r
      ≡ input_loop os fuel msg
          (next_begin msg end)
          (process_one_command os (substr msg begin end) r).0
unfolding input_loop
input_loop-more os fuel msg begin end r e = rw (e, input_loop)

input_loop-stop :
    (os : Platform) (fuel : ℕ) (pre : List ℕ) (r : Receiver)
    → input_loop os (suc fuel) (pre ++ []) (length pre) r ≡ some r
unfolding input_loop find_newline
input_loop-stop os fuel pre r =
    rw (input_loop, find_newline, drop-length_append pre [] (length pre) refl, newline_in)

input_loop-message :
    (os : Platform) (ls : List Line) (fuel : ℕ) (pre : List ℕ) (r : Receiver)
    → All IsLine ls
    → length ls < fuel
    → input_loop os fuel (pre ++ message ls) (length pre) r ≡ some (perform_all os (map call ls) r)
unfolding perform_all
input_loop-message os ls zero pre r h f = elim f [ ]
input_loop-message os [] (suc fuel) pre r h f = input_loop-stop os fuel pre r
input_loop-message os (l ∷ ls) (suc fuel) pre r h f =
    let t = text l in
    let rest = message ls in
    let (k, e) = substr-line pre t rest in
    let done = process-text os (take k (10 ∷ rest)) (IsEnd-c_str-take k (message ls)) r l h.0 in
    rw
      (
        input_loop-more os fuel (pre ++ message (l ∷ ls)) (length pre) _ r
            (find_newline-line pre t rest (text-IsPlain l h.0)),
        next_begin-line pre t rest (head-message ls),
        e,
        done,
        regroup pre t rest,
      )
      (input_loop-message os ls fuel (past pre t rest) (perform os (call l) r) h.1 (omega arith))

length-message : (ls : List Line) → length ls ≤ length (message ls)
length-message [] = omega arith
length-message (l ∷ ls) = omega (arith, length-append (text l) (10 ∷ message ls), length-message ls)

-- A message in which every line is a command of the documented grammar, with all its numbers, in the
-- documented ranges, performs exactly the calls that its lines ask for, in their order, and reports
-- 0. This holds although onInputMessage hands ProcessOneCommand more than the line.
pub on_input_message-lines :
    (os : Platform) (ls : List Line) (r : Receiver)
    → All IsLine ls
    → on_input_message os (message ls) r ≡ some (perform_all os (map call ls) r, pos 0)
unfolding on_input_message
on_input_message-lines os ls r h = rw (
  on_input_message,
  input_loop-message os ls (length (message ls) + 1) [] r h (omega (arith, length-message ls)),
)
