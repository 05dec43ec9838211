-- ===== src/Input/Command/Termination.antt =====
-- The loops over a message come to an end with the fuel that they are given.
use host_camera_server.Base.{
  ℕ, zero, suc, ◌+◌, ◌≤◌, ◌<◌, ◌≡◌, ◌≢◌, refl, inl, inr, List, [], ◌∷◌, pos, some, arith, length,
  length-drop, drop, Option-cases, Bool-cases, ◌==◌, get_or,
}
use host_camera_server.Input.Device.{Platform, Receiver}
use host_camera_server.Input.Scan.{newline_in, find_newline, substr}
use host_camera_server.Input.Joystick.{
  process_one_joystick_command, joystick_loop, on_joystick_message,
}
use host_camera_server.Input.Command.{process_one_command, next_begin, input_loop, on_input_message}

newline_in-lt : (cs : List ℕ) (k : ℕ) → newline_in cs ≡ some k → k < length cs
unfolding newline_in
newline_in-lt [] k h = ground arith
newline_in-lt (c ∷ cs) k h = elim (Bool-cases (c == 10)) [
  | inl e ↦ ground arith
  | inr e ↦ elim (Option-cases (newline_in cs)) [
    | inl f ↦ ground arith
    | inr (j, f) ↦ ground (arith, newline_in-lt cs j f)
  ]
]

pub find_newline-bounds :
    (msg : List ℕ) (begin end : ℕ)
    → find_newline msg begin ≡ some end
    → (begin ≤ end) × (end < length msg)
unfolding find_newline
find_newline-bounds msg begin end h = elim (Option-cases (newline_in (drop begin msg))) [
  | inl f ↦ ground arith
  | inr (k, f) ↦ ground (arith, newline_in-lt (drop begin msg) k f, length-drop begin msg)
]

pub next_begin-gt : (msg : List ℕ) (end : ℕ) → end < next_begin msg end
unfolding next_begin
next_begin-gt msg end = ground arith

get_or-lt : (xs : List ℕ) (i : ℕ) → get_or xs i 0 ≢ 0 → i < length xs
get_or-lt [] i h = absurd (h refl)
get_or-lt (x ∷ xs) zero h = omega arith
get_or-lt (x ∷ xs) (suc i) h = omega (arith, get_or-lt xs i h)

pub next_begin-le : (msg : List ℕ) (end : ℕ) → end < length msg → next_begin msg end ≤ length msg
unfolding next_begin
next_begin-le msg end h = ground (arith, get_or-lt msg (end + 1))

input_loop-total :
    (os : Platform) (fuel : ℕ) (msg : List ℕ) (begin : ℕ) (r : Receiver)
    → begin ≤ length msg
    → length msg < begin + fuel
    → (r' : Receiver) × (input_loop os fuel msg begin r ≡ some r')
unfolding input_loop
input_loop-total os zero msg begin r b h = absurd (omega arith)
input_loop-total os (suc fuel) msg begin r b h = elim (Option-cases (find_newline msg begin)) [
  | inl e ↦ (r, rw (e, input_loop))
  | inr (end, e) ↦
      let (low, high) = find_newline-bounds msg begin end e in
      let (r', done) =
        input_loop-total os fuel msg (next_begin msg end)
          (process_one_command os (substr msg begin end) r).0 (next_begin-le msg end high)
          (omega (arith, next_begin-gt msg end)) in
      (r', rw (e, input_loop) done)
]

-- Every input message is worked through to its end, and the result is 0.
pub on_input_message-total :
    (os : Platform) (msg : List ℕ) (r : Receiver)
    → (r' : Receiver) × (on_input_message os msg r ≡ some (r', pos 0))
unfolding on_input_message
on_input_message-total os msg r =
    let (r', done) = input_loop-total os (length msg + 1) msg 0 r (omega arith) (omega arith) in
    (r', rw (on_input_message, done))

joystick_loop-total :
    (os : Platform) (fuel : ℕ) (msg : List ℕ) (begin : ℕ) (r : Receiver)
    → begin ≤ length msg
    → length msg < begin + fuel
    → (r' : Receiver) × (joystick_loop os fuel msg begin r ≡ some r')
unfolding joystick_loop
joystick_loop-total os zero msg begin r b h = absurd (omega arith)
joystick_loop-total os (suc fuel) msg begin r b h = elim (Option-cases (find_newline msg begin)) [
  | inl e ↦ (r, rw (e, joystick_loop))
  | inr (end, e) ↦
      let (low, high) = find_newline-bounds msg begin end e in
      let (r', done) =
        joystick_loop-total os fuel msg (next_begin msg end)
          (process_one_joystick_command os (substr msg begin end) r).0 (next_begin-le msg end high)
          (omega (arith, next_begin-gt msg end)) in
      (r', rw (e, joystick_loop) done)
]

-- Every joystick message is worked through to its end, and the result is 0.
pub on_joystick_message-total :
    (os : Platform) (msg : List ℕ) (r : Receiver)
    → (r' : Receiver) × (on_joystick_message os msg r ≡ some (r', pos 0))
unfolding on_joystick_message
on_joystick_message-total os msg r =
    let (r', done) = joystick_loop-total os (length msg + 1) msg 0 r (omega arith) (omega arith) in
    (r', rw (on_joystick_message, done))
