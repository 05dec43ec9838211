-- ===== src/Input/Command.antt =====
-- Touch messages: ProcessOneCommand and onInputMessage of source/virtual_input_receiver.cc.
pub mod Termination
pub mod Splitting
pub mod Lines
use host_camera_server.Base.{
  ℕ, zero, suc, ◌+◌, ◌*◌, ◌≡◌, List, [], ◌∷◌, Bool, true, false, ◌||◌, ◌&&◌, ℤ, pos, negsuc, is_neg,
  Option, none, some, pattern32, ltb, ◌==◌, get_or, length, if◌then◌else◌,
}
use host_camera_server.Input.Device.{
  Platform, Receiver, max_slot, max_position_x, max_position_y, max_pressure, send_commit,
  send_wait,
}
use host_camera_server.Input.Touch.{send_reset, send_down, send_up, send_move}
use host_camera_server.Input.Scan.{scan_ints, after_char, find_newline, substr}

-- `slot < 0 || (uint32_t)slot > kMaxSlot`, and the like for the other parameters.
unfoldable pub out_of_range : ℤ → ℕ → Bool
out_of_range v limit = is_neg v || ltb limit (pattern32 v)

unfoldable pub bad_position : ℤ → ℤ → ℤ → ℤ → Bool
unfolding out_of_range
bad_position slot x y pressure =
    out_of_range slot max_slot
    || out_of_range x max_position_x
    || out_of_range y max_position_y
    || out_of_range pressure max_pressure

abbrev pub unset : ℤ
unset = negsuc 0

abbrev int_at : List ℤ → ℕ → ℤ
int_at vs i = get_or vs i unset

module _ (os : Platform) where
  -- The checks and the call of `d`, once sscanf has set slot, x, y and pressure.
  unfoldable pub down_with : List ℤ → Receiver → Receiver × Bool
  unfolding bad_position
  down_with vs r =
      if bad_position (int_at vs 0) (int_at vs 1) (int_at vs 2) (int_at vs 3)
      then (r, false)
      else ((send_down os (int_at vs 0) (int_at vs 1) (int_at vs 2) (int_at vs 3) r).0, true)

  unfoldable pub down_command : List ℕ → Receiver → Receiver × Bool
  down_command cmd r = down_with (scan_ints (unset ∷ unset ∷ unset ∷ unset ∷ []) (after_char cmd)) r

  unfoldable pub move_with : List ℤ → Receiver → Receiver × Bool
  unfolding bad_position
  move_with vs r =
      if bad_position (int_at vs 0) (int_at vs 1) (int_at vs 2) (int_at vs 3)
      then (r, false)
      else ((send_move os (int_at vs 0) (int_at vs 1) (int_at vs 2) (int_at vs 3) r).0, true)

  unfoldable pub move_command : List ℕ → Receiver → Receiver × Bool
  move_command cmd r = move_with (scan_ints (unset ∷ unset ∷ unset ∷ unset ∷ []) (after_char cmd)) r

  unfoldable pub up_with : List ℤ → Receiver → Receiver × Bool
  unfolding out_of_range
  up_with vs r =
      if out_of_range (int_at vs 0) max_slot
      then (r, false)
      else ((send_up os (int_at vs 0) r).0, true)

  unfoldable pub up_command : List ℕ → Receiver → Receiver × Bool
  up_command cmd r = up_with (scan_ints (unset ∷ []) (after_char cmd)) r

-- `ms <= 0` is refused.
unfoldable pub wait_with : List ℤ → Receiver → Receiver × Bool
wait_with vs r =
    let ms = get_or vs 0 (pos 0) in
    if is_neg ms || pattern32 ms == 0 then (r, false) else (send_wait (pattern32 ms) r, true)

-- `ms` starts as 0.
unfoldable pub wait_command : List ℕ → Receiver → Receiver × Bool
wait_command cmd r = wait_with (scan_ints (pos 0 ∷ []) (after_char cmd)) r

-- The switch on `cmd[0]`, which is NUL for an empty string.
unfoldable pub process_one_command : Platform → List ℕ → Receiver → Receiver × Bool
process_one_command os cmd r =
    let c = get_or cmd 0 0 in
    if c == b'c'
    then ((send_commit os r).0, true)
    else if c == b'r'
    then ((send_reset os r).0, true)
    else if c == b'd'
    then down_command os cmd r
    else if c == b'u'
    then up_command os cmd r
    else if c == b'm'
    then move_command os cmd r
    else if c == b'w'
    then wait_command cmd r
    else (r, true)

-- A carriage return after the newline is passed over.
unfoldable pub next_begin : List ℕ → ℕ → ℕ
next_begin msg end = if get_or msg (end + 1) 0 == 13 then end + 2 else end + 1

-- `while (true)` of onInputMessage, with fuel: `none` if the fuel runs out. The second argument of
-- substr is `end`, as in the source.
unfoldable pub input_loop : Platform → ℕ → List ℕ → ℕ → Receiver → Option Receiver
input_loop os zero msg begin r = none
input_loop os (suc fuel) msg begin r = elim (find_newline msg begin) [
  | none ↦ some r
  | some end ↦
      input_loop os fuel msg (next_begin msg end)
        (process_one_command os (substr msg begin end) r).0
]

-- onInputMessage, with fuel for every character. The first part of the IOResult is always 0.
unfoldable pub on_input_message : Platform → List ℕ → Receiver → Option (Receiver × ℤ)
unfolding input_loop
on_input_message os msg r = elim (input_loop os (length msg + 1) msg 0 r) [
  | none ↦ none
  | some r' ↦ some (r', pos 0)
]
