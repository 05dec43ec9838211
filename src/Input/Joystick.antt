-- ===== src/Input/Joystick.antt =====
-- Joystick messages: ProcessOneJoystickCommand and onJoystickMessage of
-- source/virtual_input_receiver.cc.
pub mod Lines
use host_camera_server.Base.{
  ℕ, zero, suc, ◌+◌, List, Bool, true, ℤ, pos, Option, none, some, ◌==◌, get_or, length, ◌∷◌,
  if◌then◌else◌, ◌▹◌,
}
use host_camera_server.Input.Device.{
  Platform, Receiver, slept, send_event, emit, send_commit, commit,
}
use host_camera_server.Input.Scan.{scan_code_value, after_char, find_newline, substr}
use host_camera_server.Input.Command.{next_begin}

-- usleep(2000).
unfoldable pub pause : Receiver → Receiver
pause r = record r { effects = slept 2000 ∷ r.effects }

module _ (os : Platform) where
  -- The commands `k`, `m` and `a`: an event of the given type, with the code and value that sscanf
  -- reads onto variables that hold what the stack held.
  unfoldable pub coded_command : ℕ → List ℕ → Receiver → Receiver
  unfolding send_event
  coded_command type cmd r =
      let (code, value) =
        scan_code_value (os.stack_code r.calls) (os.stack_value r.calls) (after_char cmd) in
      emit os type code value r

  -- The commands `i` and `p`: a click of the key that stands for plugging in or pulling out.
  unfoldable pub click : ℕ → Receiver → Receiver
  unfolding send_event send_commit pause
  click code r =
      r
      ▹ emit os os.ev_key code (pos 1)
      ▹ commit os
      ▹ pause
      ▹ emit os os.ev_key code (pos 0)
      ▹ commit os

  unfoldable pub process_one_joystick_command : List ℕ → Receiver → Receiver × Bool
  unfolding send_commit coded_command click
  process_one_joystick_command cmd r =
      let c = get_or cmd 0 0 in
      (
        if c == b'c'
            then commit os r
            else if c == b'k'
            then coded_command os.ev_key cmd r
            else if c == b'm'
            then coded_command os.ev_msc cmd r
            else if c == b'a'
            then coded_command os.ev_abs cmd r
            else if c == b'i'
            then click 631 r
            else if c == b'p'
            then click 632 r
            else r,
        true,
      )

  unfoldable pub joystick_loop : ℕ → List ℕ → ℕ → Receiver → Option Receiver
  joystick_loop zero msg begin r = none
  joystick_loop (suc fuel) msg begin r = elim (find_newline msg begin) [
    | none ↦ some r
    | some end ↦
        joystick_loop fuel msg (next_begin msg end)
          (process_one_joystick_command (substr msg begin end) r).0
  ]

  unfoldable pub on_joystick_message : List ℕ → Receiver → Option (Receiver × ℤ)
  unfolding joystick_loop
  on_joystick_message msg r = elim (joystick_loop (length msg + 1) msg 0 r) [
    | none ↦ none
    | some r' ↦ some (r', pos 0)
  ]
