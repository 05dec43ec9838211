-- ===== src/Input/Examples.antt =====
-- The input receiver's theorems at concrete inputs, and runs of its functions.
use host_camera_server.Base.{
  ◌==◌, ◌||◌, ◌&&◌, has_bit, if◌then◌else◌, ◌<◌, ◌≡◌, refl, List, [], ◌∷◌, map, true, false, pos,
  some, arith, All,
}
use host_camera_server.Input.Device.{
  Platform, Receiver, create_touch_device, sent, all_written, send_event, send_commit,
}
use host_camera_server.Input.Reader.{held, IsKeyDistinct}
use host_camera_server.Input.Touch.{
  send_reset, send_down, Call, commit, down, up, perform_all, perform, send_up, announce, enable,
  disable, make_room, send_position, press_first, release_last,
}
use host_camera_server.Input.Touch.Slots.{enabled_count, Covered, IsExact, perform_all-Covered}
use host_camera_server.Input.Touch.Button.{Agrees, perform_all-Agrees, send_reset-stuck_button}
use host_camera_server.Input.Scan.{is_digit}
use host_camera_server.Input.Scan.Numerals.{value_onto}
use host_camera_server.Input.Command.{on_input_message}
use host_camera_server.Input.Command.Termination.{on_input_message-total, on_joystick_message-total}
use host_camera_server.Input.Command.Lines.{
  Line, commits, downs, message, IsLine, call, on_input_message-lines,
}
use host_camera_server.Input.Joystick.{on_joystick_message}
use host_camera_server.Input.Keys.{shift, control, mod1, on_key_code}
use host_camera_server.Input.Keys.Chord.{on_key_code-held}
use host_camera_server.Input.Touch.Mirror.{IsMtDistinct, Mirrors, perform_all-Mirrors}
use host_camera_server.Input.Joystick.Lines.{act_all, on_joystick_message-lines}
use host_camera_server.Input.Joystick.Lines.{
  Line as JoystickLine, commits as commits_all, plugs, codes, axes, keys, message as joystick_text,
  IsLine as IsJoystickLine,
}

-- The numbers of <linux/input.h>, a clock that ticks, and a pipe that takes every event.
abbrev linux : Platform
linux = record {
  ev_syn = 0;
  ev_key = 1;
  ev_abs = 3;
  ev_msc = 4;
  syn_report = 0;
  btn_touch = 330;
  abs_mt_slot = 47;
  abs_mt_touch_major = 48;
  abs_mt_width_major = 50;
  abs_mt_position_x = 53;
  abs_mt_position_y = 54;
  abs_mt_tracking_id = 57;
  abs_mt_pressure = 58;
  key_leftshift = 42;
  key_leftctrl = 29;
  key_leftalt = 56;
  clock = λ n. record { tv_sec = n; tv_nsec = 0 };
  write = λ fd n. pos 24;
  stack_code = λ n. 0;
  stack_value = λ n. pos 0;
}

linux-IsKeyDistinct : IsKeyDistinct linux
linux-IsKeyDistinct = record { abs_apart = λ e. omega arith; syn_apart = λ e. omega arith }

abbrev device : Receiver
device = (create_touch_device (pos 7)).0

abbrev press : Call
press = down (pos 0) (pos 100) (pos 200) (pos 50)

abbrev tap : List Call
tap = press ∷ commit ∷ up (pos 0) ∷ []

abbrev pressed : Receiver
pressed = (send_down linux (pos 0) (pos 100) (pos 200) (pos 50) device).0

perform_all-Covered_example : Covered 3 (perform_all linux tap (create_touch_device (pos 7)).0)
perform_all-Covered_example = perform_all-Covered linux (pos 7) tap (omega arith)

tap-written : all_written (perform_all linux tap (create_touch_device (pos 7)).0).effects ≡ true
unfolding create_touch_device perform_all perform send_down send_up send_commit all_written announce
    enable disable make_room send_position press_first release_last send_event
tap-written = refl

perform_all-Agrees_example :
    IsExact (perform_all linux tap (create_touch_device (pos 7)).0)
    × Agrees linux (perform_all linux tap (create_touch_device (pos 7)).0)
unfolding create_touch_device
perform_all-Agrees_example =
    perform_all-Agrees linux linux-IsKeyDistinct (pos 7) tap (refl, (tt, (tt, tt))) tap-written

pressed-IsExact : IsExact pressed
unfolding create_touch_device send_down
pressed-IsExact = record { nine = refl; exact = refl }

pressed-Agrees : Agrees linux pressed
unfolding create_touch_device send_down held sent
pressed-Agrees = refl

pressed-enabled : 0 < enabled_count pressed.contacts
unfolding create_touch_device send_down
pressed-enabled = omega arith

send_reset-stuck_button_example :
    (enabled_count (send_reset linux pressed).0.contacts ≡ 0)
    × (held linux 330 (sent (send_reset linux pressed).0.effects) ≡ true)
    × (¬ IsExact (send_reset linux pressed).0)
send_reset-stuck_button_example =
    send_reset-stuck_button linux linux-IsKeyDistinct pressed pressed-IsExact pressed-Agrees
      pressed-enabled

-- "d 0 10 20 30\nc\n".
abbrev script : List Line
script = downs (48 ∷ []) (49 ∷ 48 ∷ []) (50 ∷ 48 ∷ []) (51 ∷ 48 ∷ []) ∷ commits ∷ []

on_input_message-total_example :
    (r' : Receiver) × (on_input_message linux (message script) device ≡ some (r', pos 0))
on_input_message-total_example = on_input_message-total linux (message script) device

script-IsLine : All IsLine script
unfolding is_digit value_onto
script-IsLine = ground arith

on_input_message-lines_example :
    on_input_message linux (message script) device
    ≡ some (perform_all linux (map call script) device, pos 0)
on_input_message-lines_example = on_input_message-lines linux script device script-IsLine

linux-IsMtDistinct : IsMtDistinct linux
linux-IsMtDistinct = record {
  key_apart = λ e. omega arith;
  syn_apart = λ e. omega arith;
  id_apart = λ e. omega arith;
  major_apart = (λ e. omega arith, λ e. omega arith);
  width_apart = (λ e. omega arith, λ e. omega arith);
  x_apart = (λ e. omega arith, λ e. omega arith);
  y_apart = (λ e. omega arith, λ e. omega arith);
  pressure_apart = (λ e. omega arith, λ e. omega arith);
}

perform_all-Mirrors_example : Mirrors linux (perform_all linux tap (create_touch_device (pos 7)).0)
unfolding create_touch_device
perform_all-Mirrors_example =
    perform_all-Mirrors linux linux-IsMtDistinct (pos 7) tap (refl, (tt, (tt, tt))) (omega arith)
      tap-written

-- "i\na 17 -1\nk 304 1\nc\n".
abbrev pad_script : List JoystickLine
pad_script =
    plugs
    ∷ codes axes (49 ∷ 55 ∷ []) true (49 ∷ [])
    ∷ codes keys (51 ∷ 48 ∷ 52 ∷ []) false (49 ∷ [])
    ∷ commits_all
    ∷ []

pad_script-IsLine : All IsJoystickLine pad_script
unfolding is_digit value_onto
pad_script-IsLine = ground arith

on_joystick_message-lines_example :
    on_joystick_message linux (joystick_text pad_script) device
    ≡ some (act_all linux pad_script device, pos 0)
on_joystick_message-lines_example =
    on_joystick_message-lines linux pad_script device pad_script-IsLine

device-written : all_written device.effects ≡ true
unfolding all_written create_touch_device
device-written = refl

-- Key 30 with shift.
shifted-written : all_written (on_key_code linux 30 1 device).0.effects ≡ true
unfolding on_key_code all_written create_touch_device
shifted-written = refl

on_key_code-held_example : held linux 30 (sent (on_key_code linux 30 1 device).0.effects) ≡ (
    if 30 == 30
      || (has_bit 1 shift && linux.key_leftshift == 30)
      || (has_bit 1 control && linux.key_leftctrl == 30)
      || (has_bit 1 mod1 && linux.key_leftalt == 30)
    then false
    else held linux 30 (sent device.effects))
on_key_code-held_example =
    on_key_code-held linux linux-IsKeyDistinct 30 30 1 device device-written shifted-written

on_joystick_message-total_example :
    (r' : Receiver) × (on_joystick_message linux (joystick_text pad_script) device
      ≡ some (r', pos 0))
on_joystick_message-total_example =
    on_joystick_message-total linux (joystick_text pad_script) device
