-- ===== src/Input/Sample.antt =====
-- The test program of the virtual input receiver,
-- host_camera_service/virtual_input_receiver_sample.cc: its scripts, its device name and its main().
pub mod Steps
pub mod Buttons
pub mod Sticks
pub mod Reading
pub mod Touching
pub mod Running
pub mod Names
use host_camera_server.Base.{
  ℕ, List, [], ◌∷◌, ◌++◌, Bool, true, false, ℤ, pos, ◌==◌, ◌||◌, Option, none, some, if◌then◌else◌,
  pattern32, has_bit, codes, String,
}
use host_camera_server.Input.Device.{Platform, Receiver, create_touch_device, slept}
use host_camera_server.Input.Command.{on_input_message}
use host_camera_server.Input.Joystick.{on_joystick_message}
use host_camera_server.Input.Sample.Steps.{Step, joysticks, touches, sleeps}
use host_camera_server.Input.Sample.Buttons.{
  test_button1, test_button_mode, test_touch, test_enable_joystick, test_disable_joystick,
  shoulders, left_trigger, right_trigger, menu_buttons, face_buttons,
}
use host_camera_server.Input.Sample.Sticks.{directional_pad, right_stick, left_stick}

unfoldable pub test_joystick : List Step
unfolding shoulders left_trigger right_trigger menu_buttons face_buttons directional_pad right_stick
    left_stick
test_joystick =
    shoulders ++ left_trigger ++ right_trigger ++ menu_buttons ++ face_buttons ++ directional_pad
    ++ right_stick ++ left_stick

-- The tests that the bits of the option `cmd` select, in the order of main().
unfoldable pub chosen : ℤ → ℕ → List Step → List Step
chosen cmd bit script = if has_bit (pattern32 cmd) bit then script else []

unfoldable pub main_script : ℤ → List Step
main_script cmd =
    chosen cmd 1 test_button1
    ++ chosen cmd 2 test_button_mode
    ++ chosen cmd 4 test_joystick
    ++ chosen cmd 8 test_touch
    ++ chosen cmd 16 test_enable_joystick
    ++ chosen cmd 32 test_disable_joystick

-- Every caller drops the result of a message.
abbrev result_of : Option (Receiver × ℤ) → Option Receiver
result_of none = none
result_of (some (r, result)) = some r

-- The variables of main() that the options set.
pub record Options : Type 0 where
  pub cmd : ℤ
  pub instance_id : ℤ
  pub input : ℤ

-- The options whose argument goes to atoi.
unfoldable pub takes_number : ℕ → Bool
takes_number c = c == b'c' || c == b'i' || c == b'n'

-- One option of getopt_long, with what atoi makes of its argument, if it has one: atoi of the null
-- pointer ends the program.
unfoldable pub set_option : ℕ → Option ℤ → Options → Option Options
unfolding takes_number
set_option c (some number) o = some (
    if c == b'c'
    then record o { cmd = number }
    else if c == b'i'
    then record o { instance_id = number }
    else if c == b'n'
    then record o { input = number }
    else o)
set_option c none o = if takes_number c then none else some o

unfoldable pub options : List (ℕ × Option ℤ) → Options → Option Options
unfolding set_option
options [] o = some o
options ((c, argument) ∷ given) o = elim (set_option c argument o) [
  | none ↦ none
  | some o' ↦ options given o'
]

abbrev pub defaults : Options
defaults = record { cmd = pos 0; instance_id = pos 0; input = pos 0 }

module _ (os : Platform) where
  -- One call.
  unfoldable pub take_step : Step → Receiver → Option Receiver
  take_step (joysticks text) r = result_of (on_joystick_message os (codes text) r)
  take_step (touches text) r = result_of (on_input_message os (codes text) r)
  take_step (sleeps us) r = some (record r { effects = slept us ∷ r.effects })

  unfoldable pub run_script : List Step → Receiver → Option Receiver
  unfolding take_step
  run_script [] r = some r
  run_script (x ∷ xs) r = elim (take_step x r) [ none ↦ none | some r' ↦ run_script xs r' ]

  -- main(), given its options and what open() returned to the constructor.
  unfoldable pub main : List (ℕ × Option ℤ) → ℤ → Option Receiver
  main given fd = elim (options given defaults) [
    | none ↦ none
    | some o ↦ run_script (main_script o.cmd) (create_touch_device fd).0
  ]
