-- ===== src/Input/Sample/Running.antt =====
-- A run of host_camera_service/virtual_input_receiver_sample.cc from the constructor to the end.
use host_camera_server.Base.{
  ℕ, ◌≡◌, List, [], ◌∷◌, Bool, true, false, ◌&&◌, ℤ, some, codes, Option, none,
}
use host_camera_server.Input.Joystick.Lines.{codes as coded}
use host_camera_server.Input.Sample.Steps.{Step, joysticks, touches, sleeps}
use host_camera_server.Input.Sample.Reading.{lines_of, reads, after_lines}
use host_camera_server.Input.Sample.{takes_number}

-- An option whose argument goes to atoi has one.
abbrev pub HasNumber : ℕ × Option ℤ → Type 0
HasNumber (c, some number) = Unit {0}
HasNumber (c, none) = takes_number c ≡ false

-- Every message of the script reads well, and none is a touch message.
abbrev all_read : List Step → Bool
all_read [] = true
all_read (joysticks text ∷ xs) = reads (codes text) && all_read xs
all_read (touches text ∷ xs) = false
all_read (sleeps us ∷ xs) = all_read xs

abbrev keys_after : List Step → List ℕ → List ℕ
keys_after [] ks = ks
keys_after (joysticks text ∷ xs) ks = keys_after xs (after_lines (lines_of (codes text)) ks)
keys_after (touches text ∷ xs) ks = keys_after xs ks
keys_after (sleeps us ∷ xs) ks = keys_after xs ks

-- A script that ends with no key down if it starts so.
record IsQuiet (xs : List Step) : Type 0 where
  reading : all_read xs ≡ true
  releasing : keys_after xs [] ≡ []
