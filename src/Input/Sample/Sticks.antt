-- ===== src/Input/Sample/Sticks.antt =====
-- The part of TestJoystick of host_camera_service/virtual_input_receiver_sample.cc that moves the
-- directional pad and the sticks.
use host_camera_server.Base.{List, [], ◌∷◌, ◌*◌}
use host_camera_server.Input.Sample.Steps.{Step, joysticks, sleeps}

-- TestJoystick: the directional pad.
unfoldable pub directional_pad : List Step
directional_pad =
    joysticks "a 17 -1\nc\n"
    ∷ sleeps (200 * 1000)
    ∷ joysticks "a 17 0\nc\n"
    ∷ sleeps (200 * 1000)
    ∷ joysticks "a 17 1\nc\n"
    ∷ sleeps (200 * 1000)
    ∷ joysticks "a 17 0\nc\n"
    ∷ sleeps (200 * 1000)
    ∷ joysticks "a 16 -1\nc\n"
    ∷ sleeps (200 * 1000)
    ∷ joysticks "a 16 0\nc\n"
    ∷ sleeps (200 * 1000)
    ∷ joysticks "a 16 1\nc\n"
    ∷ sleeps (200 * 1000)
    ∷ joysticks "a 16 0\nc\n"
    ∷ sleeps (200 * 1000)
    ∷ []

-- TestJoystick: the right stick.
unfoldable pub right_stick : List Step
right_stick =
    joysticks "a 2 0\nc\n"
    ∷ sleeps 10000
    ∷ joysticks "a 2 -31\nc\n"
    ∷ sleeps 10000
    ∷ joysticks "a 2 -63\nc\n"
    ∷ sleeps 10000
    ∷ joysticks "a 2 -95\nc\n"
    ∷ sleeps 10000
    ∷ joysticks "a 2 -127\nc\n"
    ∷ sleeps (200 * 1000)
    ∷ joysticks "a 2 -95\nc\n"
    ∷ sleeps 10000
    ∷ joysticks "a 2 -63\nc\n"
    ∷ sleeps 10000
    ∷ joysticks "a 2 -31\nc\n"
    ∷ sleeps 10000
    ∷ joysticks "a 2 0\nc\n"
    ∷ sleeps (200 * 1000)
    ∷ joysticks "a 2 0\nc\n"
    ∷ sleeps 10000
    ∷ joysticks "a 2 31\nc\n"
    ∷ sleeps 10000
    ∷ joysticks "a 2 63\nc\n"
    ∷ sleeps 10000
    ∷ joysticks "a 2 95\nc\n"
    ∷ sleeps 10000
    ∷ joysticks "a 2 127\nc\n"
    ∷ sleeps (200 * 1000)
    ∷ joysticks "a 2 95\nc\n"
    ∷ sleeps 10000
    ∷ joysticks "a 2 63\nc\n"
    ∷ sleeps 10000
    ∷ joysticks "a 2 31\nc\n"
    ∷ sleeps 10000
    ∷ joysticks "a 2 0\nc\n"
    ∷ sleeps (200 * 1000)
    ∷ joysticks "a 5 0\nc\n"
    ∷ sleeps 10000
    ∷ joysticks "a 5 -31\nc\n"
    ∷ sleeps 10000
    ∷ joysticks "a 5 -63\nc\n"
    ∷ sleeps 10000
    ∷ joysticks "a 5 -95\nc\n"
    ∷ sleeps 10000
    ∷ joysticks "a 5 -127\nc\n"
    ∷ sleeps (200 * 1000)
    ∷ joysticks "a 5 -95\nc\n"
    ∷ sleeps 10000
    ∷ joysticks "a 5 -63\nc\n"
    ∷ sleeps 10000
    ∷ joysticks "a 5 -31\nc\n"
    ∷ sleeps 10000
    ∷ joysticks "a 5 0\nc\n"
    ∷ sleeps (200 * 1000)
    ∷ joysticks "a 5 0\nc\n"
    ∷ sleeps 10000
    ∷ joysticks "a 5 31\nc\n"
    ∷ sleeps 10000
    ∷ joysticks "a 5 63\nc\n"
    ∷ sleeps 10000
    ∷ joysticks "a 5 95\nc\n"
    ∷ sleeps 10000
    ∷ joysticks "a 5 127\nc\n"
    ∷ sleeps (200 * 1000)
    ∷ joysticks "a 5 95\nc\n"
    ∷ sleeps 10000
    ∷ joysticks "a 5 63\nc\n"
    ∷ sleeps 10000
    ∷ joysticks "a 5 31\nc\n"
    ∷ sleeps 10000
    ∷ joysticks "a 5 0\nc\n"
    ∷ sleeps (200 * 1000)
    ∷ []

-- TestJoystick: the left stick.
unfoldable pub left_stick : List Step
left_stick =
    joysticks "a 0 0\nc\n"
    ∷ sleeps 10000
    ∷ joysticks "a 0 -31\nc\n"
    ∷ sleeps 10000
    ∷ joysticks "a 0 -63\nc\n"
    ∷ sleeps 10000
    ∷ joysticks "a 0 -95\nc\n"
    ∷ sleeps 10000
    ∷ joysticks "a 0 -127\nc\n"
    ∷ sleeps (200 * 1000)
    ∷ joysticks "a 0 -95\nc\n"
    ∷ sleeps 10000
    ∷ joysticks "a 0 -63\nc\n"
    ∷ sleeps 10000
    ∷ joysticks "a 0 -31\nc\n"
    ∷ sleeps 10000
    ∷ joysticks "a 0 0\nc\n"
    ∷ sleeps (200 * 1000)
    ∷ joysticks "a 0 0\nc\n"
    ∷ sleeps 10000
    ∷ joysticks "a 0 31\nc\n"
    ∷ sleeps 10000
    ∷ joysticks "a 0 63\nc\n"
    ∷ sleeps 10000
    ∷ joysticks "a 0 95\nc\n"
    ∷ sleeps 10000
    ∷ joysticks "a 0 127\nc\n"
    ∷ sleeps (200 * 1000)
    ∷ joysticks "a 0 95\nc\n"
    ∷ sleeps 10000
    ∷ joysticks "a 0 63\nc\n"
    ∷ sleeps 10000
    ∷ joysticks "a 0 31\nc\n"
    ∷ sleeps 10000
    ∷ joysticks "a 0 0\nc\n"
    ∷ sleeps (200 * 1000)
    ∷ joysticks "a 1 0\nc\n"
    ∷ sleeps 10000
    ∷ joysticks "a 1 -31\nc\n"
    ∷ sleeps 10000
    ∷ joysticks "a 1 -63\nc\n"
    ∷ sleeps 10000
    ∷ joysticks "a 1 -95\nc\n"
    ∷ sleeps 10000
    ∷ joysticks "a 1 -127\nc\n"
    ∷ sleeps (200 * 1000)
    ∷ joysticks "a 1 -95\nc\n"
    ∷ sleeps 10000
    ∷ joysticks "a 1 -63\nc\n"
    ∷ sleeps 10000
    ∷ joysticks "a 1 -31\nc\n"
    ∷ sleeps 10000
    ∷ joysticks "a 1 0\nc\n"
    ∷ sleeps (200 * 1000)
    ∷ joysticks "a 1 0\nc\n"
    ∷ sleeps 10000
    ∷ joysticks "a 1 31\nc\n"
    ∷ sleeps 10000
    ∷ joysticks "a 1 63\nc\n"
    ∷ sleeps 10000
    ∷ joysticks "a 1 95\nc\n"
    ∷ sleeps 10000
    ∷ joysticks "a 1 127\nc\n"
    ∷ sleeps (200 * 1000)
    ∷ joysticks "a 1 95\nc\n"
    ∷ sleeps 10000
    ∷ joysticks "a 1 63\nc\n"
    ∷ sleeps 10000
    ∷ joysticks "a 1 31\nc\n"
    ∷ sleeps 10000
    ∷ joysticks "a 1 0\nc\n"
    ∷ sleeps (200 * 1000)
    ∷ []
