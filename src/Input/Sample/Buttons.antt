-- ===== src/Input/Sample/Buttons.antt =====
-- The tests of host_camera_service/virtual_input_receiver_sample.cc that press buttons or touch, and
-- the two that plug the joystick in and out.
use host_camera_server.Base.{List, [], ◌∷◌, ◌*◌}
use host_camera_server.Input.Sample.Steps.{Step, joysticks, touches, sleeps}

-- TestButton1: BUTTON_1.
unfoldable pub test_button1 : List Step
test_button1 = joysticks "k 288 1\nc\n" ∷ sleeps (200 * 1000) ∷ joysticks "k 288 0\nc\n" ∷ []

-- TestButtonMode: BUTTON_MODE.
unfoldable pub test_button_mode : List Step
test_button_mode = joysticks "k 316 1\nc\n" ∷ sleeps (200 * 1000) ∷ joysticks "k 316 0\nc\n" ∷ []

-- TestJoystick: BTN_TL and BTN_TR.
unfoldable pub shoulders : List Step
shoulders =
    joysticks "k 310 1\nc\n"
    ∷ sleeps (200 * 1000)
    ∷ joysticks "k 310 0\nc\n"
    ∷ sleeps (200 * 1000)
    ∷ joysticks "k 311 1\nc\n"
    ∷ sleeps (200 * 1000)
    ∷ joysticks "k 311 0\nc\n"
    ∷ sleeps (200 * 1000)
    ∷ []

-- TestJoystick: BTN_TL2.
unfoldable pub left_trigger : List Step
left_trigger =
    joysticks "k 312 1\nc\n"
    ∷ sleeps 40000
    ∷ joysticks "a 62 0\nc\n"
    ∷ sleeps 40000
    ∷ joysticks "a 62 50\nc\n"
    ∷ sleeps 40000
    ∷ joysticks "a 62 100\nc\n"
    ∷ sleeps 40000
    ∷ joysticks "a 62 150\nc\n"
    ∷ sleeps 40000
    ∷ joysticks "a 62 200\nc\n"
    ∷ sleeps 40000
    ∷ joysticks "a 62 255\nc\n"
    ∷ sleeps (200 * 1000)
    ∷ joysticks "a 62 200\nc\n"
    ∷ sleeps 40000
    ∷ joysticks "a 62 150\nc\n"
    ∷ sleeps 40000
    ∷ joysticks "a 62 100\nc\n"
    ∷ sleeps 40000
    ∷ joysticks "a 62 50\nc\n"
    ∷ sleeps 40000
    ∷ joysticks "a 62 0\nc\n"
    ∷ sleeps 40000
    ∷ joysticks "k 312 0\nc\n"
    ∷ sleeps (200 * 1000)
    ∷ []

-- TestJoystick: BTN_TR2.
unfoldable pub right_trigger : List Step
right_trigger =
    joysticks "k 313 1\nc\n"
    ∷ sleeps 40000
    ∷ joysticks "a 63 0\nc\n"
    ∷ sleeps 40000
    ∷ joysticks "a 63 50\nc\n"
    ∷ sleeps 40000
    ∷ joysticks "a 63 100\nc\n"
    ∷ sleeps 40000
    ∷ joysticks "a 63 150\nc\n"
    ∷ sleeps 40000
    ∷ joysticks "a 63 200\nc\n"
    ∷ sleeps 40000
    ∷ joysticks "a 63 255\nc\n"
    ∷ sleeps (200 * 1000)
    ∷ joysticks "a 63 200\nc\n"
    ∷ sleeps 40000
    ∷ joysticks "a 63 150\nc\n"
    ∷ sleeps 40000
    ∷ joysticks "a 63 100\nc\n"
    ∷ sleeps 40000
    ∷ joysticks "a 63 50\nc\n"
    ∷ sleeps 40000
    ∷ joysticks "a 63 0\nc\n"
    ∷ sleeps 40000
    ∷ joysticks "k 313 0\nc\n"
    ∷ sleeps (200 * 1000)
    ∷ []

-- TestJoystick: BTN_SELECT, BTN_START, BTN_THUMBL and BTN_THUMBR.
unfoldable pub menu_buttons : List Step
menu_buttons =
    joysticks "k 314 1\nc\n"
    ∷ sleeps (200 * 1000)
    ∷ joysticks "k 314 0\nc\n"
    ∷ sleeps (200 * 1000)
    ∷ joysticks "k 315 1\nc\n"
    ∷ sleeps (200 * 1000)
    ∷ joysticks "k 315 0\nc\n"
    ∷ sleeps (200 * 1000)
    ∷ joysticks "k 317 1\nc\n"
    ∷ sleeps (200 * 1000)
    ∷ joysticks "k 317 0\nc\n"
    ∷ sleeps (200 * 1000)
    ∷ joysticks "k 318 1\nc\n"
    ∷ sleeps (200 * 1000)
    ∷ joysticks "k 318 0\nc\n"
    ∷ sleeps (200 * 1000)
    ∷ []

-- TestJoystick: BTN_Y, BTN_X, BTN_A and BTN_B.
unfoldable pub face_buttons : List Step
face_buttons =
    joysticks "k 308 1\nc\n"
    ∷ sleeps (200 * 1000)
    ∷ joysticks "k 308 0\nc\n"
    ∷ sleeps (200 * 1000)
    ∷ joysticks "k 307 1\nc\n"
    ∷ sleeps (200 * 1000)
    ∷ joysticks "k 307 0\nc\n"
    ∷ sleeps (200 * 1000)
    ∷ joysticks "k 304 1\nc\n"
    ∷ sleeps (200 * 1000)
    ∷ joysticks "k 304 0\nc\n"
    ∷ sleeps (200 * 1000)
    ∷ joysticks "k 305 1\nc\n"
    ∷ sleeps (200 * 1000)
    ∷ joysticks "k 305 0\nc\n"
    ∷ sleeps (200 * 1000)
    ∷ []

-- TestTouch.
unfoldable pub test_touch : List Step
test_touch =
    touches "d 0 16384 16384 200\nc\n"
    ∷ sleeps (3 * 1000)
    ∷ touches "m 0 16384 15203 200\nc\n"
    ∷ sleeps (3 * 1000)
    ∷ touches "m 0 16384 14022 200\nc\n"
    ∷ sleeps (3 * 1000)
    ∷ touches "m 0 16384 13841 200\nc\n"
    ∷ sleeps (3 * 1000)
    ∷ touches "m 0 16384 12660 200\nc\n"
    ∷ sleeps (3 * 1000)
    ∷ touches "m 0 16384 11479 200\nc\n"
    ∷ sleeps (3 * 1000)
    ∷ touches "m 0 16384 10298 200\nc\n"
    ∷ sleeps (3 * 1000)
    ∷ touches "m 0 16384 9117 200\nc\n"
    ∷ sleeps (3 * 1000)
    ∷ touches "m 0 16384 8936 200\nc\n"
    ∷ sleeps (3 * 1000)
    ∷ touches "m 0 16384 7755 200\nc\n"
    ∷ sleeps (3 * 1000)
    ∷ touches "m 0 16384 6574 200\nc\n"
    ∷ sleeps (3 * 1000)
    ∷ touches "m 0 16384 5479 200\nc\n"
    ∷ sleeps (3 * 1000)
    ∷ touches "u 0\nc\n"
    ∷ []

-- TestEnableJoystick.
unfoldable pub test_enable_joystick : List Step
test_enable_joystick = joysticks "i\n" ∷ []

-- TestDisableJoystick.
unfoldable pub test_disable_joystick : List Step
test_disable_joystick = joysticks "p\n" ∷ []
