-- ===== src/Input/Sample/Steps.antt =====
-- What the tests of host_camera_service/virtual_input_receiver_sample.cc do.
use host_camera_server.Base.{ℕ, String}

-- A joystick message, a touch message, or usleep; the prints are left out.
pub data Step : Type 0 where
  joysticks touches : String → Step
  sleeps : ℕ → Step
