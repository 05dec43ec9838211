-- ===== src/Input/Keys.antt =====
-- Keyboard input: onKeyCode of source/virtual_input_receiver.cc.
pub mod Chord
use host_camera_server.Base.{ℕ, ℤ, pos, has_bit, if◌then◌else◌, ◌▹◌}
use host_camera_server.Input.Device.{Platform, Receiver, send_event, emit, send_commit, commit}

-- The bits of KEY_STATE_MASK that onKeyCode reads.
abbrev pub shift : ℕ
shift = 1

abbrev pub control : ℕ
control = 4

abbrev pub mod1 : ℕ
mod1 = 8

module _ (os : Platform) where
  -- One modifier key, if its bit is set in the mask.
  unfoldable pub modifier : ℕ → ℕ → ℕ → ℤ → Receiver → Receiver
  unfolding send_event send_commit
  modifier mask bit key value r =
      if has_bit mask bit then r ▹ emit os os.ev_key key value ▹ commit os else r

  unfoldable pub on_key_code : ℕ → ℕ → Receiver → Receiver × ℤ
  unfolding modifier send_event send_commit
  on_key_code scan_code mask r = (
    r
        ▹ modifier mask shift os.key_leftshift (pos 1)
        ▹ modifier mask control os.key_leftctrl (pos 1)
        ▹ modifier mask mod1 os.key_leftalt (pos 1)
        ▹ emit os os.ev_key scan_code (pos 1)
        ▹ commit os
        ▹ emit os os.ev_key scan_code (pos 0)
        ▹ commit os
        ▹ modifier mask shift os.key_leftshift (pos 0)
        ▹ modifier mask control os.key_leftctrl (pos 0)
        ▹ modifier mask mod1 os.key_leftalt (pos 0),
    pos 0,
  )
