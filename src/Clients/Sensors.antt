-- ===== src/Clients/Sensors.antt =====
-- host_camera_service/sensor_client.cc: the callback that notes which sensors are enabled, and the
-- thread that sends data of the accelerometer.
pub mod First
use host_camera_server.Base.{
  ℕ, ◌+◌, ◌*◌, ◌%◌, List, [], ◌∷◌, Bool, false, true, ◌==◌, ltb, set, if◌then◌else◌,
}
use host_camera_server.Net.Client.{StreamClient}
use host_camera_server.Sensor.Interface.{CtrlPacket, SensorDataPacket, send_data_packet}

-- `mSensorMap`, in the order of its keys, which are supported types and so not negative.
abbrev pub SensorMap : Type 0
SensorMap = List (ℕ × ℕ)

-- std::map::insert, which leaves a key that is there as it is.
unfoldable pub insert : ℕ → ℕ → SensorMap → SensorMap
insert type flag [] = (type, flag) ∷ []
insert type flag ((t, f) ∷ m) =
    let others = insert type flag m in
    if ltb type t
    then (type, flag) ∷ (t, f) ∷ m
    else if type == t
    then (t, f) ∷ m
    else (t, f) ∷ others

-- The callback.
unfoldable pub note : CtrlPacket → SensorMap → SensorMap
note p m = insert p.type p.enabled m

unfoldable pub notes : List CtrlPacket → SensorMap → SensorMap
unfolding note
notes [] m = m
notes (p ∷ ps) m = notes ps (note p m)

-- SENSOR_TYPE_ACCELEROMETER.
abbrev pub accelerometer : ℕ
accelerometer = 1

-- The binary32 patterns of 1, 2 and 3.
abbrev pub one : ℕ
one = 1065353216

abbrev pub two : ℕ
two = 1073741824

abbrev pub three : ℕ
three = 1077936128

-- `event` as the thread fills it at a time of CLOCK_BOOTTIME; `fdata[2]` and `fdata[4]` on stay.
unfoldable pub fill : ℕ × ℕ → SensorDataPacket → SensorDataPacket
fill (sec, nsec) event = record event {
  type = accelerometer;
  fdata = set (set (set event.fdata 0 one) 1 two) 3 three;
  timestamp_ns = (sec * 1000000000 + nsec) % 18446744073709551616;
}

-- The test of `it.second`, an int32_t by its bits.
abbrev pub is_set : ℕ → Bool
is_set n = if n == 0 then false else true

module _ (net : StreamClient) (clock : ℕ × ℕ) where
  unfoldable pub send_event : SensorDataPacket × net.State → SensorDataPacket × net.State
  unfolding fill
  send_event (event, s) =
      let filled = fill clock event in (filled, (send_data_packet net filled s).0)

  unfoldable pub visit : ℕ → ℕ → SensorDataPacket × net.State → SensorDataPacket × net.State
  visit type flag x =
      let next = send_event x in
      if type == accelerometer then (if is_set flag then next else x) else x

  -- One pass of the thread over the map, all at one time of the clock.
  unfoldable pub pass : SensorMap → SensorDataPacket × net.State → SensorDataPacket × net.State
  unfolding visit
  pass [] x = x
  pass ((type, flag) ∷ m) x = pass m (visit type flag x)
