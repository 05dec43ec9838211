-- ===== src/Sensor/Types.antt =====
-- The sensor types, and what the library supports of them.
pub mod Support
use Prim.Native.Nat.{bit_and, bit_or}
use host_camera_server.Base.{
  ℕ, ◌^◌, Bool, true, false, not, Option, none, some, ◌==◌, ◌||◌, if◌then◌else◌,
}

-- The values of sensor_type_t that the code names.
abbrev pub accelerometer : ℕ
accelerometer = 1

abbrev pub magnetic_field : ℕ
magnetic_field = 2

abbrev pub gyroscope : ℕ
gyroscope = 4

abbrev pub light : ℕ
light = 5

abbrev pub proximity : ℕ
proximity = 8

abbrev pub ambient_temperature : ℕ
ambient_temperature = 13

abbrev pub magnetic_field_uncalibrated : ℕ
magnetic_field_uncalibrated = 14

abbrev pub gyroscope_uncalibrated : ℕ
gyroscope_uncalibrated = 16

abbrev pub accelerometer_uncalibrated : ℕ
accelerometer_uncalibrated = 35

-- The switch of SendDataPacket: how many values a sensor has; `none` for `default`.
unfoldable pub data_count : ℕ → Option ℕ
data_count type =
    if type == accelerometer || type == magnetic_field || type == gyroscope
    then some 3
    else if type == accelerometer_uncalibrated
        || type == magnetic_field_uncalibrated
        || type == gyroscope_uncalibrated
    then some 6
    else if type == light || type == proximity || type == ambient_temperature
    then some 1
    else none

-- The switch of IsValidCtrlPacket.
unfoldable pub is_valid_ctrl_packet : ℕ → Bool
is_valid_ctrl_packet type =
    type == accelerometer
    || type == magnetic_field
    || type == gyroscope
    || type == accelerometer_uncalibrated
    || type == magnetic_field_uncalibrated
    || type == gyroscope_uncalibrated
    || type == light
    || type == proximity
    || type == ambient_temperature

-- SENSOR_TYPE_MASK(X).
abbrev pub sensor_type_mask : ℕ → ℕ
sensor_type_mask x = 2 ^ x

-- GetSupportedSensorList.
unfoldable pub get_supported_sensor_list : ℕ
get_supported_sensor_list = bit_or (sensor_type_mask accelerometer) (
    bit_or (sensor_type_mask magnetic_field) (
      bit_or (sensor_type_mask gyroscope) (
        bit_or (sensor_type_mask ambient_temperature) (
          bit_or (sensor_type_mask proximity) (
            bit_or (sensor_type_mask light) (
              bit_or (sensor_type_mask accelerometer_uncalibrated) (
                bit_or (sensor_type_mask magnetic_field_uncalibrated)
                  (sensor_type_mask gyroscope_uncalibrated))))))))

-- IS_SENSOR_SUPPORTED(M, S).
unfoldable pub is_sensor_supported : ℕ → ℕ → Bool
is_sensor_supported mask type = not (bit_and mask (sensor_type_mask type) == 0)
