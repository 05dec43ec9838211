-- ===== src/Sensor/Types/Support.antt =====
-- The three places that list the supported sensors agree.
use host_camera_server.Base.{
  ℕ, zero, suc, ◌+◌, ◌≤◌, if◌then◌else◌, ◌<◌, ◌≡◌, refl, Bool, true, false, Option, none, some,
  arith,
}
use host_camera_server.Sensor.Types.{
  data_count, is_valid_ctrl_packet, get_supported_sensor_list, is_sensor_supported,
}

abbrev same : Bool → Bool → Bool
same true b = b
same false true = false
same false false = true

-- The test succeeds on each of the `count` types from `first` on.
tried_from : (ℕ → Bool) → ℕ → ℕ → Bool
tried_from test first zero = true
tried_from test first (suc count) = if test first then tried_from test (first + 1) count else false

tried_from-here :
    (test : ℕ → Bool) (count first type : ℕ)
    → tried_from test first count ≡ true
    → first ≤ type
    → type < first + count
    → test type ≡ true
unfolding tried_from
tried_from-here test zero first type ok low high = absurd (omega arith)
tried_from-here test (suc count) first type ok low high =
    ground (arith, tried_from-here test count (first + 1) type)

same-eq : (a b : Bool) → same a b ≡ true → a ≡ b
same-eq true b h = ground arith
same-eq false b h = ground arith

-- The mask and the check give the same answer.
abbrev mask_agrees : ℕ → Bool
mask_agrees type =
    same (is_sensor_supported get_supported_sensor_list type) (is_valid_ctrl_packet type)

mask_table : tried_from mask_agrees 0 64 ≡ true
unfolding tried_from is_sensor_supported get_supported_sensor_list is_valid_ctrl_packet
mask_table = refl

abbrev pub is_some : Option ℕ → Bool
is_some none = false
is_some (some n) = true

valid_counted : (type : ℕ) → is_some (data_count type) ≡ is_valid_ctrl_packet type
unfolding data_count is_valid_ctrl_packet
valid_counted type = ground arith

-- For a type below 64, which has a bit in the mask, SendDataPacket accepts data, IsValidCtrlPacket lets
-- control messages through, and IS_SENSOR_SUPPORTED finds the type in GetSupportedSensorList, all
-- three or none.
pub supported_everywhere :
    (type : ℕ)
    → type < 64
    → (is_some (data_count type) ≡ is_valid_ctrl_packet type)
      × (is_sensor_supported get_supported_sensor_list type ≡ is_valid_ctrl_packet type)
supported_everywhere type h = (
  valid_counted type,
  same-eq _ _ (tried_from-here mask_agrees 64 0 type mask_table (omega arith) (omega arith)),
)
