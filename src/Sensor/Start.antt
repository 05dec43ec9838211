-- ===== src/Sensor/Start.antt =====
-- The constructor of SensorInterface in source/sensor_interface.cc: the client that the talker thread
-- works with.
use host_camera_server.Base.{ℕ, List, ℤ, Option, none, some, codes}
use host_camera_server.Net.Unix.{UnixClient, create}
use host_camera_server.Net.Paths.{socket_path}

-- SENSORS_UNIX_SOCKET.
abbrev pub sensors_unix_socket : List ℕ
sensors_unix_socket = codes "/sensors-socket"

-- For a UnixConnectionInfo; none where it throws.
unfoldable pub sensor_client : List ℕ → ℤ → Option UnixClient
unfolding socket_path
sensor_client socket_dir android_instance_id =
    elim (socket_path sensors_unix_socket socket_dir android_instance_id) [
      | none ↦ none
      | some path ↦ some (create path)
    ]
