-- ===== src/Video/Start.antt =====
-- The constructors of VideoSink in source/video_sink.cc: the client that the talker thread works with.
use host_camera_server.Base.{ℕ, List, ℤ, is_minus_one, Option, none, some, codes, if◌then◌else◌}
use host_camera_server.Net.Unix.{UnixClient}
use host_camera_server.Net.Unix
use host_camera_server.Net.Vsock.{VsockClient}
use host_camera_server.Net.Vsock
use host_camera_server.Net.Paths.{socket_path}

-- CAMERA_UNIX_SOCKET.
abbrev pub camera_unix_socket : List ℕ
camera_unix_socket = codes "/camera-socket"

-- For a UnixConnectionInfo; none where it throws.
unfoldable pub unix_client : List ℕ → ℤ → Option UnixClient
unfolding socket_path
unix_client socket_dir android_instance_id =
    elim (socket_path camera_unix_socket socket_dir android_instance_id) [
      | none ↦ none
      | some path ↦ some (Unix.create path)
    ]

-- For a VsockConnectionInfo; none where it throws.
unfoldable pub vsock_client : ℤ → Option VsockClient
vsock_client android_vm_cid =
    if is_minus_one android_vm_cid then none else some (Vsock.create android_vm_cid)
