-- ===== src/Camera/Opening/Hidden.antt =====
-- What open_camera of host_camera_service/host_camera_server.cc reports.
use host_camera_server.Base.{
  ℕ, ◌≡◌, List, [], ◌∷◌, Bool, ℤ, pos, negsuc, Option, none, some, ◌==◌, codes, if◌then◌else◌,
  arith,
}
use host_camera_server.Camera.Search.{same_text}
use host_camera_server.Camera.Opening.{Options, input_options, open_camera, h264, mjpeg}

-- The value of the first entry with a key.
abbrev option_of : List ℕ → Options → Option (List ℕ)
option_of key [] = none
option_of key ((k, v) ∷ os) = if same_text key k then some v else option_of key os

-- FFmpeg is asked for a format of the input exactly if the program's is H.264 or MJPEG, and then for
-- that one.
pub input_options-format :
    (format : ℕ) (width height fps : ℤ)
    → option_of (codes "input_format") (input_options format width height fps) ≡ (
        if format == h264
        then some (codes "h264")
        else if format == mjpeg
        then some (codes "mjpeg")
        else none)
unfolding input_options same_text
input_options-format format width height fps = ground arith

-- open_camera reports success whenever it has memory, whatever avformat_open_input returned.
pub open_camera-hides :
    (find_input_format : List ℕ → Option ℕ)
    (open_input : Option ℕ → List ℕ → Options → ℤ × Option ℕ) (allocates : Bool) (device : List ℕ)
    (format : ℕ) (width height fps : ℤ)
    → (open_camera find_input_format open_input allocates device format width height fps).1
      ≡ (if allocates then pos 0 else negsuc 0)
unfolding open_camera
open_camera-hides find_input_format open_input allocates device format width height fps =
    ground arith
