-- ===== src/Camera/Opening.antt =====
-- open_camera and what it calls, and the arguments of InitCamera, in
-- host_camera_service/host_camera_server.cc. The calls of FFmpeg are parameters.
pub mod Hidden
use host_camera_server.Base.{
  ℕ, ◌+◌, List, [], ◌∷◌, ◌++◌, Bool, true, false, ℤ, pos, negsuc, Option, none, some, is_zero, not,
  ◌==◌, codes, decimal, if◌then◌else◌,
}
use host_camera_server.Video.Wire.{CameraInfo}

-- An AVDictionary: keys and values, the newest first.
abbrev pub Options : Type 0
Options = List (List ℕ × List ℕ)

-- kH264 and kMJPEG of VideoCodecType.
abbrev pub h264 : ℕ
h264 = 1

abbrev pub mjpeg : ℕ
mjpeg = 8

-- The options of init_device_and_input_context.
unfoldable pub input_options : ℕ → ℤ → ℤ → ℤ → Options
input_options format width height fps =
    let base =
      (codes "probesize", codes "7000000")
      ∷ (codes "framerate", decimal fps)
      ∷ (codes "video_size", decimal width ++ b'x' ∷ decimal height)
      ∷ [] in
    let with_mjpeg =
      if format == mjpeg then (codes "input_format", codes "mjpeg") ∷ base else base in
    if format == h264 then (codes "input_format", codes "h264") ∷ with_mjpeg else with_mjpeg

-- `stream_ctx`: the pointers that open_camera sets, with none for NULL.
pub record StreamContext : Type 0 where
  pub ifmt : Option ℕ
  pub ifmt_ctx : Option ℕ

-- get_device_family on Linux.
abbrev pub device_family : List ℕ
device_family = codes "v4l2"

-- `find_input_format` and `open_input` stand for av_find_input_format and avformat_open_input: the
-- second gives its result and the context that it leaves.
module _ (find_input_format : List ℕ → Option ℕ)
    (open_input : Option ℕ → List ℕ → Options → ℤ × Option ℕ) where
  -- The code keeps a failure in `ret_code` and returns 0.
  unfoldable pub init_device_and_input_context :
      StreamContext → List ℕ → List ℕ → ℕ → ℤ → ℤ → ℤ → StreamContext × ℤ
  init_device_and_input_context ctx family device format width height fps =
      let ifmt = find_input_format family in
      let (result, ifmt_ctx) =
        open_input ctx.ifmt_ctx device (input_options format width height fps) in
      (record { ifmt = ifmt; ifmt_ctx = ifmt_ctx }, pos 0)

  -- `allocates` tells whether malloc() gives memory.
  unfoldable pub open_camera : Bool → List ℕ → ℕ → ℤ → ℤ → ℤ → Option StreamContext × ℤ
  unfolding init_device_and_input_context
  open_camera allocates device format width height fps =
      let empty : StreamContext = record { ifmt = none; ifmt_ctx = none } in
      let (ctx, result) =
        init_device_and_input_context empty device_family device format width height fps in
      if allocates then (some ctx, if is_zero result then pos 0 else negsuc 0) else (none, negsuc 0)

-- The cameras that InitCamera names: one, at 1080p, in the format of the program.
abbrev pub requested : ℕ → List CameraInfo
requested format =
    record {
      camera_id = 0;
      codec_type = format;
      resolution = 4;
      sensor_orientation = 0;
      facing = 0;
      reserved = (0, 0, 0);
    }
    ∷ []
