-- ===== src/Video/Wire.antt =====
-- The structs that the camera protocol sends, as the bytes of their uint32_t and enum fields.
pub mod RoundTrip
use host_camera_server.Base.{
  ℕ, ◌+◌, ◌*◌, List, [], ◌∷◌, ◌++◌, get_or, u32, bytes_of_words, words_of_bytes,
}

-- enum CameraAck.
abbrev pub nack_config : ℕ
nack_config = 0

abbrev pub ack_config : ℕ
ack_config = 1

-- enum camera_packet_type_t; `other` is any number besides, which a header from the socket may hold.
pub data PacketType : Type 0 where
  request_capability capability camera_config camera_data ack camera_info : PacketType
  other : ℕ → PacketType

unfoldable pub type_code : PacketType → ℕ
type_code request_capability = 0
type_code capability = 1
type_code camera_config = 2
type_code camera_data = 3
type_code ack = 4
type_code camera_info = 5
type_code (other n) = n

-- The types that have names, at their numbers.
abbrev pub named : List PacketType
named = request_capability ∷ capability ∷ camera_config ∷ camera_data ∷ ack ∷ camera_info ∷ []

unfoldable pub packet_type : ℕ → PacketType
packet_type n = get_or named n (other n)

-- camera_header_t.
pub record Header : Type 0 where
  pub type : PacketType
  pub size : ℕ

abbrev pub header_size : ℕ
header_size = 8

unfoldable pub header_bytes : Header → List ℕ
unfolding type_code
header_bytes h = bytes_of_words (type_code h.type ∷ h.size ∷ [])

abbrev word_at : List ℕ → ℕ → ℕ
word_at ws i = get_or ws i 0

unfoldable pub read_header : List ℕ → Header
unfolding packet_type
read_header bs =
    let ws = words_of_bytes bs in record { type = packet_type (word_at ws 0); size = word_at ws 1 }

-- enum VideoCodecType and enum FrameResolution.
abbrev pub h264 : ℕ
h264 = 1

abbrev pub h265 : ℕ
h265 = 2

abbrev pub i420 : ℕ
i420 = 4

abbrev pub mjpeg : ℕ
mjpeg = 8

abbrev pub r480p : ℕ
r480p = 1

abbrev pub r720p : ℕ
r720p = 2

abbrev pub r1080p : ℕ
r1080p = 4

-- camera_capability_t, without its reserved words.
pub record Capability : Type 0 where
  pub codec_type : ℕ
  pub resolution : ℕ
  pub max_number_of_cameras : ℕ

abbrev pub capability_size : ℕ
capability_size = 32

unfoldable pub read_capability : List ℕ → Capability
read_capability bs =
    let ws = words_of_bytes bs in
    record {
      codec_type = word_at ws 0;
      resolution = word_at ws 1;
      max_number_of_cameras = word_at ws 2;
    }

-- A new camera_capability_t: the two defaults, and zeroes.
abbrev pub new_capability : List ℕ
new_capability = bytes_of_words (h264 ∷ r480p ∷ 0 ∷ 0 ∷ 0 ∷ 0 ∷ 0 ∷ 0 ∷ [])

-- camera_info_t; `reserved` holds its three reserved words.
pub record CameraInfo : Type 0 where
  pub camera_id : ℕ
  pub codec_type : ℕ
  pub resolution : ℕ
  pub sensor_orientation : ℕ
  pub facing : ℕ
  pub reserved : ℕ × ℕ × ℕ

abbrev pub camera_info_size : ℕ
camera_info_size = 32

unfoldable pub info_words : CameraInfo → List ℕ
info_words i =
    i.camera_id ∷ i.codec_type ∷ i.resolution ∷ i.sensor_orientation ∷ i.facing ∷ i.reserved.0
    ∷ i.reserved.1 ∷ i.reserved.2 ∷ []

-- The array behind a vector of camera_info_t.
unfoldable pub info_bytes : List CameraInfo → List ℕ
unfolding info_words
info_bytes [] = []
info_bytes (i ∷ is) = bytes_of_words (info_words i) ++ info_bytes is

-- enum camera_cmd_t.
pub data Cmd : Type 0 where
  cmd_open cmd_close cmd_none : Cmd
  unknown : ℕ → Cmd

-- camera_config_cmd_t: the version, the command, and the camera_config_t without its reserved words.
pub record ConfigCmd : Type 0 where
  pub version : ℕ
  pub cmd : ℕ
  pub camera_id : ℕ
  pub codec_type : ℕ
  pub resolution : ℕ

abbrev pub config_cmd_size : ℕ
config_cmd_size = 40

unfoldable pub read_config_cmd : List ℕ → ConfigCmd
read_config_cmd bs =
    let ws = words_of_bytes bs in
    record {
      version = word_at ws 0;
      cmd = word_at ws 1;
      camera_id = word_at ws 2;
      codec_type = word_at ws 3;
      resolution = word_at ws 4;
    }

abbrev pub ack_size : ℕ
ack_size = 4
