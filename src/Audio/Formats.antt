-- ===== src/Audio/Formats.antt =====
-- audio_bytes_per_sample of include/libvhal/android_audio_core.h, and the size of a buffer that the two
-- audio programs of host_camera_service work out with it.
use host_camera_server.Base.{ℕ, ◌*◌, ◌≤◌, ◌<◌, ◌≡◌, ◌||◌, ◌==◌, u32, u64, if◌then◌else◌, arith}
use native.Mathlib.Nat.{mul-le-mul_left}
use host_camera_server.Audio.Stream.{CtrlMessage}

-- audio_format_t.
abbrev pub iec61937 : ℕ
iec61937 = 218103808

abbrev pub pcm_16_bit : ℕ
pcm_16_bit = 1

abbrev pub pcm_8_bit : ℕ
pcm_8_bit = 2

abbrev pub pcm_32_bit : ℕ
pcm_32_bit = 3

abbrev pub pcm_8_24_bit : ℕ
pcm_8_24_bit = 4

abbrev pub pcm_float : ℕ
pcm_float = 5

abbrev pub pcm_24_bit_packed : ℕ
pcm_24_bit_packed = 6

unfoldable pub audio_bytes_per_sample : ℕ → ℕ
audio_bytes_per_sample format =
    if format == pcm_32_bit || format == pcm_8_24_bit
    then 4
    else if format == pcm_24_bit_packed
    then 3
    else if format == pcm_16_bit || format == iec61937
    then 2
    else if format == pcm_8_bit
    then 1
    else if format == pcm_float
    then 4
    else 0

-- frame_count * channel_count, in 32 bits, times the size of a sample, in 64.
unfoldable pub buffer_size_in_bytes : CtrlMessage → ℕ
buffer_size_in_bytes m =
    u64 (u32 (m.frame_count * m.channel_count) * audio_bytes_per_sample m.format)

-- A sample takes at most four bytes.
pub audio_bytes_per_sample-le : (format : ℕ) → audio_bytes_per_sample format ≤ 4
unfolding audio_bytes_per_sample
audio_bytes_per_sample-le format = ground arith

small_product : (s b : ℕ) → s < 4294967296 → b ≤ 4 → u64 (u32 s * b) ≡ s * b
small_product s b h k =
    let fit : u32 s ≡ s = omega (arith, h) in rw fit (omega (arith, h, mul-le-mul_left s k))

-- If the number of samples fits 32 bits, the size does not wrap around.
pub buffer_size_in_bytes-exact :
    (m : CtrlMessage)
    → m.frame_count * m.channel_count < 4294967296
    → buffer_size_in_bytes m ≡ m.frame_count * m.channel_count * audio_bytes_per_sample m.format
unfolding buffer_size_in_bytes
buffer_size_in_bytes-exact m h =
    small_product (m.frame_count * m.channel_count) (audio_bytes_per_sample m.format) h
      (audio_bytes_per_sample-le m.format)
