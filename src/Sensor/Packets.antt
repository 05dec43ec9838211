-- ===== src/Sensor/Packets.antt =====
-- What SensorInterface sends and passes on.
use host_camera_server.Base.{
  ℕ, zero, suc, ◌+◌, ◌*◌, ◌/◌, ◌%◌, ◌<◌, ◌≡◌, ◌⊎◌, List, [], ◌∷◌, ◌++◌, true, false, pos, negsuc,
  is_minus_one, some, arith, All, IsWord, length, take, length-take, words_of_bytes,
  words_of_bytes-bytes_of_words-All, length-bytes_of_words, if◌then◌else◌,
}
use host_camera_server.Net.Client.{StreamClient}
use host_camera_server.Talker.Progress.{IsService}
use host_camera_server.Sensor.Types.{data_count, is_valid_ctrl_packet}
use host_camera_server.Sensor.Interface.{
  SensorDataPacket, event_header, event_bytes, event_header_size, send_data_packet, Act, serve,
}

-- A packet as the fields of a SensorDataPacket allow it.
pub record IsPacket (e : SensorDataPacket) : Type 0 where
  pub type_fits : IsWord e.type
  pub time_fits : e.timestamp_ns < 18446744073709551616
  pub six : length e.fdata ≡ 6
  pub floats_fit : All IsWord e.fdata

data_count-le : (type n : ℕ) → data_count type ≡ some n → n < 7
unfolding data_count
data_count-le type n h = ground arith

All-take : (n : ℕ) (ws : List ℕ) → All IsWord ws → All IsWord (take n ws)
All-take zero ws h = tt
All-take (suc n) [] h = tt
All-take (suc n) (w ∷ ws) h = (h.0, All-take n ws h.1)

-- If the client is connected and the type is one that has `n` values: the packet goes out in one
-- send() of 16 + 4 n bytes; a reader of those bytes as words, the low byte first, finds the type, `n`,
-- the low and the high half of the time and the first `n` values; and the result is 16 + 4 n, also
-- where send() took only a part, unless send() failed, which gives -1.
pub send_data_packet-packet :
    (net : StreamClient) (e : SensorDataPacket) (n : ℕ) (s : net.State)
    → net.is_connected s ≡ true
    → data_count e.type ≡ some n
    → IsPacket e
    → (length (event_bytes n e) ≡ event_header_size + n * 4)
      × (words_of_bytes (event_bytes n e)
          ≡ (e.type
              ∷ n
              ∷ e.timestamp_ns % 4294967296
              ∷ e.timestamp_ns / 4294967296 % 4294967296
              ∷ [])
            ++ take n e.fdata)
      × ((send_data_packet net e s).0 ≡ (net.send (event_bytes n e) s).0)
      × ((send_data_packet net e s).1 ≡ (
          if is_minus_one (net.send (event_bytes n e) s).1.size
          then negsuc 0
          else pos (length (event_bytes n e))))
unfolding event_bytes send_data_packet
send_data_packet-packet net e n s c d v =
    let few = data_count-le e.type n d in
    let ws = event_header n e ++ take n e.fdata in
    let words : All IsWord ws =
      (v.type_fits, (omega arith, (omega arith, (omega arith, All-take n e.fdata v.floats_fit)))) in
    let long : length (event_bytes n e) ≡ event_header_size + n * 4 =
      omega (arith, length-bytes_of_words ws, length-take n e.fdata, v.six) in
    (
      long,
      words_of_bytes-bytes_of_words-All ws words,
      rw (send_data_packet, c, d),
      rw (long, send_data_packet, c, d),
    )

-- Data of a type that is not supported, or while the client is not connected, sends nothing; the
-- result is -1 if the client is connected and 0 if it is not.
pub send_data_packet-drops :
    (net : StreamClient) (e : SensorDataPacket) (s : net.State)
    → (net.is_connected s ≡ false) ⊎ (is_valid_ctrl_packet e.type ≡ false)
    → send_data_packet net e s ≡ (s, if net.is_connected s then negsuc 0 else pos 0)
unfolding send_data_packet data_count is_valid_ctrl_packet
send_data_packet-drops net e s h = ground arith

module _ (net : StreamClient) where
  -- The thread with a registered callback is a service in the sense of `Talker.Progress`.
  pub serve-IsService : IsService net Act (serve net true)
  unfolding serve
  serve-IsService = record { serve_keeps = λ r t. ground arith; calm = λ r t. ground arith }
