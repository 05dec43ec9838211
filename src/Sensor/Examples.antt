-- ===== src/Sensor/Examples.antt =====
-- The sensor interface's theorems at concrete inputs.
use host_camera_server.Base.{
  ◌/◌, ◌%◌, ◌+◌, ◌*◌, ◌≡◌, refl, [], ◌∷◌, ◌++◌, true, false, pos, negsuc, some, arith, length, take,
  is_minus_one, words_of_bytes, replicate, if◌then◌else◌,
}
use host_camera_server.Net.Kernel.{bytes, Kernel}
use host_camera_server.Net.Client.{StreamClient}
use host_camera_server.Net.Unix.{UnixClient, as_stream}
use host_camera_server.Talker.{
  Talker, polling, finished, Revents, ready, stops, polls, proceeds, run, started,
}
use host_camera_server.Talker.Progress.{stops_after_poll}
use host_camera_server.Sensor.Types.{
  data_count, is_valid_ctrl_packet, is_sensor_supported, get_supported_sensor_list,
}
use host_camera_server.Sensor.Types.Support.{is_some, supported_everywhere}
use host_camera_server.Sensor.Interface.{
  SensorDataPacket, event_bytes, event_header_size, send_data_packet, Act, serve,
}
use host_camera_server.Sensor.Packets.{IsPacket, send_data_packet-packet, serve-IsService}

abbrev kernel : Kernel
kernel = record {
  socket = λ n. pos 5;
  connect = λ n address. pos 0;
  send = λ n buf. pos (length buf);
  recv = λ n size flags. bytes (replicate size 0);
  errno = λ n. 0;
}

abbrev net : StreamClient
net = as_stream kernel

abbrev online : UnixClient
online = record {
  path = 47 ∷ [];
  socket = record { fd = pos 5; connected = true; calls = 2; log = [] };
}

-- An accelerometer packet.
abbrev packet : SensorDataPacket
packet = record { type = 1; timestamp_ns = 5000000000; fdata = 1 ∷ 2 ∷ 3 ∷ 0 ∷ 0 ∷ 0 ∷ [] }

packet-IsPacket : IsPacket packet
packet-IsPacket = ground arith

three_values : data_count 1 ≡ some 3
unfolding data_count
three_values = refl

send_data_packet-packet_example :
    (length (event_bytes 3 packet) ≡ event_header_size + 3 * 4)
    × (words_of_bytes (event_bytes 3 packet)
        ≡ (packet.type
            ∷ 3
            ∷ packet.timestamp_ns % 4294967296
            ∷ packet.timestamp_ns / 4294967296 % 4294967296
            ∷ [])
          ++ take 3 packet.fdata)
    × ((send_data_packet net packet online).0 ≡ (net.send (event_bytes 3 packet) online).0)
    × ((send_data_packet net packet online).1 ≡ (
        if is_minus_one (net.send (event_bytes 3 packet) online).1.size
        then negsuc 0
        else pos (length (event_bytes 3 packet))))
send_data_packet-packet_example =
    send_data_packet-packet net packet 3 online refl three_values packet-IsPacket

abbrev unsupported : SensorDataPacket
unsupported = record packet { type = 3 }

three_unsupported : is_valid_ctrl_packet 3 ≡ false
unfolding is_valid_ctrl_packet
three_unsupported = refl

abbrev thread : Talker UnixClient Act
thread = record (started online) { phase = polling }

abbrev readable : Revents
readable = record { pollin = true; pollerr = false; pollhup = false; pollnval = false }

stops_after_poll_example :
    (run net
      (λ t. t)
      (serve net true)
      (stops ∷ polls (ready readable) ∷ proceeds ∷ [])
      thread).phase
    ≡ finished
stops_after_poll_example =
    stops_after_poll net (λ t. t) (serve net true) (serve-IsService net) thread (ready readable)
      (λ n e. cc) refl

supported_everywhere_example :
    (is_some (data_count 5) ≡ is_valid_ctrl_packet 5)
    × (is_sensor_supported get_supported_sensor_list 5 ≡ is_valid_ctrl_packet 5)
supported_everywhere_example = supported_everywhere 5 (omega arith)
