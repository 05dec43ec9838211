-- ===== src/Sensor/Interface.antt =====
-- SensorInterface::Impl of source/sensor_interface_impl.h, over any IStreamSocketClient.
use host_camera_server.Base.{
  ℕ, ◌+◌, ◌*◌, ◌/◌, ◌%◌, List, [], ◌∷◌, ◌++◌, Bool, ◌||◌, ℤ, pos, negsuc, is_minus_one, none, some,
  take, get_or, bytes_of_words, words_of_bytes, if◌then◌else◌,
}
use host_camera_server.Net.Client.{StreamClient}
use host_camera_server.Talker.{
  Talker, Revents, Flow, again, leave, raise, is_size, close_socket, Event, started, run,
}
use host_camera_server.Sensor.Types.{data_count, is_valid_ctrl_packet}

-- SensorInterface::CtrlPacket; the fields are the bit patterns of an int32_t.
pub record CtrlPacket : Type 0 where
  pub type : ℕ
  pub enabled : ℕ
  pub sampling_period_ns : ℕ

abbrev pub ctrl_packet_size : ℕ
ctrl_packet_size = 12

unfoldable pub read_ctrl_packet : List ℕ → CtrlPacket
read_ctrl_packet bs =
    let ws = words_of_bytes bs in
    record { type = get_or ws 0 0; enabled = get_or ws 1 0; sampling_period_ns = get_or ws 2 0 }

-- SensorInterface::SensorDataPacket; `timestamp_ns` is a 64-bit pattern and `fdata` holds the six
-- 32-bit patterns of the floats.
pub record SensorDataPacket : Type 0 where
  pub type : ℕ
  pub timestamp_ns : ℕ
  pub fdata : List ℕ

-- The fields of vhal_sensor_event_t before `fdata`: type, fdataCount and the time.
unfoldable pub event_header : ℕ → SensorDataPacket → List ℕ
event_header count e =
    e.type ∷ count ∷ e.timestamp_ns % 4294967296 ∷ e.timestamp_ns / 4294967296 % 4294967296 ∷ []

-- The buffer that SendDataPacket fills: the header, and the first `count` floats.
unfoldable pub event_bytes : ℕ → SensorDataPacket → List ℕ
unfolding event_header
event_bytes count e = bytes_of_words (event_header count e ++ take count e.fdata)

abbrev pub event_header_size : ℕ
event_header_size = 16

-- SendDataPacket; the error numbers are not read by anyone.
unfoldable pub send_data_packet :
    (net : StreamClient) → SensorDataPacket → net.State → net.State × ℤ
send_data_packet net e s =
    if net.is_connected s
    then elim (data_count e.type) [
      | none ↦ (s, negsuc 0)
      | some count ↦
          (let (s', result) = net.send (event_bytes count e) s in
            (
              s',
              if is_minus_one result.size then negsuc 0 else pos (event_header_size + count * 4),
            ))
    ]
    else (s, pos 0)

-- The callback is called with a control packet.
pub data Act : Type 0 where
  called : CtrlPacket → Act

-- `registered`: RegisterCallback has set `callback_`; calling an empty std::function throws.
module _ (net : StreamClient) (registered : Bool) where
  unfoldable pub call_back : CtrlPacket → Talker net.State Act → Talker net.State Act × Flow
  call_back p t = if registered then (record t { acts = called p ∷ t.acts }, again) else (t, raise)

  unfoldable pub serve_message : Talker net.State Act → Talker net.State Act × Flow
  unfolding call_back
  serve_message t =
      let (s, result) = net.recv ctrl_packet_size 0 t.socket in
      let t1 = record t { socket = s } in
      if is_size result.size ctrl_packet_size
      then (let p = read_ctrl_packet result.received in
          if is_valid_ctrl_packet p.type then call_back p t1 else (t1, again))
      else (close_socket net t1, leave)

  unfoldable pub serve : Revents → Talker net.State Act → Talker net.State Act × Flow
  unfolding serve_message
  serve r t =
      if r.pollin
      then serve_message t
      else if r.pollerr || r.pollhup
      then (close_socket net t, leave)
      else (t, again)

  unfoldable pub run_sensor : List Event → net.State → Talker net.State Act
  run_sensor es s = run net (λ t. t) serve es (started s)
