-- ===== src/Clients/Pushing/Stream.antt =====
-- What a peer reads of the file that host_camera_service/camera_client.cc sends through VideoSink, and
-- host_camera_service/audio_record_client.cc through AudioSink.
use host_camera_server.Base.{
  is_minus_one, bytes_of_words, bytes32, ℕ, zero, suc, ◌+◌, ◌*◌, ◌≤◌, ◌<◌, ◌≡◌, refl, sym, ap, ◌∙◌,
  List, [], ◌∷◌, ◌++◌, false, Option, none, some, is_neg, length, take, arith, append-nil,
  append_assoc, joined, All, IsWord, u32,
}
use host_camera_server.Net.Kernel.{IoResult}
use host_camera_server.Net.Client.{StreamClient}
use host_camera_server.Net.Reliable.{Reliable}
use host_camera_server.Video.Wire.{camera_data, Header, header_bytes, read_header}
use host_camera_server.Video.Wire.RoundTrip.{read_header-header_bytes}
use host_camera_server.Video.Sink.{send_data_packet}
use host_camera_server.Audio.Stream as Audio
use host_camera_server.Clients.Reading.{Framing, read_frames, framed, read_frames-framed}
use host_camera_server.Clients.Pushing.{frame_size, audio_size, turns, started}
use host_camera_server.Clients.Pushing.Passes.{pieces, repeated, turns-started}
use host_camera_server.Clients.Pushing.Sending.{carried, stream, stream-sent_after, turns-Streams}

-- The peer expects the header of a CAMERA_DATA packet.
abbrev pub size_in : Header → Option ℕ
size_in h = elim h.type [ camera_data ↦ some h.size | _ ↦ none ]

abbrev pub data_header : ℕ → Header
data_header n = record { type = camera_data; size = n }

pub head_read :
    (n : ℕ) (rest : List ℕ)
    → IsWord n
    → size_in (read_header (header_bytes (data_header n) ++ rest)) ≡ some n
head_read n rest h = ap size_in (read_header-header_bytes (data_header n) rest tt h).0

pub head_length : (n : ℕ) → length (header_bytes (data_header n)) ≡ 8
unfolding header_bytes bytes_of_words bytes32
head_length n = refl

abbrev pub camera : Framing
camera = record {
  head = λ n. header_bytes (data_header n);
  size_of = λ bytes. size_in (read_header bytes);
  head_read = head_read;
  head_length = head_length;
}

-- A packet behind its header.
abbrev enveloped : List ℕ → List ℕ
enveloped packet = camera.head (length packet) ++ packet

carried-enveloped : (packets : List (List ℕ)) → carried enveloped packets ≡ framed camera packets
carried-enveloped [] = refl
carried-enveloped (p ∷ ps) =
    ap (λ bs. enveloped p ++ bs) (carried-enveloped ps)
    ∙ append_assoc (camera.head (length p)) p (framed camera ps)

whole-IsWord :
    (packets : List (List ℕ))
    → All (λ packet. length packet ≡ frame_size) packets
    → All (λ packet. IsWord (length packet)) packets
whole-IsWord [] h = tt
whole-IsWord (p ∷ ps) h = (omega (arith, h.0), whole-IsWord ps h.1)

append-IsWord :
    (ps qs : List (List ℕ))
    → All (λ packet. IsWord (length packet)) ps
    → All (λ packet. IsWord (length packet)) qs
    → All (λ packet. IsWord (length packet)) (ps ++ qs)
append-IsWord [] qs h k = k
append-IsWord (p ∷ ps) qs h k = (h.0, append-IsWord ps qs h.1 k)

repeated-IsWord :
    (k : ℕ) (packets : List (List ℕ))
    → All (λ packet. length packet ≡ frame_size) packets
    → All (λ packet. IsWord (length packet)) (repeated k packets)
repeated-IsWord zero packets h = tt
repeated-IsWord (suc k) packets h =
    append-IsWord packets (repeated k packets) (whole-IsWord packets h)
      (repeated-IsWord k packets h)

-- Bytes that many times over.
abbrev pub copies : ℕ → List ℕ → List ℕ
copies zero bytes = []
copies (suc k) bytes = bytes ++ copies k bytes

carried-append :
    (ps qs : List (List ℕ)) → carried (λ p. p) (ps ++ qs) ≡ joined ps ++ carried (λ p. p) qs
carried-append [] qs = refl
carried-append (p ∷ ps) qs =
    ap (λ bs. p ++ bs) (carried-append ps qs)
    ∙ sym (append_assoc p (joined ps) (carried (λ p. p) qs))

carried-repeated :
    (k : ℕ) (packets : List (List ℕ))
    → carried (λ p. p) (repeated k packets) ≡ copies k (joined packets)
carried-repeated zero packets = refl
carried-repeated (suc k) packets =
    carried-append packets (repeated k packets)
    ∙ ap (λ bs. joined packets ++ bs) (carried-repeated k packets)

module _ (net : StreamClient) (r : Reliable net) where
  send_data_packet-taken :
      (packet : List ℕ) (s : net.State)
      → IsWord (length packet)
      → r.taken (send_data_packet net packet s).0
        ≡ r.taken s ++ (camera.head (length packet) ++ packet)
  unfolding send_data_packet
  send_data_packet-taken packet s h =
      let fit : u32 (length packet) ≡ length packet = omega (arith, h) in
      let head = camera.head (length packet) in
      let s1 = (net.send head s).0 in
      let first : is_minus_one (net.send head s).1.size ≡ false = rw (r.reports head s) refl in
      let whole : send_data_packet net packet s ≡ net.send packet s1 =
        rw (send_data_packet, fit, first) refl in
      ap (λ (o : net.State × IoResult). r.taken o.0) whole
      ∙ r.takes packet s1
      ∙ ap (λ (bs : List ℕ). bs ++ packet) (r.takes head s)
      ∙ append_assoc (r.taken s) head packet

  send_data_packet-succeeds :
      (packet : List ℕ) (s : net.State) → is_neg (send_data_packet net packet s).1.size ≡ false
  unfolding send_data_packet
  send_data_packet-succeeds packet s =
      let head = camera.head (u32 (length packet)) in
      let first : is_minus_one (net.send head s).1.size ≡ false = rw (r.reports head s) refl in
      let whole : send_data_packet net packet s ≡ net.send packet (net.send head s).0 =
        rw (send_data_packet, first) refl in
      ap (λ (o : net.State × IoResult). is_neg o.1.size) whole
      ∙ ap is_neg (r.reports packet (net.send head s).0)

  module _ (files : ℕ → Option (List ℕ)) where
    -- Over a connection that takes all it is given, if the file is there at every opening and holds
    -- `q` whole pieces of 4096 bytes and less than one more, 1 + k (q + 1) turns of the thread without
    -- a stop put on the connection exactly `k` times the pieces, in CAMERA_DATA packets: a peer that
    -- reads header and payload in turn finds these pieces, in this order, and nothing else.
    pub camera_client-Streams :
        (k q : ℕ) (bytes : List ℕ) (s : net.State) (stack : List ℕ)
        → q * frame_size ≤ length bytes
        → length bytes < q * frame_size + frame_size
        → ((n : ℕ) → files n ≡ some bytes)
        → let p =
            turns files frame_size (send_data_packet net) (suc (k * suc q)) (started s stack) in
          let packets = repeated k (pieces frame_size q bytes) in
          (r.taken p.socket ≡ r.taken s ++ framed camera packets)
          × (read_frames camera (length packets) (framed camera packets) ≡ some packets)
    camera_client-Streams k q bytes s stack low high found =
        let packets = repeated k (pieces frame_size q bytes) in
        let sends =
          turns-started files frame_size (send_data_packet net) k q bytes s stack (omega arith) low
            high found send_data_packet-succeeds in
        (
          turns-Streams r.taken files frame_size (send_data_packet net) enveloped
                (λ packet s small. send_data_packet-taken packet s (omega (arith, small)))
                (suc (k * suc q)) (r.taken s) (started s stack) (sym (append-nil (r.taken s)))
              ∙ ap (λ (bs : List (List ℕ)). r.taken s ++ stream enveloped bs) sends.0
              ∙ ap (λ (bs : List ℕ). r.taken s ++ bs)
                  (stream-sent_after enveloped [] packets ∙ carried-enveloped packets),
          read_frames-framed camera packets (repeated-IsWord k (pieces frame_size q bytes) sends.2),
        )

    audio-taken :
        (packet : List ℕ) (s : net.State)
        → r.taken (Audio.send_data_packet net packet s).0 ≡ r.taken s ++ packet
    unfolding Audio.send_data_packet
    audio-taken packet s = r.takes packet s

    audio-succeeds :
        (packet : List ℕ) (s : net.State)
        → is_neg (Audio.send_data_packet net packet s).1.size ≡ false
    unfolding Audio.send_data_packet
    audio-succeeds packet s =
        let whole : is_minus_one (net.send packet s).1.size ≡ false =
          rw (r.reports packet s) refl in
        rw (Audio.send_data_packet, whole) refl

    -- Over a connection that takes all it is given, if the file is there at every opening and holds
    -- `q` whole pieces of 1920 bytes and less than one more, 1 + k (q + 1) turns of the thread of the
    -- recording program without a stop put on the connection `k` times the first q * 1920 bytes of the
    -- file, and nothing else.
    pub audio_record_client-Streams :
        (k q : ℕ) (bytes : List ℕ) (s : net.State) (stack : List ℕ)
        → q * audio_size ≤ length bytes
        → length bytes < q * audio_size + audio_size
        → ((n : ℕ) → files n ≡ some bytes)
        → let p =
            turns files audio_size
              (Audio.send_data_packet net)
              (suc (k * suc q))
              (started s stack) in
          r.taken p.socket ≡ r.taken s ++ copies k (take (q * audio_size) bytes)
    audio_record_client-Streams k q bytes s stack low high found =
        let packets = repeated k (pieces audio_size q bytes) in
        let sends =
          turns-started files audio_size (Audio.send_data_packet net) k q bytes s stack
            (omega arith) low high found audio-succeeds in
        turns-Streams r.taken files audio_size (Audio.send_data_packet net) (λ p. p)
          (λ packet s small. audio-taken packet s) (suc (k * suc q)) (r.taken s) (started s stack)
          (sym (append-nil (r.taken s)))
        ∙ ap (λ (bs : List (List ℕ)). r.taken s ++ stream (λ p. p) bs) sends.0
        ∙ ap (λ (bs : List ℕ). r.taken s ++ bs)
            (stream-sent_after (λ p. p) [] packets
              ∙ carried-repeated k (pieces audio_size q bytes)
              ∙ ap (copies k) sends.1)
