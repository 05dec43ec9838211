-- ===== src/Camera/Capture/Frames.antt =====
-- What the capture thread sends for the frames of a camera that gives YUYV.
use host_camera_server.Base.{
  ℕ, ◌+◌, ◌*◌, ◌/◌, ◌%◌, ◌≤◌, ◌<◌, ◌≡◌, ◌∙◌, List, [], ◌∷◌, Bool, true, false, Option, length,
  get_or, All, arith, length-set, get_or-All, set-All,
}
use host_camera_server.Net.Client.{StreamClient}
use host_camera_server.Camera.Convert.{yuyv422_to_yuv420sp}
use host_camera_server.Camera.Convert.Chroma.{pair}
use host_camera_server.Camera.Convert.Luma.{yuyv422_to_yuv420sp-luma}
use host_camera_server.Camera.Capture.{
  Capture, inbuf_size, packet_data, send_converted, send_packet, frame_round, frame_rounds,
}

module _ (net : StreamClient) (width height : ℕ) where
  -- The four buffers have the size of a frame.
  abbrev pub IsReady : Capture net → Type 0
  IsReady c = (length c.buf_list ≡ 4) × All (λ buf. length buf ≡ inbuf_size width height) c.buf_list

  -- A packet is a frame of YUYV in three planes: it has their size; first the luma bytes of the frame;
  -- then, of the pixel pairs of the first, third, fifth row and so on, the V bytes; and then their U
  -- bytes.
  abbrev pub IsPlanar : List ℕ → List ℕ → Type 0
  IsPlanar frame packet =
      (length packet ≡ inbuf_size width height)
      × ((n : ℕ) → n < height * width → get_or packet n 0 ≡ get_or frame (2 * n) 0)
      × ((m : ℕ)
          → m < height * width / 4
          → get_or packet (height * width + m) 0 ≡ get_or frame (4 * pair (width / 2) m + 1) 0)
      × ((m : ℕ)
          → m < height * width / 4
          → get_or packet (height * width + height * width / 4 + m) 0
            ≡ get_or frame (4 * pair (width / 2) m + 3) 0)

  module _ (four : width % 4 ≡ 0) (some_pixels : 0 < height * width) where
    length-converted :
        (frame buf : List ℕ)
        → length buf ≡ inbuf_size width height
        → length (yuyv422_to_yuv420sp frame buf width height false) ≡ inbuf_size width height
    length-converted frame buf h =
        let room : height * width + height * width / 2 ≤ length buf = omega (arith, h) in
        (yuyv422_to_yuv420sp-luma frame buf width height false 0 four room some_pixels).0 ∙ h

    -- A round keeps the buffers as they should be, whatever it reads.
    frame_round-IsReady :
        (i420 : Bool) (frame : Option (List ℕ)) (c : Capture net)
        → IsReady c
        → IsReady (frame_round net width height i420 frame c)
    unfolding frame_round send_converted send_packet
    frame_round-IsReady false frame c h = h
    frame_round-IsReady true frame c h =
        let index = c.buf_count % 4 in
        let old =
          get_or-All (λ buf. length buf ≡ inbuf_size width height) c.buf_list index [] h.1
            (omega (arith, h.0)) in
        (
          length-set c.buf_list index _ ∙ h.0,
          set-All (λ buf. length buf ≡ inbuf_size width height) c.buf_list index _ h.1
              (length-converted (packet_data frame) (get_or c.buf_list index []) old),
        )

    pub frame_rounds-IsReady :
        (i420 : Bool) (frames : List (Option (List ℕ))) (c : Capture net)
        → IsReady c
        → IsReady (frame_rounds net width height i420 frames c)
    unfolding frame_rounds
    frame_rounds-IsReady i420 [] c h = h
    frame_rounds-IsReady i420 (f ∷ fs) c h =
        frame_rounds-IsReady i420 fs _ (frame_round-IsReady i420 f c h)
