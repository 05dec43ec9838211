-- ===== src/Audio/Messages.antt =====
-- What the audio threads of source/audio_source_impl.h and source/audio_sink_impl.h pass on, and what
-- SendDataPacket reports.
use host_camera_server.Base.{
  ℕ, ◌<◌, ◌≡◌, ◌≢◌, ◌⊎◌, inl, inr, refl, List, ◌∷◌, true, false, ◌||◌, pos, Option, Option-cases,
  none, some, arith, length, Bool-cases,
}
use host_camera_server.Net.Kernel.{IoResult}
use host_camera_server.Net.Client.{StreamClient}
use host_camera_server.Talker.{Talker, Revents, Flow, again, leave, raise, is_size}
use host_camera_server.Talker.Progress.{IsService}
use host_camera_server.Audio.Stream.{
  CtrlMessage, ctrl_message_size, read_ctrl_message, Act, called, serve, send_data_packet,
}

module _ (net : StreamClient) where
  abbrev pub response : Talker net.State Act → IoResult
  response t = (net.recv ctrl_message_size 0 t.socket).1

  abbrev pub Callback : Type 0
  Callback = CtrlMessage → net.State → net.State

  -- What the body of the inner loop has done with the events of a poll().
  abbrev pub Conveys :
      Option Callback → Revents → Talker net.State Act → Talker net.State Act × Flow → Type 0
  Conveys callback r t (t', flow) =
      let m = read_ctrl_message (response t).received in
      ((r.pollin ≡ true)
        × (is_size (response t).size ctrl_message_size ≡ true)
        × (((f : Callback) × (callback ≡ some f)
              × (t'.acts ≡ called m ∷ t.acts)
              × (t'.socket ≡ f m (net.recv ctrl_message_size 0 t.socket).0)
              × (flow ≡ again))
            ⊎ ((callback ≡ none) × (t'.acts ≡ t.acts) × (flow ≡ raise))))
      ⊎ (((t'.acts ≡ t.acts) × (flow ≡ leave) × (net.is_connected t'.socket ≡ false))
          ⊎ ((r.pollin ≡ false) × ((r.pollerr || r.pollhup) ≡ false) × (t' ≡ t) × (flow ≡ again)))

  -- A readable socket with a whole control message passes it to the callback, or, if none is
  -- registered yet, the empty callback raises an exception; a short read, an error or a hang-up closes
  -- the socket and leaves the inner loop, to connect again, with no call; other events do nothing.
  pub serve-Conveys :
      (callback : Option Callback) (r : Revents) (t : Talker net.State Act)
      → Conveys callback r t (serve net callback r t)
  unfolding serve
  serve-Conveys callback r t = elim (Bool-cases r.pollin) [
    | inl input ↦ elim (Bool-cases (is_size (response t).size ctrl_message_size)) [
      | inl whole ↦ inl (
        input,
        whole,
        elim (Option-cases callback) [
          | inl empty ↦
              inr (empty, simp (input, whole, empty) refl, simp (input, whole, empty) refl)
          | inr (f, set) ↦ inl (
            f,
            set,
            simp (input, whole, set) refl,
            simp (input, whole, set) refl,
            simp (input, whole, set) refl,
          )
        ],
      )
      | inr short ↦
          inr
            (inl (ground (arith, net.close_disconnects (net.recv ctrl_message_size 0 t.socket).0)))
    ]
    | inr quiet ↦ elim (Bool-cases (r.pollerr || r.pollhup)) [
      | inl bad ↦ inr (inl (ground (arith, net.close_disconnects t.socket)))
      | inr other ↦ inr (inr (quiet, other, simp (quiet, other, serve) refl, ground arith))
    ]
  ]

  -- The thread with a registered callback is a service in the sense of `Talker.Progress`.
  pub serve-IsService : (f : Callback) → IsService net Act (serve net (some f))
  unfolding serve
  serve-IsService f = record { serve_keeps = λ r t. ground arith; calm = λ r t. ground arith }

  -- SendDataPacket reports the whole packet as sent although send() took fewer bytes: then the size
  -- that it returns is not the number of bytes that went out, and no error is reported.
  pub send_data_packet-overstates :
      (packet : List ℕ) (n : ℕ) (s : net.State)
      → (net.send packet s).1.size ≡ pos n
      → n < length packet
      → ((send_data_packet net packet s).1.size ≡ pos (length packet))
        × ((send_data_packet net packet s).1.size ≢ (net.send packet s).1.size)
        × ((send_data_packet net packet s).1.error ≡ none)
  unfolding send_data_packet
  send_data_packet-overstates packet n s e h =
      rw (send_data_packet, e) (refl, (λ x. ground arith), refl)
