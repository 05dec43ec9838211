-- ===== src/Video/Handlers.antt =====
-- What the talker thread of VideoSink does with a message.
use host_camera_server.Base.{
  ℕ, suc, ◌+◌, ◌≡◌, refl, ◌⊎◌, inl, inr, List, [], ◌∷◌, Bool, true, false, arith, Bool-cases,
}
use host_camera_server.Net.Kernel.{IoResult}
use host_camera_server.Net.Client.{StreamClient}
use host_camera_server.Talker.{polling, Revents, ready, is_size, poll_step}
use host_camera_server.Video.Wire.{
  PacketType, capability, camera_config, read_header, header_size, ConfigCmd, read_config_cmd,
  config_cmd_size,
}
use host_camera_server.Video.Sink.{
  Act, signalled, stored, notified, called, Sink, prepare, recv_packet, handle_ack,
  handle_capability, handle_cmd, handle, serve_message, serve, is_connected,
}

-- How often a waiting caller was notified or the callback was called.
abbrev pub wakes : List Act → ℕ
wakes [] = 0
wakes (signalled ∷ acts) = wakes acts
wakes (stored bs ∷ acts) = wakes acts
wakes (notified ∷ acts) = suc (wakes acts)
wakes (called cmd ∷ acts) = suc (wakes acts)

-- The commands that the callback was called with, newest first.
abbrev pub commands : List Act → List ConfigCmd
commands [] = []
commands (signalled ∷ acts) = commands acts
commands (stored bs ∷ acts) = commands acts
commands (notified ∷ acts) = commands acts
commands (called cmd ∷ acts) = cmd ∷ commands acts

-- A handler reports success after it has woken exactly one party, and failure only with the socket
-- closed and nobody woken.
abbrev pub Settles : (net : StreamClient) → Sink net → Sink net × Bool → Type 0
Settles net t (t', true) = wakes t'.acts ≡ wakes t.acts + 1
Settles net t (t', false) = (wakes t'.acts ≡ wakes t.acts) × (is_connected net t' ≡ false)

module _ (net : StreamClient) (msg_waitall : ℕ) where
  -- If MSG_WAITALL is 256, as on Linux, it is lost in the uint8_t: RecvPacket asks the socket for a
  -- plain recv().
  pub recv_packet-drops_flag :
      (size : ℕ) (t : Sink net)
      → msg_waitall ≡ 256
      → (recv_packet net msg_waitall size t).1 ≡ (net.recv size 0 t.socket).1
  unfolding recv_packet
  recv_packet-drops_flag size t h = rw h refl

  handle_ack-Settles : (t : Sink net) → Settles net t (handle_ack net msg_waitall t)
  unfolding handle_ack is_connected
  handle_ack-Settles t =
      ground (arith, net.close_disconnects (recv_packet net msg_waitall 4 t).0.socket)

  handle_capability-Settles : (t : Sink net) → Settles net t (handle_capability net msg_waitall t)
  unfolding handle_capability is_connected
  handle_capability-Settles t =
      ground (arith, net.close_disconnects (recv_packet net msg_waitall 32 t).0.socket)

  handle_cmd-Settles : (t : Sink net) → Settles net t (handle_cmd net msg_waitall t)
  unfolding handle_cmd is_connected
  handle_cmd-Settles t =
      ground (arith, net.close_disconnects (recv_packet net msg_waitall 40 t).0.socket)

  -- Each of the three handlers either reports success and has woken one party, a waiting caller or
  -- the callback, or reports failure, has closed the socket and has woken nobody.
  pub handlers-Settles :
      (t : Sink net)
      → Settles net t (handle_ack net msg_waitall t)
        × Settles net t (handle_capability net msg_waitall t)
        × Settles net t (handle_cmd net msg_waitall t)
  handlers-Settles t = (handle_ack-Settles t, handle_capability-Settles t, handle_cmd-Settles t)

  -- What a message has to be for the callback to be called: a whole header of type CAMERA_CONFIG, and
  -- a whole camera_config_cmd_t after it, which is what the callback is given.
  abbrev pub IsCommand : ConfigCmd → Sink net → Type 0
  IsCommand cmd t =
      let (t1, head) = recv_packet net msg_waitall header_size t in
      let (t2, body) = recv_packet net msg_waitall config_cmd_size t1 in
      (is_size head.size header_size ≡ true)
      × ((read_header head.received).type ≡ camera_config)
      × (is_size body.size config_cmd_size ≡ true)
      × (cmd ≡ read_config_cmd body.received)

  abbrev pub config_response : Sink net → IoResult
  config_response t = (recv_packet net msg_waitall config_cmd_size t).1

  handle-commands :
      (p : PacketType) (t : Sink net)
      → (commands (handle net msg_waitall p t).acts ≡ commands t.acts)
        ⊎ ((commands (handle net msg_waitall p t).acts
              ≡ read_config_cmd (config_response t).received ∷ commands t.acts)
            × (p ≡ camera_config)
            × (is_size (config_response t).size config_cmd_size ≡ true))
  unfolding handle
  handle-commands capability t = inl (ground arith)
  handle-commands camera_config t =
      elim (Bool-cases (is_size (config_response t).size config_cmd_size)) [
        | inl ok ↦ inr (ground arith, refl, ok)
        | inr short ↦ inl (ground arith)
      ]
  handle-commands _ t = inl (ground arith)

  -- One message calls the callback at most once, and only for a complete command.
  pub serve_message-commands :
      (t : Sink net)
      → (commands (serve_message net msg_waitall t).acts ≡ commands t.acts)
        ⊎ ((cmd : ConfigCmd) × (commands (serve_message net msg_waitall t).acts
              ≡ cmd ∷ commands t.acts)
            × IsCommand cmd t)
  unfolding serve_message
  serve_message-commands t =
      let (t1, head) = recv_packet net msg_waitall header_size t in
      elim (Bool-cases (is_size head.size header_size)) [
        | inl ok ↦ elim (handle-commands (read_header head.received).type t1) [
          | inl same ↦ inl (rw (ok, serve_message) same)
          | inr (more, p, whole) ↦ inr (
            read_config_cmd (config_response t1).received,
            rw (ok, serve_message) more,
            (ok, p, whole, refl),
          )
        ]
        | inr short ↦ inl (rw (short, serve_message) refl)
      ]

  abbrev pub readable : Revents
  readable = record { pollin = true; pollerr = false; pollhup = false; pollnval = false }

  -- A header that is too short closes the socket, but the `continue` keeps the thread in the inner
  -- loop: it polls on, while it is not connected.
  pub short_header_polls_on :
      (t : Sink net)
      → t.should_continue ≡ true
      → is_size (recv_packet net msg_waitall header_size t).1.size header_size ≡ false
      → let t' =
          poll_step net (prepare net msg_waitall) (serve net msg_waitall) (ready readable) t in
        (t'.phase ≡ polling) × (is_connected net t' ≡ false)
  unfolding poll_step serve is_connected
  short_header_polls_on t go short = (
    ground arith,
    ground (arith, net.close_disconnects (recv_packet net msg_waitall header_size t).0.socket),
  )
