-- ===== src/Audio/OverTcp/Splitting.antt =====
-- The talker thread of source/audio_source_impl.h and source/audio_sink_impl.h over a TCP client splits
-- the stream into messages.
use host_camera_server.Base.{
  ℕ, ◌<◌, ◌≡◌, refl, sym, ap, ◌∙◌, inl, inr, List, [], ◌∷◌, ◌++◌, map, append-nil, true, false,
  some, ◌||◌, All, arith, length, Bool-cases,
}
use host_camera_server.Net.Kernel.{Kernel, RecvFits, IoResult}
use host_camera_server.Net.Client.{hang_up}
use host_camera_server.Net.Tcp.{TcpClient, close}
use host_camera_server.Net.Tcp.Transfer.{Transfers, bytes_read}
use host_camera_server.Net.Tcp.Stream.{recv_all, recv_all-Transfers, as_stream}
use host_camera_server.Talker.{
  Talker, outer, polling, finished, died, started, advance, Phase, Revents, Poll, failure, timeout,
  ready, Flow, again, leave, raise, is_size, polls, after_body, poll_step, step, run,
}
use host_camera_server.Audio.Stream.{
  CtrlMessage, ctrl_message_size, read_ctrl_message, Act, called, call_back, serve_message, serve,
}
use host_camera_server.Audio.OverTcp.{joined, IsMessage, passed, Split, Splits}

bytes_read-close : (c : TcpClient) → bytes_read (close c).socket.log ≡ bytes_read c.socket.log
unfolding close hang_up bytes_read
bytes_read-close c = ground arith

is_size-whole :
    (size : ℕ) (before : List ℕ) (c : TcpClient) (result : IoResult)
    → Transfers size before c.socket result
    → is_size result.size size ≡ true
    → length result.received ≡ size
is_size-whole size before c result t e = ground (arith, t.counted)

is_size-part :
    (size : ℕ) (before : List ℕ) (c : TcpClient) (result : IoResult)
    → Transfers size before c.socket result
    → is_size result.size size ≡ false
    → length result.received < size
is_size-part size before c result t e = ground (arith, t.counted, t.fits)

module _ (k : Kernel) (fits : RecvFits k) (callback : CtrlMessage → TcpClient → TcpClient)
    (leaves : (m : CtrlMessage) (c : TcpClient) → callback m c ≡ c) where
  abbrev body : Revents → Talker TcpClient Act → Talker TcpClient Act × Flow
  body = serve (as_stream k) (some callback)

  -- What the body of the loop leaves behind, before the condition of the loop is tested.
  record Leaves (ms : List (List ℕ)) (rest : List ℕ) (x : Talker TcpClient Act × Flow)
      : Type 0 where
    whole : All IsMessage ms
    stream : bytes_read x.0.socket.socket.log ≡ joined ms ++ rest
    calls : x.0.acts ≡ passed ms
    part : length rest < ctrl_message_size
    clean : (x.1 ≡ again) → rest ≡ []

  after_body-Split :
      (ms : List (List ℕ)) (rest : List ℕ) (x : Talker TcpClient Act × Flow)
      → Leaves ms rest x
      → Split ms rest (after_body (as_stream k) (λ t. t) body x)
  unfolding after_body
  after_body-Split ms rest (t, again) h = record {
    whole = h.whole;
    stream = h.stream;
    calls = h.calls;
    part = h.part;
    clean = λ e. h.clean refl;
  }
  after_body-Split ms rest (t, leave) h = record {
    whole = h.whole;
    stream = h.stream;
    calls = h.calls;
    part = h.part;
    clean = λ e. cc;
  }
  after_body-Split ms rest (t, raise) h = record {
    whole = h.whole;
    stream = h.stream;
    calls = h.calls;
    part = h.part;
    clean = λ e. cc;
  }

  serve_message-Leaves :
      (ms : List (List ℕ)) (t : Talker TcpClient Act)
      → Split ms [] t
      → (ms' : List (List ℕ)) × (rest : List ℕ) × Leaves ms' rest
          (serve_message (as_stream k) (some callback) t)
  unfolding serve_message call_back
  serve_message-Leaves ms t h =
      let (c, result) = recv_all k ctrl_message_size 0 t.socket in
      let moved = recv_all-Transfers k ctrl_message_size 0 t.socket fits in
      let read_so_far : bytes_read t.socket.socket.log ≡ joined ms =
        h.stream ∙ append-nil (joined ms) in
      elim (Bool-cases (is_size result.size ctrl_message_size)) [
        | inl e ↦ (
          result.received ∷ ms,
          [],
          rw (e, serve_message)
              (record {
                whole = (is_size-whole _ _ c result moved e, h.whole);
                stream =
                    ap (λ (d : TcpClient). bytes_read d.socket.log)
                      (leaves (read_ctrl_message result.received) c)
                    ∙ (moved.in_order ∙ ap (λ xs. xs ++ result.received) read_so_far)
                    ∙ sym (append-nil _);
                calls = ap (λ xs. called (read_ctrl_message result.received) ∷ xs) h.calls;
                part = omega arith;
                clean = λ q. refl;
              }),
        )
        | inr e ↦ (
          ms,
          result.received,
          rw (e, serve_message)
              (record {
                whole = h.whole;
                stream =
                    bytes_read-close c
                    ∙ (moved.in_order ∙ ap (λ xs. xs ++ result.received) read_so_far);
                calls = h.calls;
                part = is_size-part _ _ c result moved e;
                clean = λ q. cc;
              }),
        )
      ]

  serve-Leaves :
      (ms : List (List ℕ)) (r : Revents) (t : Talker TcpClient Act)
      → Split ms [] t
      → (ms' : List (List ℕ)) × (rest : List ℕ) × Leaves ms' rest (body r t)
  unfolding serve
  serve-Leaves ms r t h = elim (Bool-cases r.pollin) [
    | inl e ↦ rw (e, serve) (serve_message-Leaves ms t h)
    | inr e ↦ elim (Bool-cases (r.pollerr || r.pollhup)) [
      | inl bad ↦ (
        ms,
        [],
        rw (e, bad, serve)
            (record {
              whole = h.whole;
              stream = bytes_read-close t.socket ∙ h.stream;
              calls = h.calls;
              part = h.part;
              clean = λ q. refl;
            }),
      )
      | inr good ↦ (
        ms,
        [],
        rw (e, good, serve)
            (record {
              whole = h.whole;
              stream = h.stream;
              calls = h.calls;
              part = h.part;
              clean = λ q. refl;
            }),
      )
    ]
  ]

  poll_step-Splits :
      (p : Poll) (ms : List (List ℕ)) (t : Talker TcpClient Act)
      → Split ms [] t
      → Splits (poll_step (as_stream k) (λ t. t) body p t)
  unfolding poll_step
  poll_step-Splits (failure n) ms t h = (
    ms,
    [],
    record {
      whole = h.whole;
      stream = h.stream;
      calls = h.calls;
      part = h.part;
      clean = λ e. refl;
    },
  )
  poll_step-Splits timeout ms t h = (
    ms,
    [],
    after_body-Split ms [] (t, again)
        (record {
          whole = h.whole;
          stream = h.stream;
          calls = h.calls;
          part = h.part;
          clean = λ e. refl;
        }),
  )
  poll_step-Splits (ready r) ms t h =
      let (ms', rest, l) = serve-Leaves ms r t h in
      (ms', rest, after_body-Split ms' rest (body r t) l)

  advance-Splits :
      (p : Poll) (ph : Phase) (ms : List (List ℕ)) (rest : List ℕ) (t : Talker TcpClient Act)
      → t.phase ≡ ph
      → Split ms rest t
      → Splits (advance (as_stream k) (λ t. t) body ph (polls p) t)
  unfolding advance
  advance-Splits p polling ms rest t e h =
      let none_left = h.clean e in poll_step-Splits p ms t (rw none_left at h)
  advance-Splits p outer ms rest t e h = (ms, rest, h)
  advance-Splits p finished ms rest t e h = (ms, rest, h)
  advance-Splits p died ms rest t e h = (ms, rest, h)

  run-Splits :
      (ps : List Poll) (t : Talker TcpClient Act)
      → Splits t
      → Splits (run (as_stream k) (λ t. t) body (map polls ps) t)
  unfolding run step
  run-Splits [] t h = h
  run-Splits (p ∷ ps) t (ms, rest, h) = run-Splits ps _ (advance-Splits p t.phase ms rest t refl h)

-- If recv() never writes more than it is asked for, and a callback is registered that leaves the socket
-- as it is, which is so in a program that records: an audio thread that polls a TCP socket from which
-- nothing has been read has at any later time of that connection, whatever the polls and the calls
-- return and in whatever pieces the bytes come, called its callback exactly with the messages of 20
-- bytes that the bytes read so far are made of, in order; fewer than 20 bytes are left over, and none
-- while the thread polls on.
pub run-Splits_stream :
    (k : Kernel) (callback : CtrlMessage → TcpClient → TcpClient) (ps : List Poll) (c : TcpClient)
    → RecvFits k
    → ((m : CtrlMessage) (c' : TcpClient) → callback m c' ≡ c')
    → bytes_read c.socket.log ≡ []
    → Splits (
        run
          (as_stream k)
          (λ t. t)
          (serve (as_stream k) (some callback))
          (map polls ps)
          (record (started c) { phase = polling }))
run-Splits_stream k callback ps c fits leaves e =
    run-Splits k fits callback leaves ps _ (
      [],
      [],
      record { whole = tt; stream = e; calls = refl; part = omega arith; clean = λ q. refl },
    )
