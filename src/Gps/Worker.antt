-- ===== src/Gps/Worker.antt =====
-- The work thread of a VirtualGpsReceiver: workThreadProc() of source/virtual_gps_receiver.cc.
pub mod Stopping
pub mod Reading
pub mod Commands
use host_camera_server.Base.{
  ℕ, zero, suc, List, [], ◌∷◌, Bool, true, false, ℤ, pos, negsuc, is_neg, Option, none, some,
  get_or, ◌==◌, if◌then◌else◌,
}
use host_camera_server.Net.Kernel.{IoResult}
use host_camera_server.Gps.Receiver.{
  GpsKernel, Receiver, disconnect, is_connected, connect, read_bytes,
}

-- VirtualGpsReceiver::Command for GPS_CMD_QUIT, GPS_CMD_START and GPS_CMD_STOP.
unfoldable pub command_of : ℕ → Option ℕ
command_of cmd =
    if cmd == 0 then some 20 else if cmd == 1 then some 21 else if cmd == 2 then some 22 else none

-- The switch: a known command goes to the handler, if there is one.
unfoldable pub obey : ℕ → Receiver → Receiver
unfolding command_of
obey cmd g = elim (command_of cmd) [
  | none ↦ g
  | some command ↦ if g.has_handler then record g { commands = command ∷ g.commands } else g
]

-- How a round of the loop ends: at its end (also by `continue`), or by `break`.
pub data Round : Type 0 where
  next exits : Round

-- The three branches on what Read() returned.
unfoldable pub after_read : Receiver → IoResult → Receiver × Round
unfolding obey
after_read g result = elim result.size [
  | negsuc n ↦ (g, next)
  | pos n ↦ if n == 1 then (obey (get_or result.received 0 255) g, next) else (g, exits)
]

-- The destructor up to the join of the thread.
unfoldable pub destroy : Receiver → Receiver
unfolding disconnect
destroy g = let g1 = record g { stop = true } in if is_neg g1.sock then g1 else (disconnect g1).0

module _ (k : GpsKernel) where
  unfoldable pub read_command : Receiver → Option (Receiver × Round)
  unfolding after_read
  read_command g = elim (read_bytes k 1 g) [
    | none ↦ none
    | some (g1, result) ↦ some (after_read g1 result)
  ]

  -- A round of the loop.
  unfoldable pub work : Receiver → Option (Receiver × Round)
  unfolding read_command
  work g =
      if g.stop
      then some (g, exits)
      else if is_connected g
      then read_command g
      else (let (g1, connected) = connect k g in
          if connected then read_command g1 else some (g1, next))

  -- At most `n` rounds of the loop, and whether the thread is still in it.
  unfoldable pub work_for : ℕ → Receiver → Option (Receiver × Round)
  work_for zero g = some (g, next)
  work_for (suc n) g = elim (work g) [
    | none ↦ none
    | some (g1, exits) ↦ some (g1, exits)
    | some (g1, next) ↦ work_for n g1
  ]
