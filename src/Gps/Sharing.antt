-- ===== src/Gps/Sharing.antt =====
-- `mSockGps` of source/virtual_gps_receiver.cc between two threads: the work thread, which reads and
-- connects, and a thread of the program, which writes. Either disconnects when the server has closed
-- the connection, and nothing is locked.
pub mod Owning
use host_camera_server.Base.{ℕ, List, [], ◌∷◌, ℤ, pos, negsuc, is_neg, if◌then◌else◌}

pub data Who : Type 0 where
  worker writer : Who

-- Where a thread is: not in Disconnect(), or before one of its steps: the test, shutdown(), close(),
-- and `mSockGps = -1`.
pub data Pc : Type 0 where
  outside testing shutting closing clearing : Pc

-- `mSockGps`, the descriptors that connections were opened with and those that were closed, newest
-- first, and where the two threads are.
pub record Sharing : Type 0 where
  pub sock : ℤ
  pub opens : List ℤ
  pub closes : List ℤ
  pub worker_pc : Pc
  pub writer_pc : Pc

abbrev pub pc_of : Who → Sharing → Pc
pc_of worker s = s.worker_pc
pc_of writer s = s.writer_pc

abbrev pub other : Who → Who
other worker = writer
other writer = worker

abbrev pub goto : Who → Pc → Sharing → Sharing
goto worker pc s = record s { worker_pc = pc }
goto writer pc s = record s { writer_pc = pc }

-- Disconnect(), step by step; each step looks at `mSockGps` anew.
unfoldable pub disconnect_step : Pc → Who → Sharing → Sharing
disconnect_step outside who s = s
disconnect_step testing who s = goto who (if is_neg s.sock then outside else shutting) s
disconnect_step shutting who s = goto who closing s
disconnect_step closing who s = goto who clearing (record s { closes = s.sock ∷ s.closes })
disconnect_step clearing who s = goto who outside (record s { sock = negsuc 0 })

-- The read() or write() of a thread gives 0, and it calls Disconnect().
unfoldable pub enter : Pc → Who → Sharing → Sharing
enter outside who s = goto who testing s
enter pc who s = s

-- The work thread connects, with a descriptor of the system, where there is none.
unfoldable pub connect : Pc → ℕ → Sharing → Sharing
connect outside fd s =
    if is_neg s.sock then record s { sock = pos fd; opens = pos fd ∷ s.opens } else s
connect pc fd s = s

pub data Move : Type 0 where
  meets_end goes_on : Who → Move
  connects : ℕ → Move

unfoldable pub move : Move → Sharing → Sharing
move (meets_end who) s = enter (pc_of who s) who s
move (goes_on who) s = disconnect_step (pc_of who s) who s
move (connects fd) s = connect s.worker_pc fd s

unfoldable pub run : List Move → Sharing → Sharing
run [] s = s
run (m ∷ ms) s = run ms (move m s)

abbrev pub at_start : Sharing
at_start = record {
  sock = negsuc 0;
  opens = [];
  closes = [];
  worker_pc = outside;
  writer_pc = outside;
}
