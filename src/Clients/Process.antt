-- ===== src/Clients/Process.antt =====
-- main() of host_camera_service/camera_client.cc and host_camera_service/audio_record_client.cc: the
-- callback, which the talker thread calls, beside the thread that sends the file.
pub mod Fate
use host_camera_server.Base.{ℕ, List, [], ◌∷◌, Bool, true, false, Option, if◌then◌else◌, ◌==◌}
use host_camera_server.Net.Kernel.{IoResult}
use host_camera_server.Video.Wire.{ConfigCmd}
use host_camera_server.Audio.Stream.{CtrlMessage}
use host_camera_server.Clients.Pushing.{
  Phase, looping, ended, starting, exited, Pusher, started, step,
}

-- What the switch of the callback tells apart.
pub data Order : Type 0 where
  opens closes unknown : Order

-- CMD_OPEN is 11 and CMD_CLOSE is 12; kOpen is 0 and kClose is 1.
unfoldable pub camera_order : ConfigCmd → Order
camera_order c = if c.cmd == 11 then opens else if c.cmd == 12 then closes else unknown

unfoldable pub audio_order : CtrlMessage → Order
audio_order m = if m.cmd == 0 then opens else if m.cmd == 1 then closes else unknown

-- The program runs, its callback waits in join(), it has called exit(), or an exception or the loss
-- of a thread that can be joined has ended it by std::terminate.
pub data Life : Type 0 where
  alive joining terminated : Life
  gone : ℕ → Life

-- `stop`, whether `file_src_thread` can be joined, what the thread is at, and the program's life.
pub record Process (S : Type 0) : Type 0 where
  pub stop : Bool
  pub joinable : Bool
  pub pusher : Pusher S
  pub life : Life

-- Who moves next: the talker thread, with a command; the thread of the file, with one step; the
-- callback, back from join(), if the thread has ended.
pub data Move : Type 0 where
  commands : Order → Move
  turns joins : Move

-- The callback: a new thread over one that can still be joined terminates the program, and so does
-- join() of a thread that was never started.
unfoldable pub call_back : {S : Type 0} → Order → Process S → Process S
call_back opens p =
    if p.joinable
    then record p { life = terminated }
    else record p { joinable = true; pusher = record p.pusher { phase = starting } }
call_back closes p = record p { stop = true; life = if p.joinable then joining else terminated }
call_back unknown p = record p { life = gone 1 }

-- join() returns, and exit(0) follows.
unfoldable pub join : {S : Type 0} → Phase → Process S → Process S
join ended p = record p { joinable = false; life = gone 0 }
join _ p = p

-- An exit() of the thread ends the program.
unfoldable pub life_after : Phase → Life → Life
life_after (exited n) life = gone n
life_after _ life = life

module _ {S : Type 0} (files : ℕ → Option (List ℕ)) (size : ℕ)
    (send : List ℕ → S → S × IoResult) where
  unfoldable pub thread_step : Process S → Process S
  unfolding life_after
  thread_step p =
      let q = step files size send p.stop p.pusher in
      record p { pusher = q; life = life_after q.phase p.life }

  -- Nothing moves in a program that has ended, and the callback that waits takes no command.
  unfoldable pub move : Life → Move → Process S → Process S
  unfolding call_back join thread_step
  move alive (commands order) p = call_back order p
  move joining joins p = join p.pusher.phase p
  move alive turns p = if p.joinable then thread_step p else p
  move joining turns p = thread_step p
  move _ _ p = p

  unfoldable pub run : List Move → Process S → Process S
  unfolding move
  run [] p = p
  run (m ∷ ms) p = run ms (move p.life m p)

-- main() at the wait for commands.
abbrev pub at_start : {S : Type 0} → S → List ℕ → Process S
at_start s stack = record { stop = false; joinable = false; pusher = started s stack; life = alive }
