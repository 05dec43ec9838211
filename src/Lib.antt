-- ===== src/Lib.antt =====
-- The libvhal client library, and the host camera server on top of it.
--
-- A program on the host talks to the Android HALs of a guest through this library. Four interfaces
-- share the plan: a stream socket client (UNIX, VSOCK or TCP), and a talker thread that connects it,
-- polls it, reads fixed-size messages and calls back. The input and GPS receivers stand apart: the
-- first writes input events to a pipe, the second has a socket and a work thread of its own.
--
-- Files, with the code that they model:
--   Base          shared: Boolean tests, lists and integers over the native numbers, 32-bit words.
--   Input         source/virtual_input_receiver.cc with include/libvhal/virtual_input_receiver.h and
--                 input_receiver.h. Device has the state (Receiver) and SendEvent, SendCommit and
--                 SendWait; Touch has SendDown, SendUp, SendMove, SendReset and getTouchInfo; Scan has
--                 sscanf, find and substr as the code uses them; Command has ProcessOneCommand and
--                 onInputMessage; Joystick has ProcessOneJoystickCommand and onJoystickMessage; Keys
--                 has onKeyCode. Reader is the program at the other end of the pipe, and Touch/Mirror
--                 what it makes of the contacts. Sample is
--                 host_camera_service/virtual_input_receiver_sample.cc, run against the receiver.
--   Net           source/{unix,vsock,tcp}_stream_socket_client_impl.h and the .cc files beside them.
--                 Kernel has the system calls; Client has what the three clients do alike, and
--                 IStreamSocketClient as the record StreamClient; Unix, Vsock and Tcp are the clients,
--                 and Tcp/Stream fills the record for TCP, whose Recv needs no fuel there. Paths
--                 has the socket paths that the constructors of VideoSink and SensorInterface make.
--                 Older is UnixSocket of tmp/unix_socket_impl.h, which the library does not use.
--                 Reliable has connections that take all that they are given.
--   Talker        the loop in the Impl constructors of source/video_sink_impl.h,
--                 source/sensor_interface_impl.h and source/audio_{source,sink}_impl.h.
--   Video         source/video_sink_impl.h and include/libvhal/video_sink.h: Wire has the messages as
--                 bytes, Sink the handlers and the Send functions, Waiting the callers that wait for an
--                 answer, Reset the wait for a connection, Start the constructors of
--                 source/video_sink.cc.
--   Sensor        source/sensor_interface_impl.h and include/libvhal/sensor_interface.h; Start has the
--                 constructor of source/sensor_interface.cc.
--   Audio         source/audio_source_impl.h and source/audio_sink_impl.h: Stream has both classes;
--                 Formats has audio_bytes_per_sample of include/libvhal/android_audio_core.h;
--                 OverTcp has the constructors of source/audio_{source,sink}.cc and the thread over a
--                 TCP client.
--   Gps           source/virtual_gps_receiver.cc: Receiver has the connection, Write and Read; Worker
--                 has workThreadProc and the destructor; Sharing has mSockGps between two threads.
--                 host_camera_service/virtual_gps_receiver_sample.cc is Sample, with do_geo_fix,
--                 do_geo_nmea, the walk of the position and the prompt, and Injection, with
--                 cmd_handler and the thread.
--   Camera        host_camera_service/host_camera_server.cc: Convert has yuyv422_to_yuv420sp; Server has
--                 the callback of main() and the capture thread, step by step; Search the searches for
--                 a device; Opening open_camera; Capture what the capture thread sends for a frame;
--                 Negotiation the thread InitCamera beside the talker thread.
--   Clients       the other programs of host_camera_service. Pushing is the thread that sends a file,
--                 of camera_client.cc and audio_record_client.cc; Process their callback beside it;
--                 Programs the two with their library calls. Framed is camera_socket_client.cc. Reading
--                 is a peer that reads packets behind heads, which Framed/Frames and Pushing/Stream use
--                 for the two protocols. Sensors is sensor_client.cc; Playback is
--                 audio_playback_client.cc.
-- The Examples modules hold concrete inputs.
--
-- Conventions. State is a record that the operations take and give back. A system call takes its
-- result from a table (Kernel, GpsKernel, Platform) at the number of calls made so far, so that a
-- theorem about any table is about any behaviour of the system, and is entered in a log, newest
-- first. What the theorems need of the system is a named hypothesis: RecvFits, WriteFits and
-- ReadFits (a call moves no more bytes than it is asked to), IsKeyDistinct (EV_KEY is neither
-- EV_SYN nor EV_ABS), IsMtDistinct (the codes of the multi-touch events differ), PrintsShort
-- ("%.1g" takes at most seven characters), Reliable (send() takes all that it is given), Opens (the
-- camera opens and its buffers are given), Creates (pthread_create does not fail) and all_written
-- (no write to the input pipe fails). A
-- double is a record of the operations that the code uses (Doubles). Threads that share variables
-- are a step function on one state and a list of moves: any order of the moves between the points
-- where the threads meet is an interleaving, and what must not happen is written down in the state
-- (Fault, Misuse). IsCalm leaves out the moves in which pthread_cond_wait returns without a
-- signal. Results are values: IoResult for the tuples, Outcome for std::system_error. A uint8_t,
-- uint16_t or uint32_t wraps by u8, u16 and u32; an int32_t is an integer or its bit pattern. A
-- byte buffer is a list of numbers, little-endian where a struct is copied. A file of the client
-- programs is the list of its bytes, or for each opening what is found there.
--
-- Fuel. onInputMessage and onJoystickMessage take one unit for each character of the message and
-- one more: each round goes on behind a newline. Recv of the TCP client takes one for each byte and
-- one more: each round reads one byte at least. Write and Read of the GPS receiver take one for
-- each byte and 101 more: a round moves a byte, uses up one of the 100 attempts, or ends. A number
-- is printed with at most ten digits, which is enough for an int. The tokens of do_geo_fix need no
-- fuel: the array has five entries.
--
-- Not modelled: console output and logging; the sleeps; memory behind the buffers, except where a
-- theorem is about it; dumpFrame of host_camera_service/host_camera_server.cc, which nothing calls,
-- and its main loop, which waits for ever; the checks of the arguments in the client programs;
-- host_camera_service/camera_client_app_template.cc, which is pseudo-code; the tests and the
-- headers under tmp that the library does not use.
pub mod Audio
pub mod Base
pub mod Camera
pub mod Clients
pub mod Gps
pub mod Input
pub mod Net
pub mod Sensor
pub mod Talker
pub mod Video
