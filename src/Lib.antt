-- ===== src/Lib.antt =====
-- UAV mission server: a model of the server that runs on the companion computer of a drone, between
-- the serial port of the flight controller, clients on TCP, cameras and their gimbals.
--
-- The parts of the program, the files that model them, and how they interact:
-- * Crc16 is src/crc16.c: the table and the loop of `crc16_calculate`; Crc16/Reference is the
--   polynomial division that it stands for.
-- * SiyiCamera is src/siyi_camera.c: the messages to the camera, packed byte by byte and closed with
--   the CRC of Crc16. SiyiCamera/Receiver describes the receiver, independently of the code;
--   SiyiCamera/Operations is the driver, `siyi_cam_ops`.
-- * RtspStream is src/rtsp_stream.c: recording and images (`rtsp_change_record_state`, `eos_handler`,
--   `on_new_sample_handler`), Events what the threads of GStreamer do, Timestamp the names of files,
--   Pipeline the thread `rtsp_saver`: its set-up, and its life behind it.
-- * Device is src/device.c: the array of devices and the dispatch to a driver.
-- * Serial is src/serial.c: `serial_open` with the flags of termios, `serial_write`.
-- * UartServer is src/uart_server.c: Port the command line, Startup what `run_uart_server` does until
--   it waits, State the globals, Clients the handlers (`accept_client`, `terminate_client`,
--   `send_data_to_clients`, `handle_commanding_client`), Command the FIFO between `run_commander` of
--   src/main.c and `read_user_cmd`, Loop the rounds of `poll` in `run_uart_server` and its shutdown,
--   Text the texts for the log.
-- * MavlinkPublisher is src/mavlink_publisher.c: messages, tunes, `video_status`; Scheduler is the
--   thread of the heartbeats, `mavlink_tx_thread`.
-- * MavlinkReceiver is src/mavlink_receiver.c: the radio channels (Rc), which drive the gimbal, the
--   zoom, images and recording through Device, and the commands of the ground station; Messages the
--   way from the bytes to a handler (`read_mavlink_msg`, `parse_mavlink_msg`), and the wait of
--   `run_uart_server` for the flight controller.
-- * Config is src/config.c: Yaml the loop over the events of a file, SerialPort what `serial_open`
--   gets, Rc the radio channels that MavlinkReceiver reads, Cameras the devices and their set-up
--   through Device and SiyiCamera.
-- * System is src/system.c, the file with the number of the process, with `send_signal` and
--   `sig_handler` of src/uart_server.c, which use it.
-- * Main is src/main.c: the options, then the files of Config, then the server with what they gave.
--   Main/Received joins Loop to Messages: `send_data_to_clients` calls `read_mavlink_msg`; Main/Threads
--   interleaves the reads with what the threads of GStreamer do at the first camera.
-- * Prelude holds what the modules share: names of the libraries, Boolean tests, lists over native
--   numbers, integers, the bit operations, C strings and decimal numbers, and results that may fail
--   or end the process.
--
-- How C is modelled. State is a record that each operation takes and gives back. Static variables of
-- a function are part of it. Unsigned arithmetic wraps at its width (`% 2 ^ w`); an `int` is the
-- integer it stands for where it cannot overflow, and a word in memory where its bytes matter. The one
-- `int` that may overflow, `g_last_id`, is counted without a bound: it goes up by at most one in a round
-- of the main loop (UartServer/Loop/Ids), so that 2^31 rounds come first. A read or write outside an
-- object, and a NULL, dangling or unset pointer that is followed, is `none` or `fault`, and `exit` is
-- `exited`, so that a theorem that a result is given excludes them; a `char *` of a configuration that
-- nothing has set is `none`. Results of system calls and of libraries (sockets, termios, GStreamer, the
-- YAML parser, `getopt_long`, the generated MAVLink code, `float`) are arguments; a contract that is
-- relied on is a hypothesis with a name (`Honest` for `send` and `write`, `Ordered` for comparisons of
-- small whole `float` numbers, `Converts` for a conversion to `int16_t`). Effects are kept in logs, the
-- newest first.
--
-- Loops and bounds. `send_loop` has as many rounds as there are clients when it starts, which is
-- enough since each round serves one or drops it; loops over `send` and `write` consume the results
-- of the calls, one for each byte being enough; `shut_down` has a round for each client; `digits` has
-- ten digits, as many as an `int`. `poll` may report any events at any round, also for a socket that
-- is no longer polled, and the events of the threads of GStreamer come in any order, each handled in
-- one piece.
--
-- The bytes of the flight controller are read to their end by recursion on them; the wait for the
-- connection and the thread of the heartbeats, which may run for ever, are functions of the reads and
-- of the turns that have come, for every number of them. A turn of that thread is one piece, with
-- anything that other threads do between two turns.
--
-- Not modelled: what only prints (`status`, `error`, `help`); `getopt_long`; the making of threads, and
-- mutexes; the Makefile and the scripts.
pub mod Config
pub mod Crc16
pub mod Device
pub mod Main
pub mod MavlinkPublisher
pub mod MavlinkReceiver
pub mod Prelude
pub mod RtspStream
pub mod Serial
pub mod SiyiCamera
pub mod System
pub mod UartServer
