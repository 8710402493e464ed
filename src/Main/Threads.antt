-- ===== src/Main/Threads.antt =====
-- The threads of a server that has started, as far as they share the first camera: the one of the server,
-- which handles what the flight controller sends, and those of GStreamer. They are interleaved as a list
-- of activities, each in one piece.
use uav_mission_server.Prelude.{
  ◌≡◌, refl, ap, ◌∙◌, List, [], ◌∷◌, Option, none, some, get_elem?, set, length,
}
use uav_mission_server.Prelude.Outcomes.{Outcome, ok, fault, ◌>>=◌}
use uav_mission_server.RtspStream.Events.{CameraEvent, at_camera, Fine, at_camera_returns}
use uav_mission_server.Device.{live}
use uav_mission_server.SiyiCamera.Operations.{Cameras, follow, or_fault}
use uav_mission_server.SiyiCamera.Operations.Closing.{Entry}
use uav_mission_server.Config.Rc.{ConfigRc}
use uav_mission_server.MavlinkPublisher.{Numbers}
use uav_mission_server.MavlinkReceiver.{Fcu, on_cameras}
use uav_mission_server.MavlinkReceiver.Rc.{Floats, Sticks}
use uav_mission_server.MavlinkReceiver.Messages.{Parser, Byte, read_mavlink_msg}
use uav_mission_server.MavlinkReceiver.Messages.Open.{camera_set-Open}
use uav_mission_server.MavlinkReceiver.Messages.Radio.{Serving}
use uav_mission_server.MavlinkReceiver.Messages.Returns.{Times, read_mavlink_msg_returns}

-- The bytes of a read, or an event at the first camera.
pub data Activity : Type 0 where
  bytes : List Byte → Activity
  stream : CameraEvent → Activity

-- An event at the data that the first camera points to.
abbrev pub stream_event : CameraEvent → Option Entry → Cameras → Outcome Cameras
stream_event e none cameras = fault
stream_event e (some d) cameras = do
  data' ← follow d.device.camera_priv
  changed ← or_fault (at_camera e data')
  ok (set cameras 0 (record d { device = record d.device { camera_priv = live changed } }))

module _ (mav : Numbers) (F : Floats) (channels : List ConfigRc) (P : Parser) where
  abbrev pub Running : Type 0
  Running = P.State × (Sticks F × Fcu)

  abbrev pub act : Activity → Running → Outcome Running
  act (bytes buf) r = read_mavlink_msg mav F channels P buf r
  act (stream e) (p, (s, fcu)) =
      on_cameras (λ cameras. stream_event e (get_elem? cameras 0) cameras) fcu >>= λ fcu'.
      ok (p, (s, fcu'))

  unfoldable pub run_threads : List Activity → Running → Outcome Running
  run_threads [] r = ok r
  run_threads (a ∷ acts) r = act a r >>= run_threads acts

  -- The clock is at most in the year 9999, and the files of images can be opened.
  abbrev pub AllFine : List Activity → Type 0
  AllFine [] = Unit {0}
  AllFine (bytes buf ∷ acts) = Times buf × AllFine acts
  AllFine (stream e ∷ acts) = Fine e × AllFine acts

  module _ (size : length channels ≡ 18) where
    stream-Serving :
        (e : CameraEvent) (p : P.State) (s : Sticks F) (fcu : Fcu)
        → Fine e
        → Serving F (s, fcu)
        → (r : Running) × (act (stream e) (p, (s, fcu)) ≡ ok r) × Serving F r.1
    stream-Serving e p s fcu fine (zoom, o) =
        let (d, done, same) = at_camera_returns e o.data' fine o.room in
        (
          (
            p,
            (
              s,
              record fcu {
                cameras =
                    set fcu.cameras 0
                      (record o.entry { device = record o.entry.device { camera_priv = live d } });
              },
            ),
          ),
          rw (o.driven.here, o.camera, done) refl,
          (zoom, camera_set-Open fcu.cameras o d same),
        )

    pub run_threads_returns :
        (acts : List Activity) (p : P.State) (s : Sticks F) (fcu : Fcu)
        → AllFine acts
        → Serving F (s, fcu)
        → (r : Running) × (run_threads acts (p, (s, fcu)) ≡ ok r) × Serving F r.1
    unfolding run_threads
    run_threads_returns [] p s fcu fine h = ((p, (s, fcu)), refl, h)
    run_threads_returns (bytes buf ∷ acts) p s fcu fine h =
        let (p', both, handled, h') =
          read_mavlink_msg_returns mav F channels size P buf p s fcu fine.0 h in
        let (r, rest, h'') = run_threads_returns acts p' both.0 both.1 fine.1 h' in
        (r, ap (λ m. m >>= run_threads acts) handled ∙ rest, h'')
    run_threads_returns (stream e ∷ acts) p s fcu fine h =
        let (t, done, h') = stream-Serving e p s fcu fine.0 h in
        let (r, rest, h'') = run_threads_returns acts t.0 t.1.0 t.1.1 fine.1 h' in
        (r, ap (λ m. m >>= run_threads acts) done ∙ rest, h'')
