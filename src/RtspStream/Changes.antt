-- ===== src/RtspStream/Changes.antt =====
-- `rtsp_change_record_state` returns: the texts fit, and the path has a value.
use uav_mission_server.Prelude.{
  ℕ, ◌+◌, ◌≤◌, ◌≡◌, refl, inl, inr, arith, Bool-cases, true, not, List, ◌∷◌, ◌++◌, some, length,
  length-append, codes, ltb, lt→ltb,
}
use uav_mission_server.RtspStream.Timestamp.{Tm, IsTime, generate_timestamp_fits}
use uav_mission_server.RtspStream.{
  GstData, file_name, path_max, rtsp_change_record_state, stop_recording, osel_src1, restarted,
}

-- There is a path, and it leaves room for the name of a video and the NUL.
abbrev pub Room : GstData → Type 0
Room d = (path : List ℕ) × (d.rtsp_config.save_path ≡ some path) × (length path + 20 ≤ path_max)

name_fits :
    (save_path timestamp : List ℕ)
    → length save_path + 20 ≤ path_max
    → length timestamp ≡ 14
    → ltb (length (file_name save_path timestamp ".mp4")) path_max ≡ true
name_fits save_path timestamp room size = lt→ltb _ path_max (
    omega (
      arith,
      length-append (save_path ++ codes "/" ++ timestamp) (codes ".mp4"),
      length-append (save_path ++ codes "/") timestamp,
      length-append save_path (codes "/"),
    ))

started : GstData → List ℕ → GstData
started d name = record d {
  mp4_file_name = name;
  location = name;
  active_pad = osel_src1;
  log = restarted name ∷ d.log;
  recording = not d.recording;
}

-- A change of the recording, in a year of four digits.
pub record_returns :
    (now : Tm) (d : GstData)
    → IsTime now
    → Room d
    → (d' : GstData) × (rtsp_change_record_state now d ≡ some d') × (d'.rtsp_config ≡ d.rtsp_config)
unfolding rtsp_change_record_state started
record_returns now d time room = elim (Bool-cases d.camera_ready) [
  | inr not_ready ↦ (d, rw not_ready refl, refl)
  | inl ready ↦ elim (Bool-cases d.busy) [
    | inl busy ↦ (d, rw (ready, busy) refl, refl)
    | inr idle ↦ elim (Bool-cases d.recording) [
      | inl on ↦ (stop_recording d, rw (ready, idle, on) refl, refl)
      | inr off ↦
          (let (timestamp, given, size) = generate_timestamp_fits now time in
            (
              started d (file_name room.0 timestamp ".mp4"),
              rw (ready, idle, off, given, room.1)
                  (rw (name_fits room.0 timestamp room.2 size) refl),
              refl,
            ))
    ]
  ]
]
