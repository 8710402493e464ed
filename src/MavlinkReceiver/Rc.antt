-- ===== src/MavlinkReceiver/Rc.antt =====
-- `mav_fcu_rc_channels` of src/mavlink_receiver.c.
use uav_mission_server.Prelude.{ℕ, ◌/◌, ◌%◌, Bool, true, false, List, ◌==◌, if◌then◌else◌}
use uav_mission_server.Prelude.Int.{ℤ, pos, negsuc, ◌+ℤ◌, ◌-ℤ◌, ◌*ℤ◌, ltb_ℤ, leb_ℤ, pos_part}
use uav_mission_server.Prelude.Outcomes.{Outcome, ok, ◌>>=◌}
use uav_mission_server.Device.{
  camera_save_image, camera_change_record_state, camera_zoom, gimbal_rotate,
}
use uav_mission_server.Config.Rc.{
  ConfigRc, get_rc_config_min, get_rc_config_mid, get_rc_config_max, get_rc_config_reverse,
}
use uav_mission_server.SiyiCamera.Operations.{World}
use uav_mission_server.MavlinkPublisher.{get_video_status, set_video_status, reset_video_status}
use uav_mission_server.MavlinkReceiver.{RcChannels, Fcu, on_cameras, on_link}

-- `float`, with `INC`; what is computed in `double` on the way is part of the operations.
pub record Floats : Type 1 where
  pub Number : Type 0
  pub of_int : ℤ → Number
  pub add : Number → Number → Number
  pub sub : Number → Number → Number
  pub mul : Number → Number → Number
  pub div : Number → Number → Number
  pub neg : Number → Number
  pub abs : Number → Number
  pub lt : Number → Number → Bool
  pub inc : Number
  -- The conversion to `int16_t`.
  pub to_int16 : Number → ℤ

-- The button that changes the zoom ratio, with the ratio in tenths.
pub record Zoom : Type 0 where
  pub zoom_ratio : ℕ
  pub zoom_dir : ℤ
  pub zoom_stop : Bool

-- The static variables.
pub record Sticks (F : Floats) : Type 0 where
  pub cam_yaw : F.Number
  pub cam_pitch : F.Number
  pub button_a_last : ℕ
  pub button_snapshot_last : ℕ
  pub record_last : ℕ
  pub zooming : Zoom

abbrev pub at_rest : (F : Floats) → Sticks F
at_rest F = record {
  cam_yaw = F.of_int (pos 0);
  cam_pitch = F.of_int (pos 0);
  button_a_last = 0;
  button_snapshot_last = 0;
  record_last = 0;
  zooming = record { zoom_ratio = 10; zoom_dir = pos 0; zoom_stop = false };
}

abbrev pub bound_zoom : ℤ → ℕ
bound_zoom ratio =
    if ltb_ℤ ratio (pos 10) then 10 else if ltb_ℤ (pos 40) ratio then 40 else pos_part ratio

-- The zoom button: the new state, and whether a zoom is asked for.
unfoldable pub zoom_button : ℕ → ℤ → ℤ → Zoom → Zoom × Bool
unfolding ◌+ℤ◌ ◌*ℤ◌
zoom_button zoom rc_scroll_min rc_scroll_max z =
    if leb_ℤ (pos zoom) rc_scroll_min
    then (record z { zoom_stop = true; zoom_dir = pos 1 }, false)
    else if leb_ℤ rc_scroll_max (pos zoom)
    then (record z { zoom_stop = true; zoom_dir = negsuc 0 }, false)
    else if z.zoom_stop
    then (
      record z {
        zoom_stop = false;
        zoom_ratio = bound_zoom (pos z.zoom_ratio +ℤ z.zoom_dir *ℤ pos 5);
      },
      true,
    )
    else (z, false)

-- A last value of 0 is not set yet.
abbrev pub or_now : ℕ → ℕ → ℕ
or_now last now = if last == 0 then now else last

module _ (F : Floats) where
  -- A stick in [-100, 100].
  abbrev pub stick : ℕ → ℤ → ℤ → ℤ → Bool → F.Number
  stick raw low mid high reverse =
      let mapped : F.Number =
        F.mul (F.div (F.sub (F.of_int (pos raw)) (F.of_int mid)) (F.of_int (high -ℤ low)))
          (F.of_int (pos 200)) in
      F.mul mapped (F.of_int (if reverse then negsuc 0 else pos 1))

  abbrev pub bound_float : F.Number → F.Number → F.Number → F.Number
  bound_float val max min = if F.lt max val then max else if F.lt val min then min else val

  -- An angle goes on by `INC` while its stick is beyond half of its way.
  abbrev pub turn : F.Number → F.Number → F.Number
  turn stick' angle =
      if F.lt (F.of_int (pos 50)) (F.abs stick')
      then F.add angle
          (F.mul F.inc (F.of_int (if F.lt stick' (F.of_int (pos 0)) then negsuc 0 else pos 1)))
      else angle

  abbrev pub turn_yaw : F.Number → F.Number → F.Number
  turn_yaw stick' angle =
      bound_float (turn stick' angle) (F.of_int (pos 135)) (F.of_int (negsuc 134))

  abbrev pub turn_pitch : F.Number → F.Number → F.Number
  turn_pitch stick' angle =
      bound_float (turn stick' angle) (F.of_int (pos 25)) (F.of_int (negsuc 89))

  -- Buttons that were never read take their first value as the last one.
  abbrev pub initialized : RcChannels → Sticks F → Sticks F
  initialized rc s = record s {
    button_a_last = or_now s.button_a_last rc.chan5_raw;
    record_last = or_now s.record_last rc.chan14_raw;
    button_snapshot_last = or_now s.button_snapshot_last rc.chan13_raw;
  }

  abbrev pub click : RcChannels → Sticks F → Sticks F
  click rc s = if rc.chan5_raw == s.button_a_last then s else record s {
    button_a_last = rc.chan5_raw;
    cam_yaw = F.of_int (pos 0);
    cam_pitch = F.of_int (pos 0);
  }

  -- The sticks and the first button.
  unfoldable pub steer : ConfigRc → ConfigRc → RcChannels → Sticks F → Sticks F
  steer yaw pitch rc s =
      let i : Sticks F = initialized rc s in
      click rc (record i {
        cam_yaw = turn_yaw (stick rc.chan1_raw yaw.min yaw.mid yaw.max yaw.reverse) i.cam_yaw;
        cam_pitch =
            turn_pitch (stick rc.chan2_raw pitch.min pitch.mid pitch.max pitch.reverse) i.cam_pitch;
      })

  module _ (w : World) where
    abbrev pub Both : Type 0
    Both = Sticks F × Fcu

    unfoldable pub snapshot : RcChannels → Both → Outcome Both
    snapshot rc (s, fcu) =
        if rc.chan13_raw == s.button_snapshot_last
        then ok (s, fcu)
        else on_cameras (camera_save_image w (pos 0)) fcu >>= λ fcu'.
            ok (record s { button_snapshot_last = rc.chan13_raw }, fcu')

    -- Behind the button: the zoom is asked for if the button says so.
    abbrev pub zoomed : Zoom → Bool → Both → Outcome Both
    zoomed z false (s, fcu) = ok (record s { zooming = z }, fcu)
    zoomed z true (s, fcu) =
        on_cameras (camera_zoom w (pos 0) (z.zoom_ratio / 10) (z.zoom_ratio % 10)) fcu >>= λ fcu'.
        ok (record s { zooming = z }, fcu')

    unfoldable pub scroll : ℤ → ℤ → RcChannels → Both → Outcome Both
    unfolding zoom_button
    scroll rc_scroll_min rc_scroll_max rc (s, fcu) =
        let (z, asks) = zoom_button rc.chan9_raw rc_scroll_min rc_scroll_max s.zooming in
        zoomed z asks (s, fcu)

    abbrev pub toggle_status : Fcu → Fcu
    toggle_status fcu =
        if get_video_status fcu.link
        then on_link reset_video_status fcu
        else on_link set_video_status fcu

    unfoldable pub record_button : RcChannels → Both → Outcome Both
    record_button rc (s, fcu) =
        if rc.chan14_raw == s.record_last
        then ok (s, fcu)
        else on_cameras (camera_change_record_state w (pos 0)) fcu >>= λ fcu'.
            ok (record s { record_last = rc.chan14_raw }, toggle_status fcu')

    -- `(int16_t) (cam_yaw * 10)` and the same of the pitch.
    abbrev pub tenths : F.Number → ℤ
    tenths angle = F.to_int16 (F.mul angle (F.of_int (pos 10)))

    unfoldable pub send_angles : Both → Outcome Both
    send_angles (s, fcu) =
        on_cameras (gimbal_rotate w (pos 0) (tenths s.cam_yaw) (tenths s.cam_pitch)) fcu >>= λ fcu'.
        ok (s, fcu')

    -- The four fields of a channel, each by its getter.
    abbrev pub axis : ℤ → List ConfigRc → Outcome ConfigRc
    axis rc_channel channels = do
      low ← get_rc_config_min rc_channel channels
      middle ← get_rc_config_mid rc_channel channels
      high ← get_rc_config_max rc_channel channels
      reversed ← get_rc_config_reverse rc_channel channels
      ok (record { min = low; mid = middle; max = high; reverse = reversed })

    unfoldable pub mav_fcu_rc_channels : List ConfigRc → RcChannels → Both → Outcome Both
    unfolding steer snapshot scroll record_button send_angles
    mav_fcu_rc_channels channels rc (s, fcu) = do
      yaw ← axis (pos 1) channels
      pitch ← axis (pos 2) channels
      rc_scroll_min ← get_rc_config_min (pos 9) channels
      rc_scroll_max ← get_rc_config_max (pos 9) channels
      shot ← snapshot rc (steer yaw pitch rc s, fcu)
      scrolled ← scroll rc_scroll_min rc_scroll_max rc shot
      recorded ← record_button rc scrolled
      send_angles recorded
