-- ===== src/RtspStream/Pipeline/Life.antt =====
-- The rest of `rtsp_saver` of src/rtsp_stream.c: the wait on the bus, and the end of the process.
use uav_mission_server.Prelude.{◌≡◌, refl, ◌∙◌, ap, Bool, true, false, List, [], ◌∷◌}
use uav_mission_server.RtspStream.{RtspConfig}
use uav_mission_server.RtspStream.Pipeline.{Call, Setup, exits, ready, faults, rtsp_saver}

-- A message on the bus of the pipeline.
pub data BusMessage : Type 0 where
  error_message other_message : BusMessage

-- What is released at the end.
pub data Release : Type 0 where
  unref_bus stop_pipeline unref_pipeline : Release

-- The process ends in the set-up, plays, goes wrong in the set-up, or ends behind an error, with what it has released, the
-- newest first.
pub data Life : Type 0 where
  refused playing lost : List Call → Life
  over : List Call → List Release → Life

-- `gst_bus_timed_pop_filtered` waits for an error and drops all other messages.
abbrev pub wait_error : List Call → List BusMessage → Life
wait_error done [] = playing done
wait_error done (error_message ∷ more) = over done (unref_pipeline ∷ stop_pipeline ∷ unref_bus ∷ [])
wait_error done (other_message ∷ more) = wait_error done more

abbrev pub behind_setup : Setup → List BusMessage → Life
behind_setup (exits done) bus = refused done
behind_setup (faults done) bus = lost done
behind_setup (ready done) bus = wait_error done bus

unfoldable pub saver_thread : (Call → Bool) → RtspConfig → List BusMessage → Life
saver_thread succeeds s bus = behind_setup (rtsp_saver succeeds s) bus

abbrev has_error : List BusMessage → Bool
has_error [] = false
has_error (error_message ∷ bus) = true
has_error (other_message ∷ bus) = has_error bus

plays :
    (done : List Call) (bus : List BusMessage)
    → has_error bus ≡ false
    → wait_error done bus ≡ playing done
plays done [] h = refl
plays done (error_message ∷ bus) h = cc
plays done (other_message ∷ bus) h = plays done bus h

stops :
    (done : List Call) (bus : List BusMessage)
    → has_error bus ≡ true
    → wait_error done bus ≡ over done (unref_pipeline ∷ stop_pipeline ∷ unref_bus ∷ [])
stops done [] h = cc
stops done (error_message ∷ bus) h = refl
stops done (other_message ∷ bus) h = stops done bus h

-- A camera that has come to be ready plays until the first error on its bus, whatever other messages
-- there are, and ends the process then, with the pipeline stopped before it is released.
saver_thread_plays :
    (succeeds : Call → Bool) (s : RtspConfig) (done : List Call) (bus : List BusMessage)
    → rtsp_saver succeeds s ≡ ready done
    → (has_error bus ≡ false → saver_thread succeeds s bus ≡ playing done)
      × (has_error bus ≡ true
          → saver_thread succeeds s bus
            ≡ over done (unref_pipeline ∷ stop_pipeline ∷ unref_bus ∷ []))
unfolding saver_thread
saver_thread_plays succeeds s done bus e = (
  λ h. ap (λ r. behind_setup r bus) e ∙ plays done bus h,
  λ h. ap (λ r. behind_setup r bus) e ∙ stops done bus h,
)
