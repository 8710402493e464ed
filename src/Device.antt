-- ===== src/Device.antt =====
-- src/device.c: the cameras by number, and the dispatch to the operations that a driver registers.
pub mod Absent
pub mod Drivers
pub mod Reached
pub mod Requests
use uav_mission_server.Prelude.{
  ℕ, zero, suc, ◌+◌, Bool, true, false, not, ◌||◌, List, [], ◌∷◌, Option, none, some, length,
  get_elem?, set, replicate, ltb, if◌then◌else◌,
}
use uav_mission_server.Prelude.Int.{ℤ, pos, negsuc, ltb_ℤ, leb_ℤ}
use uav_mission_server.Prelude.Outcomes.{Outcome, ok, exited, fault, ◌>>=◌}

abbrev pub camera_num_max : ℕ
camera_num_max = 6

-- A pointer to memory of its own: `freed` is not NULL, and must not be followed.
pub data Pointer (A : Type 0) : Type 0 where
  null : Pointer A
  live : A → Pointer A
  freed : Pointer A

abbrev pub is_set : {A : Type 0} → Pointer A → Bool
is_set null = false
is_set (live a) = true
is_set freed = true

-- The part of `struct camera_dev` that a driver works on. `P` and `G` are what the drivers keep of a
-- camera and a gimbal.
pub record Device (P G : Type 0) : Type 0 where
  pub id : ℤ
  pub camera_priv : Pointer P
  pub gimbal_priv : Pointer G

-- An operation, NULL if it is missing. `W` is what the system gives to an operation: the time, and
-- results of system calls.
abbrev pub Operation : Type 0 → Type 0 → Type 0 → Type 0
Operation W P G = Option (W → Device P G → Outcome (Device P G))

-- `C` and `D` are the arguments that a camera and a gimbal are opened with.
pub record CameraOperations (W P G C D : Type 0) : Type 0 where
  pub camera_open : C → Operation W P G
  pub camera_close : Operation W P G
  pub camera_save_image : Operation W P G
  pub camera_change_record_state : Operation W P G
  pub camera_zoom : ℕ → ℕ → Operation W P G
  pub gimbal_open : D → Operation W P G
  pub gimbal_close : Operation W P G
  pub gimbal_centering : Operation W P G
  pub gimbal_rotate : ℤ → ℤ → Operation W P G

pub record CameraDev (W P G C D : Type 0) : Type 0 where
  pub device : Device P G
  pub camera_ops : Option (CameraOperations W P G C D)

abbrev pub device_present : {P G : Type 0} → Device P G → Bool
device_present d = is_set d.camera_priv || is_set d.gimbal_priv

-- A call that works on the array.
abbrev pub Call : Type 0 → Type 0 → Type 0 → Type 0 → Type 0 → Type 0
Call W P G C D = List (CameraDev W P G C D) → Outcome (List (CameraDev W P G C D))

module _ {W P G C D : Type 0} where
  -- The static array before any camera is registered.
  abbrev pub no_devices : List (CameraDev W P G C D)
  no_devices = replicate camera_num_max (record {
    device = record { id = pos 0; camera_priv = null; gimbal_priv = null };
    camera_ops = none;
  })

  abbrev pub entry : ℤ → List (CameraDev W P G C D) → Option (CameraDev W P G C D)
  entry (negsuc n) devs = none
  entry (pos n) devs = get_elem? devs n

  abbrev pub store :
      ℤ → CameraDev W P G C D → List (CameraDev W P G C D) → List (CameraDev W P G C D)
  store (negsuc n) d devs = devs
  store (pos n) d devs = set devs n d

  abbrev pub register_entry :
      ℤ
      → CameraOperations W P G C D
      → List (CameraDev W P G C D)
      → Option (CameraDev W P G C D)
      → Outcome (List (CameraDev W P G C D))
  register_entry id ops devs none = fault
  register_entry id ops devs (some d) =
      ok (store id (record { device = record d.device { id = id }; camera_ops = some ops }) devs)

  unfoldable pub register_camera : ℤ → CameraOperations W P G C D → Call W P G C D
  register_camera id ops devs =
      if ltb_ℤ id (pos 0) || leb_ℤ (pos camera_num_max) id
      then exited
      else register_entry id ops devs (entry id devs)

  -- A call of an operation of a camera, if it has it.
  abbrev pub run_operation : Operation W P G → W → ℤ → CameraDev W P G C D → Call W P G C D
  run_operation none w id d devs = ok devs
  run_operation (some f) w id d devs =
      f w d.device >>= λ device'. ok (store id (record d { device = device' }) devs)

  -- Through `camera_ops`, which may be NULL.
  abbrev pub through :
      (CameraOperations W P G C D → Operation W P G)
      → Option (CameraOperations W P G C D)
      → W
      → ℤ
      → CameraDev W P G C D
      → Call W P G C D
  through operation none w id d devs = fault
  through operation (some ops) w id d devs = run_operation (operation ops) w id d devs

  abbrev pub open_entry :
      (CameraOperations W P G C D → Operation W P G)
      → Option (CameraDev W P G C D)
      → W
      → ℤ
      → Call W P G C D
  open_entry operation none w id devs = fault
  open_entry operation (some d) w id devs = through operation d.camera_ops w id d devs

  abbrev pub present_entry :
      (CameraOperations W P G C D → Operation W P G)
      → Option (CameraDev W P G C D)
      → W
      → ℤ
      → Call W P G C D
  present_entry operation none w id devs = fault
  present_entry operation (some d) w id devs =
      if device_present d.device then through operation d.camera_ops w id d devs else ok devs

  -- How the functions that open a device go on, and the others, which do nothing at a camera with
  -- neither part.
  unfoldable pub open_with : (CameraOperations W P G C D → Operation W P G) → W → ℤ → Call W P G C D
  open_with operation w id devs = open_entry operation (entry id devs) w id devs

  unfoldable pub dispatch : (CameraOperations W P G C D → Operation W P G) → W → ℤ → Call W P G C D
  dispatch operation w id devs = present_entry operation (entry id devs) w id devs

  pub camera_open : W → ℤ → C → Call W P G C D
  unfolding open_with
  camera_open w id args = open_with (λ ops. ops.camera_open args) w id

  pub camera_close : W → ℤ → Call W P G C D
  unfolding dispatch
  camera_close w id = dispatch (λ ops. ops.camera_close) w id

  pub camera_save_image : W → ℤ → Call W P G C D
  unfolding dispatch
  camera_save_image w id = dispatch (λ ops. ops.camera_save_image) w id

  pub camera_change_record_state : W → ℤ → Call W P G C D
  unfolding dispatch
  camera_change_record_state w id = dispatch (λ ops. ops.camera_change_record_state) w id

  pub camera_zoom : W → ℤ → ℕ → ℕ → Call W P G C D
  unfolding dispatch
  camera_zoom w id zoom_integer zoom_decimal =
      dispatch (λ ops. ops.camera_zoom zoom_integer zoom_decimal) w id

  pub gimbal_open : W → ℤ → D → Call W P G C D
  unfolding open_with
  gimbal_open w id args = open_with (λ ops. ops.gimbal_open args) w id

  pub gimbal_close : W → ℤ → Call W P G C D
  unfolding dispatch
  gimbal_close w id = dispatch (λ ops. ops.gimbal_close) w id

  pub gimbal_centering : W → ℤ → Call W P G C D
  unfolding dispatch
  gimbal_centering w id = dispatch (λ ops. ops.gimbal_centering) w id

  pub gimbal_rotate : W → ℤ → ℤ → ℤ → Call W P G C D
  unfolding dispatch
  gimbal_rotate w id yaw pitch = dispatch (λ ops. ops.gimbal_rotate yaw pitch) w id
