-- ===== src/MavlinkReceiver/Zoom.antt =====
-- The zoom button of the radio, and the angles of the gimbal.
use uav_mission_server.Prelude.{
  ℕ, ◌+◌, ◌/◌, ◌%◌, ◌≤◌, ◌≡◌, refl, sym, ap, ◌∙◌, arith, true, false, List, [], ◌∷◌, if◌then◌else◌,
  ltb,
}
use uav_mission_server.Prelude.Int.{ℤ, pos, ◌+ℤ◌, ◌*ℤ◌, ◌<ℤ◌, ◌≤ℤ◌}
use uav_mission_server.MavlinkReceiver.Rc.{Zoom, zoom_button}

abbrev pub Bounded : Zoom → Type 0
Bounded z = (10 ≤ z.zoom_ratio) × (z.zoom_ratio ≤ 40)

pub zoom_button-Bounded :
    (zoom : ℕ) (low high : ℤ) (z : Zoom) → Bounded z → Bounded (zoom_button zoom low high z).0
unfolding zoom_button
zoom_button-Bounded zoom low high z h = ground arith

-- The button over readings, each with the range that the configuration gives.
abbrev pub readings : List (ℕ × ℤ × ℤ) → Zoom → Zoom
readings [] z = z
readings ((zoom, low, high) ∷ more) z = readings more (zoom_button zoom low high z).0

-- Whatever the readings of the button are, the ratio stays between 1.0 and 4.0, so that the parts that
-- a request for it has are an integer from 1 to 4 and a digit, which the camera accepts.
pub readings-Bounded :
    (rs : List (ℕ × ℤ × ℤ)) (z : Zoom)
    → Bounded z
    → Bounded (readings rs z)
      × (1 ≤ (readings rs z).zoom_ratio / 10)
      × ((readings rs z).zoom_ratio / 10 ≤ 4)
      × ((readings rs z).zoom_ratio % 10 ≤ 9)
readings-Bounded [] z h = (h, omega arith, omega arith, omega arith)
readings-Bounded ((zoom, low, high) ∷ more) z h =
    readings-Bounded more (zoom_button zoom low high z).0 (zoom_button-Bounded zoom low high z h)

-- Held for any number of readings, all at the lower end of the range.
abbrev pub Held : ℤ → ℤ → List ℕ → Type 0
Held low high [] = Unit {0}
Held low high (zoom ∷ more) = (pos zoom ≤ℤ low) × Held low high more

abbrev pub holding : ℤ → ℤ → List ℕ → Zoom → Zoom
holding low high [] z = z
holding low high (zoom ∷ more) z = holding low high more (zoom_button zoom low high z).0

press :
    (zoom : ℕ) (low high : ℤ) (z : Zoom)
    → pos zoom ≤ℤ low
    → zoom_button zoom low high z ≡ (record z { zoom_stop = true; zoom_dir = pos 1 }, false)
unfolding zoom_button
press zoom low high z h = ground arith

hold :
    (low high : ℤ) (zooms : List ℕ) (z : Zoom)
    → Held low high zooms
    → z.zoom_stop ≡ true
    → z.zoom_dir ≡ pos 1
    → holding low high zooms z ≡ z
hold low high [] z h stopped up = refl
hold low high (zoom ∷ more) z h stopped up =
    ap (λ p. holding low high more p.0) (press zoom low high z h.0)
    ∙ ap (holding low high more) same
    ∙ hold low high more z h.1 stopped up
  where
    same : record z { zoom_stop = true; zoom_dir = pos 1 } ≡ z
    same = ground arith

abbrev pub one_up : ℕ → ℕ
one_up ratio = if ltb 35 ratio then 40 else ratio + 5

release :
    (zoom : ℕ) (low high : ℤ) (z : Zoom)
    → low <ℤ pos zoom
    → pos zoom <ℤ high
    → z.zoom_stop ≡ true
    → z.zoom_dir ≡ pos 1
    → Bounded z
    → zoom_button zoom low high z
      ≡ (record z { zoom_stop = false; zoom_ratio = one_up z.zoom_ratio }, true)
unfolding zoom_button ◌+ℤ◌ ◌*ℤ◌
release zoom low high z l h stopped up bounded = rw (up, stopped) (ground arith)

rest :
    (zoom : ℕ) (low high : ℤ) (z : Zoom)
    → low <ℤ pos zoom
    → pos zoom <ℤ high
    → z.zoom_stop ≡ false
    → zoom_button zoom low high z ≡ (z, false)
unfolding zoom_button
rest zoom low high z l h going = ground arith

-- However long the button is held at its lower end, nothing is asked for; when it is let go, exactly
-- one zoom by 0.5 is asked for, up to 4.0, and no other while it rests.
pub hold_and_release :
    (low high : ℤ) (zoom : ℕ) (zooms : List ℕ) (middle later : ℕ) (z : Zoom)
    → Bounded z
    → pos zoom ≤ℤ low
    → Held low high zooms
    → (low <ℤ pos middle) × (pos middle <ℤ high)
    → (low <ℤ pos later) × (pos later <ℤ high)
    → let held = holding low high (zoom ∷ zooms) z in
      let released = zoom_button middle low high held in
      ((zoom_button zoom low high z).1 ≡ false)
      × (held.zoom_ratio ≡ z.zoom_ratio)
      × (released.1 ≡ true)
      × (released.0.zoom_ratio ≡ one_up z.zoom_ratio)
      × (zoom_button later low high released.0 ≡ (released.0, false))
hold_and_release low high zoom zooms middle later z bounded h hs m l =
    let down : Zoom = record z { zoom_stop = true; zoom_dir = pos 1 } in
    let up : Zoom = record down { zoom_stop = false; zoom_ratio = one_up z.zoom_ratio } in
    let held : holding low high (zoom ∷ zooms) z ≡ down =
      ap (λ p. holding low high zooms p.0) (press zoom low high z h)
      ∙ hold low high zooms down hs refl refl in
    let released : zoom_button middle low high (holding low high (zoom ∷ zooms) z) ≡ (up, true) =
      ap (zoom_button middle low high) held
      ∙ release middle low high down m.0 m.1 refl refl bounded in
    (
      ap (λ p. p.1) (press zoom low high z h),
      ap (λ y. y.zoom_ratio) held,
      ap (λ p. p.1) released,
      ap (λ p. p.0.zoom_ratio) released,
      ap (λ p. zoom_button later low high p.0) released
          ∙ rest later low high up l.0 l.1 refl
          ∙ ap (λ p. (p.0, false)) (sym released),
    )
