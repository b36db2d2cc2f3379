-- ===== src/Render/Input/Camera.antt =====
-- client/src/VulkanRenderer.cpp: the camera stays within its tilt and its distance.
use game_x.Base.{◌≡◌, refl, Bool, true, false, List, [], ◌∷◌, Bool-cases, inl, inr, ◌⊎◌, arith}
use game_x.Float.{Float, Fpu, is_nan, is_finite, is_null, negate}
use game_x.Render.Input.{
  KeyAction, press, release, repeat, Mouse, Doubles, lt, clamp, min_pitch, max_pitch, min_distance,
  max_distance, mouse_sensitivity, scroll_zoom_step, handle_mouse_button, handle_cursor_pos,
  handle_scroll,
}

-- What the camera relies on of float arithmetic: numbers are ordered, and what lies between two
-- finite ones is finite; a product with a finite factor other than zero, and a sum with a finite
-- summand, is NaN only where the other operand is.
pub record IsOrdered (fpu : Fpu) : Type 0 where
  pub le_total :
      (a b : Float)
      → is_nan a ≡ false
      → is_nan b ≡ false
      → (fpu.le a b ≡ true) ⊎ (fpu.le b a ≡ true)
  pub le_between :
      (lo v hi : Float)
      → is_finite lo ≡ true
      → is_finite hi ≡ true
      → fpu.le lo v ≡ true
      → fpu.le v hi ≡ true
      → is_finite v ≡ true
  pub mul_number :
      (a b : Float)
      → is_nan a ≡ false
      → is_finite b ≡ true
      → is_null b ≡ false
      → is_nan (fpu.mul a b) ≡ false
  pub add_number :
      (a b : Float) → is_finite a ≡ true → is_nan b ≡ false → is_nan (fpu.add a b) ≡ false
  pub pitch : fpu.le min_pitch max_pitch ≡ true
  pub distance : fpu.le min_distance max_distance ≡ true

-- The positions and offsets that GLFW reports are numbers, and so are their differences.
pub record AreNumbers (doubles : Doubles) : Type 0 where
  pub difference : (a b : doubles.Double) → is_nan (doubles.narrow_difference a b) ≡ false
  pub cast : (a : doubles.Double) → is_nan (doubles.narrow a) ≡ false

-- At the lower limit or above, and at the upper one or below; NaN is neither.
abbrev pub Within : Fpu → Float → Float → Float → Type 0
Within fpu lo hi v = (fpu.le lo v ≡ true) × (fpu.le v hi ≡ true)

finite-not_nan : (a : Float) → is_finite a ≡ true → is_nan a ≡ false
unfolding is_finite is_nan
finite-not_nan a h = ground arith

negate-not_nan : (a : Float) → is_nan a ≡ false → is_nan (negate a) ≡ false
unfolding negate is_nan
negate-not_nan a h = ground arith

module _ (fpu : Fpu) (laws : IsOrdered fpu) where
  le_refl : (a : Float) → is_nan a ≡ false → fpu.le a a ≡ true
  le_refl a h = elim (laws.le_total a a h h) [ inl e ↦ e | inr e ↦ e ]

  -- Of two numbers of which one is not less, the other is at most it.
  not_lt-le :
      (a b : Float) → is_nan a ≡ false → is_nan b ≡ false → lt fpu a b ≡ false → fpu.le b a ≡ true
  not_lt-le a b ha hb h = elim (laws.le_total b a hb ha) [ inl e ↦ e | inr e ↦ ground arith ]

  clamp-Within :
      (v lo hi : Float)
      → is_nan v ≡ false
      → is_finite lo ≡ true
      → is_finite hi ≡ true
      → fpu.le lo hi ≡ true
      → Within fpu lo hi (clamp fpu v lo hi)
  unfolding clamp
  clamp-Within v lo hi number lo_fin hi_fin ordered =
      let lo_number = finite-not_nan lo lo_fin in
      let hi_number = finite-not_nan hi hi_fin in
      elim (Bool-cases (lt fpu v lo)) [
        | inl below ↦ rw below (le_refl lo lo_number, ordered)
        | inr not_below ↦ elim (Bool-cases (lt fpu hi v)) [
          | inl above ↦ rw (not_below, above) (ordered, le_refl hi hi_number)
          | inr not_above ↦
              rw (not_below, not_above)
                (
                  not_lt-le v lo number lo_number not_below,
                  not_lt-le hi v hi_number number not_above,
                )
        ]
      ]

module _ (fpu : Fpu) (doubles : Doubles) where
  open doubles use {Double}

  pub record IsWithin (m : Mouse Double) : Type 0 where
    pub pitch : Within fpu min_pitch max_pitch m.camera_pitch_
    pub distance : Within fpu min_distance max_distance m.camera_distance_

  -- What the callbacks of the mouse are called with.
  pub data MouseEvent : Type 0 where
    button : Bool → KeyAction → Double → Double → MouseEvent
    cursor_moved : Double → Double → MouseEvent
    scrolled : Double → Double → MouseEvent

  unfoldable pub handle : MouseEvent → Mouse Double → Mouse Double
  unfolding handle_mouse_button handle_cursor_pos handle_scroll
  handle (button right action x y) m = handle_mouse_button fpu doubles right action x y m
  handle (cursor_moved x y) m = handle_cursor_pos fpu doubles x y m
  handle (scrolled x y) m = handle_scroll fpu doubles x y m

  unfoldable pub handle_all : List MouseEvent → Mouse Double → Mouse Double
  unfolding handle
  handle_all [] m = m
  handle_all (e ∷ es) m = handle_all es (handle e m)

  module _ (laws : IsOrdered fpu) (numbers : AreNumbers doubles) where
    -- A step of the tilt or of the distance from within the limits is a number.
    step-not_nan :
        (lo hi v d scale : Float)
        → is_finite lo ≡ true
        → is_finite hi ≡ true
        → Within fpu lo hi v
        → is_nan d ≡ false
        → is_finite scale ≡ true
        → is_null scale ≡ false
        → (is_nan (fpu.add v (fpu.mul d scale)) ≡ false)
          × (is_nan (fpu.add v (negate (fpu.mul d scale))) ≡ false)
    step-not_nan lo hi v d scale lo_fin hi_fin (above, below) number scale_fin scale_null =
        let product = laws.mul_number d scale number scale_fin scale_null in
        let finite = laws.le_between lo v hi lo_fin hi_fin above below in
        (
          laws.add_number v (fpu.mul d scale) finite product,
          laws.add_number v (negate (fpu.mul d scale)) finite
              (negate-not_nan (fpu.mul d scale) product),
        )

    handle-IsWithin : (e : MouseEvent) (m : Mouse Double) → IsWithin m → IsWithin (handle e m)
    unfolding handle is_finite is_null
    handle-IsWithin (button false a x y) m w = w
    handle-IsWithin (button true press x y) m w = record { pitch = w.pitch; distance = w.distance }
    handle-IsWithin (button true release x y) m w = record {
      pitch = w.pitch;
      distance = w.distance;
    }
    handle-IsWithin (button true repeat x y) m w = w
    handle-IsWithin (cursor_moved x y) m w = elim (Bool-cases m.is_right_mouse_down_) [
      | inl down ↦
          let delta = doubles.narrow_difference y m.last_mouse_y_ in
          let number = negate-not_nan delta (numbers.difference y m.last_mouse_y_) in
          rw down (record {
            pitch =
                clamp-Within fpu laws _ min_pitch max_pitch
                  (step-not_nan min_pitch max_pitch m.camera_pitch_ (negate delta) mouse_sensitivity
                    refl refl w.pitch number refl refl).0
                  refl refl laws.pitch;
            distance = w.distance;
          })
      | inr up ↦ rw up (record { pitch = w.pitch; distance = w.distance })
    ]
    handle-IsWithin (scrolled x y) m w = record {
      pitch = w.pitch;
      distance =
          clamp-Within fpu laws _ min_distance max_distance
            (step-not_nan min_distance max_distance m.camera_distance_ (doubles.narrow y)
              scroll_zoom_step refl refl w.distance (numbers.cast y) refl refl).1
            refl refl laws.distance;
    }

    -- Whatever the mouse does, a camera whose tilt and distance lie between their limits (so that
    -- neither is NaN) stays so, where float arithmetic orders numbers as IsOrdered says and GLFW
    -- reports no NaN.
    pub handle_all-IsWithin :
        (es : List MouseEvent) (m : Mouse Double) → IsWithin m → IsWithin (handle_all es m)
    unfolding handle_all
    handle_all-IsWithin [] m w = w
    handle_all-IsWithin (e ∷ es) m w = handle_all-IsWithin es (handle e m) (handle-IsWithin e m w)
