-- ===== src/Render/Input.antt =====
-- client/src/VulkanRenderer.cpp: `handleKeyInput`, `handleCursorPos`, `handleMouseButton` and
-- `handleScroll`: what the callbacks of the window make of the keys and of the mouse.
pub mod Keys
pub mod Camera
use game_x.Base.{ℕ, ◌+◌, Bool, true, false, not, ◌&&◌, if◌then◌else◌, List, [], ◌∷◌}
use game_x.Float.{Float, Fpu, sub, negate}

-- The keys that the code names; `key_code` stands for any other.
pub data Key : Type 0 where
  key_left key_right key_up key_down key_a key_d key_w key_s key_f11 : Key
  key_code : ℕ → Key

-- `repeat` is GLFW's action while a key is held.
pub data KeyAction : Type 0 where
  press release repeat : KeyAction

pub record Movement : Type 0 where
  pub is_moving_left_ : Bool
  pub is_moving_right_ : Bool
  pub is_moving_up_ : Bool
  pub is_moving_down_ : Bool

abbrev pub is_left : Key → Bool
is_left k = elim k [ key_left ↦ true | key_a ↦ true | _ ↦ false ]

abbrev pub is_right : Key → Bool
is_right k = elim k [ key_right ↦ true | key_d ↦ true | _ ↦ false ]

abbrev pub is_up : Key → Bool
is_up k = elim k [ key_up ↦ true | key_w ↦ true | _ ↦ false ]

abbrev pub is_down : Key → Bool
is_down k = elim k [ key_down ↦ true | key_s ↦ true | _ ↦ false ]

abbrev pub is_f11 : Key → Bool
is_f11 k = elim k [ key_f11 ↦ true | _ ↦ false ]

-- The flags of a key's direction become `held`.
abbrev pub set_direction : Key → Bool → Movement → Movement
set_direction k held m = record {
  is_moving_left_ = if is_left k then held else m.is_moving_left_;
  is_moving_right_ = if is_right k then held else m.is_moving_right_;
  is_moving_up_ = if is_up k then held else m.is_moving_up_;
  is_moving_down_ = if is_down k then held else m.is_moving_down_;
}

-- The flags, and whether `toggleFullscreen` is called.
unfoldable pub handle_key_input : Key → KeyAction → Movement → Movement × Bool
handle_key_input k press m = (set_direction k true m, is_f11 k)
handle_key_input k release m = (set_direction k false m, false)
handle_key_input k repeat m = (m, false)

-- The camera and the mouse. The cursor's positions are doubles, narrowed where they are subtracted.
pub record Mouse (Double : Type 0) : Type 0 where
  pub camera_yaw_ : Float
  pub camera_pitch_ : Float
  pub camera_distance_ : Float
  pub is_right_mouse_down_ : Bool
  pub last_mouse_x_ : Double
  pub last_mouse_y_ : Double

-- `static_cast<float>(a - b)` of doubles, unary minus of a double before the cast, and the cast.
pub record Doubles : Type 1 where
  pub Double : Type 0
  pub narrow_difference : Double → Double → Float
  pub narrow : Double → Float

abbrev pub min_pitch : Float
min_pitch = 0xbf49_0fd8

abbrev pub max_pitch : Float
max_pitch = 0x3fbd_e450

abbrev pub min_distance : Float
min_distance = 0x4000_0000

abbrev pub max_distance : Float
max_distance = 0x4170_0000

abbrev pub mouse_sensitivity : Float
mouse_sensitivity = 0x3ba3_d70a

abbrev pub scroll_zoom_step : Float
scroll_zoom_step = 0x3f80_0000

-- `operator<` and `std::clamp`; a comparison with NaN is false, so NaN is passed on.
abbrev pub lt : Fpu → Float → Float → Bool
lt fpu a b = fpu.le a b && not (fpu.le b a)

unfoldable pub clamp : Fpu → Float → Float → Float → Float
clamp fpu v lo hi = if lt fpu v lo then lo else if lt fpu hi v then hi else v

module _ (fpu : Fpu) (doubles : Doubles) where
  open doubles use {Double, narrow_difference, narrow}

  -- `cursor` is what `glfwGetCursorPos` reports.
  unfoldable pub handle_mouse_button :
      Bool → KeyAction → Double → Double → Mouse Double → Mouse Double
  handle_mouse_button false action x y m = m
  handle_mouse_button true press x y m = record m {
    is_right_mouse_down_ = true;
    last_mouse_x_ = x;
    last_mouse_y_ = y;
  }
  handle_mouse_button true release x y m = record m { is_right_mouse_down_ = false }
  handle_mouse_button true repeat x y m = m

  unfoldable pub handle_cursor_pos : Double → Double → Mouse Double → Mouse Double
  unfolding clamp
  handle_cursor_pos x y m =
      if m.is_right_mouse_down_
      then record m {
        last_mouse_x_ = x;
        last_mouse_y_ = y;
        camera_yaw_ =
            fpu.add m.camera_yaw_ (fpu.mul (narrow_difference x m.last_mouse_x_) mouse_sensitivity);
        camera_pitch_ =
            clamp fpu
              (fpu.add m.camera_pitch_
                (fpu.mul (negate (narrow_difference y m.last_mouse_y_)) mouse_sensitivity))
              min_pitch max_pitch;
      }
      else record m { last_mouse_x_ = x; last_mouse_y_ = y }

  unfoldable pub handle_scroll : Double → Double → Mouse Double → Mouse Double
  unfolding clamp
  handle_scroll x y m = record m {
    camera_distance_ =
        clamp fpu (sub fpu m.camera_distance_ (fpu.mul (narrow y) scroll_zoom_step)) min_distance
          max_distance;
  }
