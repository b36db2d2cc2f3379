-- ===== src/Render/Examples.antt =====
-- client/src/VulkanRenderer.cpp on a small driver, and the theorems at its states.
use game_x.Base.{
  inl, inr, ◌⊎◌, Bool-cases, ℕ, ◌-◌, ◌^◌, ◌≤◌, ◌≡◌, ◌≢◌, ◌↔◌, refl, true, false, List, [], ◌∷◌,
  none, some, arith, length, replicate, map, In, is_some, ℕ_discrete,
}
use game_x.Base.Int.{pos}
use game_x.Client.Logic.Tick.{PlayerRenderState}
use game_x.Render.Gpu.{Object-discrete, remove}
use game_x.Render.Device.{
  Extent, b8g8r8a8_srgb, srgb_nonlinear, PhysicalDevice, fifo, mailbox, triple_buffer,
  find_depth_format, check_device_extension_support, choose_image_count, choose_swap_extent,
  choose_swap_present_mode, erase_extension, find_memory_type, find_queue_families,
  find_supported_format, is_complete, is_device_suitable, is_memory_type, is_preferred,
  missing_extensions, note_family, offers, preferred_format, scan_families, scan_memory_types,
  supports, pick_physical_device, choose_swap_surface_format,
}
use game_x.Render.State.{
  Renderer, State, Driver, Outcome, done, thrown, fault, waits, create, or_throw, or_fault, fill,
  resize, resize_and_fill, allocate, assign, destroy, for_frames, framebuffer_size, map_memory,
  new_renderer, new_state, pure, read, ◌>>=◌,
}
use game_x.Render.Setup.{
  init, create_instance, pick_device, create_logical_device, create_render_pass,
  create_descriptor_set_layout, create_graphics_pipeline, create_camera_buffer,
  create_camera_uniform_buffers, create_command_buffers, create_command_pool,
  create_descriptor_pool, create_descriptor_sets, create_frame_sync, create_index_buffer,
  create_sync_objects, create_texture_image, create_texture_image_view, create_texture_sampler,
  create_vertex_buffer, read_file, transition_image_layout, barrier_for, unique_families,
}
use game_x.Render.Swapchain.{
  create_swap_chain, sharing_families, create_image_views, allocate_memory, create_buffer,
  create_depth_resources, create_framebuffers, create_image, create_image_view,
}
use game_x.Render.Cleanup.{cleanup}
use game_x.Render.Ownership.Lifetime.{Lived, started, cleanup-Lived}
use game_x.Float.{Float, is_finite, is_null, negate, zero_f, one_f, is_nan}
use game_x.Float.Soft.{soft, soft_le, soft_mul, soft_add}
use game_x.Base.Int.{negsuc}
use game_x.Render.State.Rules.{Ensures, Ensures-returned}
use game_x.Render.Ownership.{IsBalanced}
use game_x.Render.Ownership.Initial.{init-IsBalanced}
use game_x.Render.Device.Choice.{FirstFit, find_memory_type-FirstFit, swap_chain_bounds}
use game_x.Render.Device.Families.{
  Offers, draws, shows, find_queue_families_complete, pick_physical_device_serves,
}
use game_x.Render.Frame.{FrameAnswers, acquired, presented, frame_commands, record_command_buffer}
use game_x.Render.Frame.Running.{Running}
use game_x.Render.Frame.Commands.{picture, quad_of, record_command_buffer-picture}
use game_x.Render.Input.{
  Key, key_a, key_d, KeyAction, press, release, Movement, is_left, is_right, is_up, is_down, Mouse,
  Doubles,
}
use game_x.Render.Input.Keys.{after, held_last, after-held_last}
use game_x.Render.Input.Camera.{
  IsOrdered, AreNumbers, IsWithin, button, cursor_moved, scrolled, handle_all, handle_all-IsWithin,
}
use game_x.Render.Window.{Monitor, Window, WindowState}

abbrev gpu : PhysicalDevice
gpu = record {
  queue_families =
      (record { queue_flags = 2; present_support = true })
      ∷ (record { queue_flags = 3; present_support = false })
      ∷ [];
  extensions = "VK_KHR_surface" ∷ "VK_KHR_swapchain" ∷ [];
  capabilities = record {
    min_image_count = 2;
    max_image_count = 3;
    current_extent = record { width = 2 ^ 32 - 1; height = 2 ^ 32 - 1 };
    min_image_extent = record { width = 1; height = 1 };
    max_image_extent = record { width = 4096; height = 4096 };
  };
  formats = (record { format = b8g8r8a8_srgb; color_space = srgb_nonlinear }) ∷ [];
  present_modes = fifo ∷ mailbox ∷ [];
  memory_types = 1 ∷ 6 ∷ [];
  format_properties = λ _. record { linear_tiling_features = 0; optimal_tiling_features = 0x200 };
}

abbrev driver : Driver
driver = record {
  devices = gpu ∷ [];
  extensions = "VK_KHR_surface" ∷ [];
  memory_type_bits = λ _. 3;
  swap_images = λ h. h ∷ h ∷ [];
  shader_file = λ _. some (3 ∷ 2 ∷ 35 ∷ 7 ∷ []);
}

abbrev window : Extent
window = record { width = 1280; height = 720 }

abbrev state_of : Outcome Unit → State
state_of (done _ s) = s
state_of (thrown s) = s
state_of fault = new_state [] window []
state_of waits = new_state [] window []

abbrev initialised : State
initialised = state_of (init driver triple_buffer (new_state (replicate 60 7) window []))

init_run :
    (init driver triple_buffer (new_state (replicate 60 7) window []) ≡ done tt initialised)
    × (initialised.renderer.current_frame_ ≡ 0)
    × (length initialised.renderer.swap_chain_images_ ≡ 2)
unfolding init create_instance pick_device create_logical_device create_render_pass
    create_descriptor_set_layout create_graphics_pipeline create_camera_buffer
    create_camera_uniform_buffers create_command_buffers create_command_pool create_descriptor_pool
    create_descriptor_sets create_frame_sync create_index_buffer create_sync_objects
    create_texture_image create_texture_image_view create_texture_sampler create_vertex_buffer
    read_file transition_image_layout barrier_for unique_families find_depth_format
    check_device_extension_support choose_image_count choose_swap_extent choose_swap_present_mode
    erase_extension find_memory_type find_queue_families find_supported_format is_complete
    is_device_suitable is_memory_type is_preferred missing_extensions note_family offers
    preferred_format scan_families scan_memory_types supports pick_physical_device
    choose_swap_surface_format create or_throw or_fault fill resize resize_and_fill allocate assign
    destroy for_frames framebuffer_size map_memory new_renderer new_state pure read
    create_swap_chain sharing_families create_image_views allocate_memory create_buffer
    create_depth_resources create_framebuffers create_image create_image_view Object-discrete remove
    ◌>>=◌ ℕ_discrete
init_run = (refl, refl, refl)

initialised-Lived : Lived driver initialised
initialised-Lived = started triple_buffer (replicate 60 7) window [] init_run.0

cleanup-Lived_example : (t : State) × (cleanup initialised ≡ done tt t) × (t.live ≡ [])
cleanup-Lived_example = cleanup-Lived driver initialised initialised-Lived

init-IsBalanced_example :
    Ensures Unit
      (λ _ t. IsBalanced t)
      (init driver triple_buffer (new_state (replicate 60 7) window []))
init-IsBalanced_example = init-IsBalanced driver triple_buffer (replicate 60 7) window []

initialised-IsBalanced : IsBalanced initialised
initialised-IsBalanced =
    Ensures-returned (init-IsBalanced driver triple_buffer (replicate 60 7) window []) tt
      initialised init_run.0

players : List PlayerRenderState
players =
    (record { character_id = 1; x = 0; y = 0; z = 0; is_local = true })
    ∷ (record { character_id = 2; x = one_f; y = 0; z = 0; is_local = false })
    ∷ []

abbrev answers : FrameAnswers
answers = record {
  acquire = acquired 1;
  begins = true;
  ends = true;
  submits = true;
  present = presented;
  players = players;
}

abbrev one_image : Renderer
one_image = record new_renderer { swap_chain_framebuffers_ = 7 ∷ []; descriptor_sets_ = 2 }

recorded : record_command_buffer one_image 0 players ≡ some (frame_commands one_image 7 players)
unfolding record_command_buffer new_renderer
recorded = refl

record_command_buffer-picture_example :
    picture (frame_commands one_image 7 players) ≡ some (map quad_of players)
record_command_buffer-picture_example =
    record_command_buffer-picture one_image 0 players (frame_commands one_image 7 players) recorded

find_memory_type-FirstFit_example : FirstFit gpu 3 6 (find_memory_type gpu 3 6)
find_memory_type-FirstFit_example = find_memory_type-FirstFit gpu 3 6

find_queue_families_complete_example :
    (is_complete (find_queue_families gpu) ≡ true) ↔ (Offers draws gpu × Offers shows gpu)
find_queue_families_complete_example = find_queue_families_complete gpu

gpu_picked : pick_physical_device (gpu ∷ []) ≡ some gpu
unfolding pick_physical_device is_device_suitable find_queue_families scan_families note_family
    is_complete check_device_extension_support missing_extensions erase_extension
gpu_picked = refl

pick_physical_device_serves_example :
    In gpu (gpu ∷ [])
    × (is_some (find_queue_families gpu).graphics_family ≡ true)
    × (is_some (find_queue_families gpu).present_family ≡ true)
    × (is_some (choose_swap_surface_format gpu.formats) ≡ true)
pick_physical_device_serves_example = pick_physical_device_serves (gpu ∷ []) gpu gpu_picked

swap_chain_bounds_example :
    ((1 ≤ (choose_swap_extent gpu.capabilities window).width)
      × ((choose_swap_extent gpu.capabilities window).width ≤ 4096)
      × (1 ≤ (choose_swap_extent gpu.capabilities window).height)
      × ((choose_swap_extent gpu.capabilities window).height ≤ 4096))
    × ((2 ≤ choose_image_count gpu.capabilities)
        × (choose_image_count gpu.capabilities ≤ 3)
        × (◌≢◌ {A = ℕ} 3 0 → choose_image_count gpu.capabilities ≤ 3))
swap_chain_bounds_example =
    swap_chain_bounds gpu.capabilities window refl (omega arith) (omega arith) (omega arith)
      (λ _. omega arith)

abbrev history : List (Key × KeyAction)
history = (key_d, release) ∷ (key_a, press) ∷ (key_d, press) ∷ []

abbrev standing : Movement
standing = record {
  is_moving_left_ = false;
  is_moving_right_ = false;
  is_moving_up_ = false;
  is_moving_down_ = false;
}

after-held_last_example :
    ((after history standing).is_moving_left_ ≡ held_last is_left history false)
    × ((after history standing).is_moving_right_ ≡ held_last is_right history false)
    × ((after history standing).is_moving_up_ ≡ held_last is_up history false)
    × ((after history standing).is_moving_down_ ≡ held_last is_down history false)
after-held_last_example = after-held_last history standing

abbrev doubles : Doubles
doubles = record { Double = ℕ; narrow_difference = λ a b. one_f; narrow = λ a. one_f }

soft_le_total :
    (a b : Float)
    → is_nan a ≡ false
    → is_nan b ≡ false
    → (soft_le a b ≡ true) ⊎ (soft_le b a ≡ true)
unfolding soft_le
soft_le_total a b ha hb = elim (Bool-cases (soft_le a b)) [
  | inl e ↦ inl e
  | inr e ↦ inr (ground (arith, ha, hb))
]

soft_le_between :
    (lo v hi : Float)
    → is_finite lo ≡ true
    → is_finite hi ≡ true
    → soft_le lo v ≡ true
    → soft_le v hi ≡ true
    → is_finite v ≡ true
unfolding soft_le is_finite is_nan
soft_le_between lo v hi lo_fin hi_fin above below = ground arith

soft_mul_number :
    (a b : Float)
    → is_nan a ≡ false
    → is_finite b ≡ true
    → is_null b ≡ false
    → is_nan (soft_mul a b) ≡ false
unfolding soft_mul is_finite is_nan is_null
soft_mul_number a b ha hb n = ground arith

soft_add_number :
    (a b : Float) → is_finite a ≡ true → is_nan b ≡ false → is_nan (soft_add a b) ≡ false
unfolding soft_add is_finite is_nan is_null negate
soft_add_number a b ha hb = ground arith

soft-IsOrdered : IsOrdered soft
unfolding soft_le is_nan
soft-IsOrdered = record {
  le_total = soft_le_total;
  le_between = soft_le_between;
  mul_number = soft_mul_number;
  add_number = soft_add_number;
  pitch = refl;
  distance = refl;
}

doubles-AreNumbers : AreNumbers doubles
unfolding is_nan
doubles-AreNumbers = record { difference = λ a b. refl; cast = λ a. refl }

-- The camera as the header initialises it.
abbrev new_mouse : Mouse ℕ
new_mouse = record {
  camera_yaw_ = zero_f;
  camera_pitch_ = 0x3eb2_b8c7;
  camera_distance_ = 0x40c0_0000;
  is_right_mouse_down_ = false;
  last_mouse_x_ = 0;
  last_mouse_y_ = 0;
}

new_mouse-IsWithin : IsWithin soft doubles new_mouse
unfolding soft_le is_nan
new_mouse-IsWithin = record { pitch = (refl, refl); distance = (refl, refl) }

handle_all-IsWithin_example : IsWithin soft doubles (
    handle_all soft doubles
      (button true KeyAction.press 3 4 ∷ cursor_moved 9 9 ∷ scrolled 0 1 ∷ [])
      new_mouse)
handle_all-IsWithin_example =
    handle_all-IsWithin soft doubles soft-IsOrdered doubles-AreNumbers
      (button true KeyAction.press 3 4 ∷ cursor_moved 9 9 ∷ scrolled 0 1 ∷ []) new_mouse
      new_mouse-IsWithin

abbrev left_monitor : Monitor
left_monitor = record {
  work_x = negsuc 1919;
  work_y = pos 0;
  work_width = 1920;
  work_height = 1080;
  mode_width = 1920;
  mode_height = 1080;
}

abbrev main_monitor : Monitor
main_monitor = record {
  work_x = pos 0;
  work_y = pos 0;
  work_width = 3440;
  work_height = 1400;
  mode_width = 3440;
  mode_height = 1440;
}

abbrev windowed : Window
windowed = record { monitor = none; x = pos 100; y = pos 100; width = 1280; height = 720 }

-- The state as the header initialises it.
abbrev window_state : WindowState
window_state = record {
  is_fullscreen = false;
  windowed_x = pos 100;
  windowed_y = pos 100;
  windowed_width = 1280;
  windowed_height = 720;
}
