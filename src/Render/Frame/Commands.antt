-- ===== src/Render/Frame/Commands.antt =====
-- client/src/VulkanRenderer.cpp: the commands of `recordCommandBuffer` against the order that Vulkan
-- asks for, and against the picture that they draw.
use game_x.Base.{
  ℕ, ◌≡◌, refl, subst, Bool, true, false, ◌&&◌, List, [], ◌∷◌, ◌++◌, map, concat_map, if◌then◌else◌,
  Option, none, some, ◌>>=◌, get_elem?, arith, Option-cases, Bool-cases, ltb, inl, inr,
}
use mathlib.Core.Option
use game_x.Float.{Float, zero_f, one_f}
use game_x.Client.Logic.Tick.{PlayerRenderState}
use game_x.Render.State.{Renderer}
use game_x.Render.Frame.{
  Command, begin_render_pass, bind_pipeline, set_viewport, set_scissor, bind_vertex_buffers,
  bind_index_buffer, bind_descriptor_sets, push_constants, draw_indexed, end_render_pass,
  draw_player, frame_commands, record_command_buffer,
}

-- What is bound inside a render pass.
pub record Bound : Type 0 where
  pub pipeline_bound : Bool
  pub viewport_set : Bool
  pub scissor_set : Bool
  pub vertices_bound : Bool
  pub indices_bound : Bool
  pub sets_bound : Bool
  pub constants : Option (List Float)

abbrev unbound : Bound
unbound = record {
  pipeline_bound = false;
  viewport_set = false;
  scissor_set = false;
  vertices_bound = false;
  indices_bound = false;
  sets_bound = false;
  constants = none;
}

abbrev is_ready : Bound → Bool
is_ready b =
    b.pipeline_bound && b.viewport_set && b.scissor_set && b.vertices_bound && b.indices_bound
    && b.sets_bound

-- The picture of the rest of a render pass: the constants that each draw sees, in order. There is
-- none if a draw comes before all is bound or before constants are pushed, if the pass does not end,
-- or if a command follows its end.
unfoldable pub pass : List Command → Bound → Option (List (List Float))
pass [] b = none
pass (begin_render_pass _ _ _ ∷ cs) b = none
pass (bind_pipeline _ ∷ cs) b = pass cs (record b { pipeline_bound = true })
pass (set_viewport _ ∷ cs) b = pass cs (record b { viewport_set = true })
pass (set_scissor _ ∷ cs) b = pass cs (record b { scissor_set = true })
pass (bind_vertex_buffers _ ∷ cs) b = pass cs (record b { vertices_bound = true })
pass (bind_index_buffer _ ∷ cs) b = pass cs (record b { indices_bound = true })
pass (bind_descriptor_sets _ _ ∷ cs) b = pass cs (record b { sets_bound = true })
pass (push_constants _ c ∷ cs) b = pass cs (record b { constants = some c })
pass (draw_indexed _ ∷ cs) b =
    let rest = pass cs b in
    if is_ready b then (do c ← b.constants; drawn ← rest; some (c ∷ drawn)) else none
pass (end_render_pass ∷ []) b = some []
pass (end_render_pass ∷ _ ∷ _) b = none

unfoldable pub picture : List Command → Option (List (List Float))
unfolding pass
picture (begin_render_pass _ _ _ ∷ cs) = pass cs unbound
picture _ = none

-- A player as the shaders are to see it.
abbrev pub quad_of : PlayerRenderState → List Float
quad_of p = p.x ∷ p.y ∷ p.z ∷ (if p.is_local then one_f else zero_f) ∷ []

pass-players :
    (r : Renderer) (players : List PlayerRenderState) (b : Bound)
    → is_ready b ≡ true
    → pass (concat_map (draw_player r) players ++ end_render_pass ∷ []) b
      ≡ some (map quad_of players)
unfolding pass
pass-players r [] b ready = refl
pass-players r (p ∷ ps) b ready =
    rw (ready, pass-players r ps (record b { constants = some (quad_of p) }) ready) refl

-- With an image and a frame index in range, what recordCommandBuffer records is one whole render
-- pass in which all is bound before the first draw, and the draws are the players, each once and in
-- order, with their place and whether they are local.
pub record_command_buffer-picture :
    (r : Renderer) (image : ℕ) (players : List PlayerRenderState) (commands : List Command)
    → record_command_buffer r image players ≡ some commands
    → picture commands ≡ some (map quad_of players)
unfolding record_command_buffer picture
record_command_buffer-picture r image players commands h =
    elim (Option-cases (get_elem? r.swap_chain_framebuffers_ image)) [
      | inl absent ↦ absurd (ground (arith, absent))
      | inr (f, there) ↦ elim (Bool-cases (ltb r.current_frame_ r.descriptor_sets_)) [
        | inr missing ↦ absurd (ground (arith, there, missing))
        | inl set ↦
            let recorded : some (frame_commands r f players) ≡ some commands =
              rw (there, set, record_command_buffer) at h in
            let same = Option.some-injective (frame_commands r f players) commands recorded in
            subst (λ cs. picture cs ≡ some (map quad_of players)) same
              (pass-players r players _ refl)
      ]
    ]
