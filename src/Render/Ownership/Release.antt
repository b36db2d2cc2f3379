-- ===== src/Render/Ownership/Release.antt =====
-- client/src/VulkanRenderer.cpp: `cleanup` on a renderer whose members own what is alive.
use game_x.Base.{
  ℕ, zero, suc, ◌+◌, ◌≡◌, ◌≢◌, ◌<◌, refl, List, [], ◌∷◌, ◌++◌, Bool, true, false, arith, ite,
  length, ◌==◌, ap, ◌⊎◌, inl, inr,
}
use game_x.Render.Gpu.{
  Kind, Object, Object-discrete, count, vk_instance, surface, device, swap_chain, image_view,
  render_pass, pipeline_layout, pipeline, framebuffer, command_pool, semaphore, fence, buffer,
  memory, image, sampler, descriptor_set_layout, descriptor_pool, mapping,
}
use game_x.Render.Gpu.Count.{count-append, count_self}
use game_x.Render.State.{State, Action, done, ◌>>◌, destroy_held}
use game_x.Render.State.Rules.{
  Ensures, returns, >>=-Ensures, destroy-Ensures, destroy_held-Ensures, held, object, Ensures-done,
  held_then, all_then,
}
use game_x.Render.Cleanup.{
  unmap, destroy_camera_buffers, is_instance_level, every, destroy_device, is_instance,
  destroy_instance, destroy_instance_level, release, cleanup,
}
use game_x.Render.Ownership.{mapped, camera_held, IsBalanced}

unmap-Ensures :
    {Q : Type 0} {P : Unit → State → Type 0} (a m : ℕ) (s : State) (rest : Object → ℕ)
    → ((o : Object) → count o s.live ≡ count o (mapped a m) + rest o)
    → ((live : List Object)
        → ((o : Object) → count o live ≡ rest o)
        → P tt (record s { live = live }))
    → Ensures Q P (unmap a m s)
unfolding unmap mapped count
unmap-Ensures zero m s rest all p = returns (p s.live (λ o. omega (arith, all o)))
unmap-Ensures (suc a) m s rest all p = destroy-Ensures mapping m s rest all p

camera_held_cons :
    (b m a : ℕ) (bs ms addresses : List ℕ) (o : Object)
    → count o (camera_held (b ∷ bs) (m ∷ ms) (a ∷ addresses))
      ≡ count o (mapped a m)
        + (count o (held buffer b)
            + (count o (held memory m) + count o (camera_held bs ms addresses)))
unfolding camera_held
camera_held_cons b m a bs ms addresses o = omega (
  arith,
  count-append o (mapped a m) (held buffer b ++ (held memory m ++ camera_held bs ms addresses)),
  count-append o (held buffer b) (held memory m ++ camera_held bs ms addresses),
  count-append o (held memory m) (camera_held bs ms addresses),
)

destroy_camera_buffers-Ensures :
    {Q : Type 0} {P : Unit → State → Type 0} (bs ms addresses : List ℕ) (s : State)
    (rest : Object → ℕ)
    → length bs ≡ length ms
    → length bs ≡ length addresses
    → ((o : Object) → count o s.live ≡ count o (camera_held bs ms addresses) + rest o)
    → ((live : List Object)
        → ((o : Object) → count o live ≡ rest o)
        → P tt (record s { live = live }))
    → Ensures Q P (destroy_camera_buffers bs ms addresses s)
unfolding destroy_camera_buffers camera_held count
destroy_camera_buffers-Ensures [] ms addresses s rest lm la all p =
    returns (p s.live (λ o. omega (arith, all o)))
destroy_camera_buffers-Ensures (b ∷ bs) [] addresses s rest lm la all p = absurd (omega arith)
destroy_camera_buffers-Ensures (b ∷ bs) (m ∷ ms) [] s rest lm la all p = absurd (omega arith)
destroy_camera_buffers-Ensures (b ∷ bs) (m ∷ ms) (a ∷ addresses) s rest lm la all p =
    >>=-Ensures (unmap a m) _ s (
      unmap-Ensures a m s _ (λ o. omega (arith, all o, camera_held_cons b m a bs ms addresses o))
        λ live1 e1.
          >>=-Ensures (destroy_held buffer b) _ (record s { live = live1 })
            (destroy_held-Ensures buffer b (record s { live = live1 }) _ e1
              λ live2 e2.
                >>=-Ensures (destroy_held memory m) _ (record s { live = live2 })
                  (destroy_held-Ensures memory m (record s { live = live2 }) _ e2
                    λ live3 e3.
                      destroy_camera_buffers-Ensures bs ms addresses (record s { live = live3 })
                        rest (omega arith) (omega arith) e3 p)))

module _ (p : Object → Bool) where
  -- What is counted in no list that fails the test passes it.
  every-In : (xs : List Object) → ((o : Object) → 0 < count o xs → p o ≡ true) → every p xs ≡ true
  unfolding every count
  every-In [] h = refl
  every-In (x ∷ xs) h = rw (h x (count_self x xs)) (every-In xs λ o l. h o (omega arith))

abbrev level_of_kind : Kind → Bool
level_of_kind k = is_instance_level (record { kind = k; handle = 0 })

abbrev instance_kind : Kind → Bool
instance_kind k = is_instance (record { kind = k; handle = 0 })

zero_or_pos : (n : ℕ) → (n ≡ 0) ⊎ (0 < n)
zero_or_pos zero = inl refl
zero_or_pos (suc n) = inr (omega arith)

kind_of_held : (k : Kind) (h : ℕ) (o : Object) → 0 < count o (held k h) → o.kind ≡ k
unfolding held count object
kind_of_held k zero o l = absurd (omega arith)
kind_of_held k (suc h) o l = go (Object-discrete o (object k (suc h))) l
  where
    go : (d : Dec (o ≡ object k (suc h))) → 0 < ite d 1 0 + 0 → o.kind ≡ k
    go (yes e) _ = ap (λ (x : Object). x.kind) e
    go (no n) l = absurd (omega arith)

-- Only objects of these kinds are left.
level_of :
    (o : Object) (d su i : ℕ)
    → 0 < count o (held device d) + (count o (held surface su) + (count o (held vk_instance i) + 0))
    → is_instance_level o ≡ true
level_of o d su i l = elim (zero_or_pos (count o (held device d))) [
  | inr present ↦ ap level_of_kind (kind_of_held device d o present)
  | inl absent ↦ elim (zero_or_pos (count o (held surface su))) [
    | inr present ↦ ap level_of_kind (kind_of_held surface su o present)
    | inl absent' ↦
        ap level_of_kind (kind_of_held vk_instance i o (omega (arith, l, absent, absent')))
  ]
]

destroy_instance_level-Ensures :
    {Q : Type 0} (i su : ℕ) (s : State)
    → i ≢ 0
    → ((o : Object)
        → count o s.live ≡ count o (held surface su) + (count o (held vk_instance i) + 0))
    → Ensures Q (λ _ t. (o : Object) → count o t.live ≡ 0) (destroy_instance_level i su s)
unfolding destroy_instance_level destroy_instance held
destroy_instance_level-Ensures zero su s n all = absurd (n refl)
destroy_instance_level-Ensures (suc i) su s n all =
    >>=-Ensures (destroy_held surface su) (λ _. destroy_instance (suc i)) s
      (destroy_held-Ensures surface su s _ all λ live e.
        let only : every is_instance live ≡ true =
          every-In is_instance live
            λ o l. ap instance_kind (kind_of_held vk_instance (suc i) o (omega (arith, e o))) in
        rw (only, destroy_instance)
          (destroy-Ensures vk_instance (suc i) (record s { live = live }) (λ _. 0) e
            λ left none. none))

destroy_device-Ensures :
    {Q : Type 0} {P : Unit → State → Type 0} (d su i : ℕ) (s : State)
    → d ≢ 0
    → ((o : Object)
        → count o s.live
          ≡ count o (held device d)
            + (count o (held surface su) + (count o (held vk_instance i) + 0)))
    → ((live : List Object)
        → ((o : Object)
            → count o live ≡ count o (held surface su) + (count o (held vk_instance i) + 0))
        → P tt (record s { live = live }))
    → Ensures Q P (destroy_device d s)
unfolding destroy_device held
destroy_device-Ensures zero su i s n all p = absurd (n refl)
destroy_device-Ensures (suc d) su i s n all p =
    let only : every is_instance_level s.live ≡ true =
      every-In is_instance_level s.live λ o l. level_of o (suc d) su i (omega (arith, all o)) in
    rw (only, destroy_device) (destroy-Ensures device (suc d) s _ all p)

module _ {A : Type 0} {Q : Type 0} {P : A → State → Type 0} where
  camera_then :
      {rest : Object → ℕ} (bs ms addresses : List ℕ) (next : Action A) (s : State)
      → ((o : Object) → count o s.live ≡ count o (camera_held bs ms addresses) + rest o)
      → length bs ≡ length ms
      → length bs ≡ length addresses
      → ((live : List Object)
          → ((o : Object) → count o live ≡ rest o)
          → Ensures Q P (next (record s { live = live })))
      → Ensures Q P ((destroy_camera_buffers bs ms addresses >> next) s)
  camera_then {rest} bs ms addresses next s all lm la p =
      >>=-Ensures (destroy_camera_buffers bs ms addresses) (λ _. next) s
        (destroy_camera_buffers-Ensures bs ms addresses s rest lm la all p)

  device_then :
      (d su i : ℕ) (next : Action A) (s : State)
      → d ≢ 0
      → ((o : Object)
          → count o s.live
            ≡ count o (held device d)
              + (count o (held surface su) + (count o (held vk_instance i) + 0)))
      → ((live : List Object)
          → ((o : Object)
              → count o live ≡ count o (held surface su) + (count o (held vk_instance i) + 0))
          → Ensures Q P (next (record s { live = live })))
      → Ensures Q P ((destroy_device d >> next) s)
  device_then d su i next s n all p =
      >>=-Ensures (destroy_device d) (λ _. next) s (destroy_device-Ensures d su i s n all p)

empty_of_count : (xs : List Object) → ((o : Object) → count o xs ≡ 0) → xs ≡ []
empty_of_count [] h = refl
empty_of_count (x ∷ xs) h = absurd (omega (arith, h x, count_self x xs))

release-Ensures :
    (s : State)
    → IsBalanced s
    → Ensures ⊥ (λ _ t. (o : Object) → count o t.live ≡ 0) (release s.renderer s)
unfolding release
release-Ensures s b =
    let r = s.renderer in
    all_then semaphore r.render_finished_semaphores_ _ _ b.balanced λ _ e.
      all_then semaphore r.image_available_semaphores_ _ _ e λ _ e.
        all_then fence r.in_flight_fences_ _ _ e λ _ e.
          held_then command_pool r.command_pool_ _ _ e λ _ e.
            all_then framebuffer r.swap_chain_framebuffers_ _ _ e λ _ e.
              held_then pipeline r.graphics_pipeline_ _ _ e λ _ e.
                held_then pipeline_layout r.pipeline_layout_ _ _ e λ _ e.
                  held_then render_pass r.render_pass_ _ _ e λ _ e.
                    all_then image_view r.swap_chain_image_views_ _ _ e λ _ e.
                      held_then swap_chain r.swap_chain_ _ _ e λ _ e.
                        held_then image_view r.depth_image_view_ _ _ e λ _ e.
                          held_then image r.depth_image_ _ _ e λ _ e.
                            held_then memory r.depth_image_memory_ _ _ e λ _ e.
                              camera_then r.camera_ubo_buffers_ r.camera_ubo_buffers_memory_
                                r.camera_ubo_mapped_ _ _ e b.has_memories b.has_mappings
                                λ _ e. held_then descriptor_pool r.descriptor_pool_ _ _ e λ _ e.
                                  held_then sampler r.texture_sampler_ _ _ e λ _ e.
                                    held_then image_view r.texture_image_view_ _ _ e λ _ e.
                                      held_then image r.texture_image_ _ _ e λ _ e.
                                        held_then memory r.texture_image_memory_ _ _ e λ _ e.
                                          held_then descriptor_set_layout r.descriptor_set_layout_ _
                                            _ e
                                            λ _ e. held_then buffer r.index_buffer_ _ _ e λ _ e.
                                              held_then memory r.index_buffer_memory_ _ _ e λ _ e.
                                                held_then buffer r.vertex_buffer_ _ _ e λ _ e.
                                                  held_then memory r.vertex_buffer_memory_ _ _ e
                                                    λ _ e.
                                                      device_then r.device_ r.surface_ r.instance_ _
                                                        _ b.has_device e
                                                        λ _ e.
                                                          destroy_instance_level-Ensures r.instance_
                                                            r.surface_ _ b.has_instance e

pub cleanup_leaves_nothing :
    (s : State) → IsBalanced s → (t : State) × (cleanup s ≡ done tt t) × (t.live ≡ [])
unfolding cleanup
cleanup_leaves_nothing s b =
    let there : (s.renderer.device_ == 0) ≡ false = ground (arith, b.has_device) in
    let (u, t, e, none) = Ensures-done (release-Ensures s b) in
    (t, rw there e, empty_of_count t.live none)
