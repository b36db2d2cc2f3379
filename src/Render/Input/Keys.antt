-- ===== src/Render/Input/Keys.antt =====
-- client/src/VulkanRenderer.cpp: `handleKeyInput` over a history of key events.
use game_x.Base.{◌≡◌, refl, ap, Bool, true, false, List, [], ◌∷◌, if◌then◌else◌}
use game_x.Render.Input.{
  Key, KeyAction, press, release, repeat, Movement, is_left, is_right, is_up, is_down,
  handle_key_input,
}

-- A history, the latest event first.
unfoldable pub after : List (Key × KeyAction) → Movement → Movement
unfolding handle_key_input
after [] m = m
after ((k, a) ∷ older) m = (handle_key_input k a (after older m)).0

-- The latest press or release of a key of the direction decides.
unfoldable pub held_last : (Key → Bool) → List (Key × KeyAction) → Bool → Bool
held_last p [] start = start
held_last p ((k, press) ∷ older) start = if p k then true else held_last p older start
held_last p ((k, release) ∷ older) start = if p k then false else held_last p older start
held_last p ((k, repeat) ∷ older) start = held_last p older start

-- After any history of key events, the flag of a direction is what the latest press or release of a
-- key of that direction says.
pub after-held_last :
    (events : List (Key × KeyAction)) (m : Movement)
    → ((after events m).is_moving_left_ ≡ held_last is_left events m.is_moving_left_)
      × ((after events m).is_moving_right_ ≡ held_last is_right events m.is_moving_right_)
      × ((after events m).is_moving_up_ ≡ held_last is_up events m.is_moving_up_)
      × ((after events m).is_moving_down_ ≡ held_last is_down events m.is_moving_down_)
unfolding after held_last
after-held_last [] m = (refl, refl, refl, refl)
after-held_last ((k, press) ∷ older) m =
    let (l, r, u, d) = after-held_last older m in
    (
      ap (λ b. if is_left k then true else b) l,
      ap (λ b. if is_right k then true else b) r,
      ap (λ b. if is_up k then true else b) u,
      ap (λ b. if is_down k then true else b) d,
    )
after-held_last ((k, release) ∷ older) m =
    let (l, r, u, d) = after-held_last older m in
    (
      ap (λ b. if is_left k then false else b) l,
      ap (λ b. if is_right k then false else b) r,
      ap (λ b. if is_up k then false else b) u,
      ap (λ b. if is_down k then false else b) d,
    )
after-held_last ((k, repeat) ∷ older) m = after-held_last older m
