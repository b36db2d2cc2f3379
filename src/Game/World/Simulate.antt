-- ===== src/Game/World/Simulate.antt =====
-- server/game/src/main.cpp: what `simulate_movement` does to every entity.
use game_x.Base.{
  ℕ, zero, suc, ◌≡◌, refl, ap, ◌∙◌, true, false, List, [], ◌∷◌, Option, none, some, is_some,
  if◌then◌else◌, if_pos, if_neg, ◌⊎◌, inl, inr, Option-cases,
}
use game_x.Float.{IsIeee, is_finite, is_nan}
use game_x.Ecs.{Registry, IsRegistry, occurrences}
use game_x.Movement.Laws.{infinite_yaw_poisons}
use game_x.Movement.{apply_move_flags, player_speed_per_sec}
use game_x.Game.{tick_dt_sec, Components, PlayerInput, Position, Platform}
use game_x.Game.World.{each, move_player, simulate_movement, moved, tick_delta}
use mathlib.Core.Option

-- A function applied a number of times to the components of an entity.
abbrev times : ℕ → (Components → Components) → Option Components → Option Components
times zero f o = o
times (suc n) f o = times n f (Option.map f o)

-- What a view that visits each valid entity once comes to.
times_once :
    (f : Components → Components) (o : Option Components) (n : ℕ)
    → n ≡ (if is_some o then 1 else 0)
    → times n f o ≡ Option.map f o
times_once f none n h = rw h
times_once f (some c) n h = rw h

module _ {r : Registry Components} (laws : IsRegistry r) where
  get-each :
      (f : Components → Components) (w : r.World) (es : List (r.Entity)) (e : r.Entity)
      → r.get (each r f w es) e ≡ times (occurrences r.same e es) f (r.get w e)
  unfolding each occurrences
  get-each f w [] e = refl
  get-each f w (d ∷ ds) e =
      let ih = get-each f (r.modify w d f) ds e in
      let changed = laws.get-modify w d f e in
      elim (r.same d e) [
        | yes hit ↦ rw (if_pos _ hit) (
            ih
            ∙ ap (times (occurrences r.same e ds) f)
                (changed ∙ if_pos (r.same d e) hit _ (r.get w e)))
        | no miss ↦ rw (if_neg _ miss) (
            ih
            ∙ ap (times (occurrences r.same e ds) f)
                (changed ∙ if_neg (r.same d e) miss (Option.map f (r.get w e)) _))
      ]

module _ (p : Platform) (laws : IsRegistry p.registry) where
  pub get-simulate_movement :
      (w : p.registry.World) (e : p.registry.Entity)
      → p.registry.get (simulate_movement p w) e
        ≡ Option.map (move_player p.fpu) (p.registry.get w e)
  unfolding simulate_movement
  get-simulate_movement w e =
      get-each laws (move_player p.fpu) w (p.registry.entities w) e
      ∙ times_once (move_player p.fpu) (p.registry.get w e) _ (laws.entities_once w e)

  -- One call of simulate_movement, where the registry meets its laws: an entity with an input and a
  -- position gets the ground coordinates that apply_move_flags gives for its own input and the step
  -- of a tick, the yaw of the input, and keeps all else; a valid entity that lacks one of the two
  -- stays as it is, and an entity that is not valid stays so.
  pub simulate_movement_moves :
      (w : p.registry.World) (e : p.registry.Entity)
      → let after = p.registry.get (simulate_movement p w) e in
        ((c : Components) (input : PlayerInput) (pos : Position)
          → p.registry.get w e ≡ some c
          → c.input ≡ some input
          → c.position ≡ some pos
          → let to =
              apply_move_flags p.fpu
                (record { x = pos.x; z = pos.z })
                input.move_flags
                (p.fpu.mul player_speed_per_sec tick_dt_sec)
                input.yaw in
            after
            ≡ some (record c {
              position = some (record { x = to.x; y = pos.y; z = to.z; yaw = input.yaw });
            }))
        × ((c : Components)
            → p.registry.get w e ≡ some c
            → (c.input ≡ none) ⊎ (c.position ≡ none)
            → after ≡ some c)
        × (p.registry.get w e ≡ none → after ≡ none)
  unfolding move_player
  simulate_movement_moves w e = (
    λ c input pos valid hi hp. get-simulate_movement w e ∙ rw (valid, hi, hp),
    λ c valid missing. get-simulate_movement w e ∙ elim missing [
      | inl no_input ↦ rw (valid, no_input)
      | inr no_position ↦ elim (Option-cases c.input) [
        | inl no_input ↦ rw (valid, no_input)
        | inr (input, there) ↦ rw (valid, there, no_position)
      ]
    ],
    λ gone. get-simulate_movement w e ∙ rw gone,
  )

  -- A valid entity with a position, and with an input whose yaw is infinite or NaN, has NaN for
  -- both ground coordinates after the next simulate_movement, whatever keys are held.
  pub infinite_yaw_spreads :
      (ieee : IsIeee p.fpu) (w : p.registry.World) (e : p.registry.Entity) (c : Components)
      (input : PlayerInput) (pos : Position)
      → p.registry.get w e ≡ some c
      → c.input ≡ some input
      → c.position ≡ some pos
      → is_finite input.yaw ≡ false
      → (c' : Components) × (pos' : Position) × (p.registry.get (simulate_movement p w) e ≡ some c')
        × (c'.position ≡ some pos')
        × (is_nan pos'.x ≡ true)
        × (is_nan pos'.z ≡ true)
  unfolding move_player
  infinite_yaw_spreads ieee w e c input pos valid hi hp bad =
      let (nan_x, nan_z) =
        infinite_yaw_poisons ieee (record { x = pos.x; z = pos.z }) input.move_flags
          (tick_delta p.fpu) input.yaw bad in
      (
        record c { position = some (moved p.fpu input pos) },
        moved p.fpu input pos,
        get-simulate_movement w e ∙ rw (valid, hi, hp),
        refl,
        nan_x,
        nan_z,
      )
