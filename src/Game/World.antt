-- ===== src/Game/World.antt =====
-- server/game/src/main.cpp: `save_character`, `simulate_movement` and the autosave of
-- `update_game_world`.
pub mod Simulate
use game_x.Base.{
  ℕ, ◌-◌, ◌^◌, ltb, ◌%◌, ◌==◌, Bool, not, ◌&&◌, List, [], ◌∷◌, Option, none, some, ◌>>=◌,
  if◌then◌else◌,
}
use game_x.Base.Int.{ℤ, is_negative}
use game_x.Float.{Float, Fpu, zero_f}
use game_x.Ecs.{Registry}
use game_x.Database.{after_throw, Database}
use game_x.Movement.{Vec2, player_speed_per_sec, apply_move_flags}
use game_x.Game.{
  Position, PlayerData, PlayerInput, Components, Platform, tick_dt_sec, autosave_interval_ticks,
}

-- The transaction of `save_character`; `none` is an exception.
unfoldable pub save_transaction :
    (db : Database) → db.State → ℤ → Float → Float → Float → Option (db.State)
save_transaction db s id x y z = do t ← db.begin s; u ← db.update_character t id x y z; db.commit u

-- The state after the exception.
unfoldable pub save_failed : (db : Database) → db.State → ℤ → Float → Float → Float → db.State
save_failed db s id x y z = after_throw db s (do t ← db.begin s; db.update_character t id x y z)

-- The state after a transaction, which is the first one where it threw.
abbrev pub or_failed {ℓ} : {S : Type ℓ} → S → Option S → S
or_failed failed none = failed
or_failed failed (some s') = s'

unfoldable pub save_character : (db : Database) → db.State → ℤ → Float → Float → Float → db.State
unfolding save_failed
save_character db s id x y z =
    if is_negative id
    then s
    else or_failed (save_failed db s id x y z) (save_transaction db s id x y z)

-- `delta` of `simulate_movement`.
abbrev pub tick_delta : Fpu → Float
tick_delta fpu = fpu.mul player_speed_per_sec tick_dt_sec

abbrev pub moved : Fpu → PlayerInput → Position → Position
moved fpu input pos =
    let to =
      apply_move_flags fpu (record { x = pos.x; z = pos.z }) input.move_flags (tick_delta fpu)
        input.yaw in
    record { x = to.x; y = pos.y; z = to.z; yaw = input.yaw }

abbrev pub move_parts : Fpu → Components → Option PlayerInput → Option Position → Components
move_parts fpu c (some input) (some pos) = record c { position = some (moved fpu input pos) }
move_parts fpu c _ _ = c

-- The view of `simulate_movement` takes the entities that have both components.
unfoldable pub move_player : Fpu → Components → Components
move_player fpu c = move_parts fpu c c.input c.position

-- `view.each`: the entities one after the other, each changed in place.
unfoldable pub each :
    (r : Registry Components) → (Components → Components) → r.World → List (r.Entity) → r.World
each r f w [] = w
each r f w (e ∷ es) = each r f (r.modify w e f) es

unfoldable pub simulate_movement : (p : Platform) → p.registry.World → p.registry.World
simulate_movement p w = each p.registry (move_player p.fpu) w (p.registry.entities w)

abbrev pub save_parts :
    (p : Platform) → p.db.State → Option PlayerData → Option Position → p.db.State
save_parts p s (some player) (some pos) =
    save_character p.db s player.character_id pos.x pos.y pos.z
save_parts p s _ _ = s

-- `save_character` for an entity that has the components which it reads.
unfoldable pub save_entity : (p : Platform) → p.db.State → Option Components → p.db.State
save_entity p s none = s
save_entity p s (some c) = save_parts p s c.data_of c.position

-- The loop of `update_game_world` over the players, when it saves.
unfoldable pub autosave :
    (p : Platform) → p.registry.World → p.db.State → List (p.registry.Entity) → p.db.State
autosave p w s [] = s
autosave p w s (e ∷ es) = autosave p w (save_entity p s (p.registry.get w e)) es

-- `tick` is the pattern of a 32-bit int; % takes the sign of the dividend.
unfoldable pub should_autosave : ℕ → Bool
should_autosave tick =
    not (tick == 0)
    && (if ltb tick (2 ^ 31) then tick else 2 ^ 32 - tick) % autosave_interval_ticks == 0
