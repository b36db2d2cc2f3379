-- ===== src/Ecs.antt =====
-- The part of EnTT's `entt::registry` that the program calls, as an interface. A value of type A
-- holds all the components of one entity; `emplace` and assignments through the reference of `get`
-- are `modify`. The entities that a view visits are a list.
pub mod Slots
use game_x.Base.{ℕ, suc, ◌≡◌, Bool, List, [], ◌∷◌, Option, none, some, is_some, ite, if◌then◌else◌}
use mathlib.Core.Option

pub record Registry (A : Type 0) : Type 1 where
  pub World : Type 0
  pub Entity : Type 0
  -- `entt::entity` is an enumeration: its values compare.
  pub same : Discrete Entity
  pub empty : World
  -- A new entity has the component values given here, which `emplace` then sets.
  pub create : World → A → World × Entity
  -- `none`: the entity is not valid.
  pub get : World → Entity → Option A
  pub modify : World → Entity → (A → A) → World
  pub destroy : World → Entity → World
  pub entities : World → List Entity

abbrev pub valid : {A : Type 0} (r : Registry A) → r.World → r.Entity → Bool
valid r w e = is_some (r.get w e)

-- How often an entity stands in a list.
unfoldable pub occurrences {ℓ} : {E : Type ℓ} → Discrete E → E → List E → ℕ
occurrences same e [] = 0
occurrences same e (d ∷ ds) = ite (same d e) (suc (occurrences same e ds)) (occurrences same e ds)

pub record IsRegistry {A : Type 0} (r : Registry A) : Type 0 where
  pub get-empty : (e : r.Entity) → r.get r.empty e ≡ none
  pub create_fresh : (w : r.World) (a : A) → r.get w (r.create w a).1 ≡ none
  pub get-create :
      (w : r.World) (a : A) (e : r.Entity)
      → r.get (r.create w a).0 e ≡ ite (r.same (r.create w a).1 e) (some a) (r.get w e)
  pub get-modify :
      (w : r.World) (d : r.Entity) (f : A → A) (e : r.Entity)
      → r.get (r.modify w d f) e ≡ ite (r.same d e) (Option.map f (r.get w e)) (r.get w e)
  pub get-destroy :
      (w : r.World) (d e : r.Entity) → r.get (r.destroy w d) e ≡ ite (r.same d e) none (r.get w e)
  -- A view visits each valid entity once, and nothing else.
  pub entities_once :
      (w : r.World) (e : r.Entity)
      → occurrences r.same e (r.entities w) ≡ (if is_some (r.get w e) then 1 else 0)
