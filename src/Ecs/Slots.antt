-- ===== src/Ecs/Slots.antt =====
-- A registry that keeps one slot for each entity ever made: it meets the laws of `IsRegistry`, and
-- the examples run on it.
use game_x.Base.{
  ℕ, zero, suc, ◌≡◌, refl, List, [], ◌∷◌, ◌++◌, Option, none, some, is_some, ite, arith,
  if◌then◌else◌, length, ℕ_discrete, map, ◌∙◌,
}
use game_x.Ecs.{Registry, IsRegistry, occurrences}
use mathlib.Core.Option

module _ {A : Type 0} where
  abbrev slot : List (Option A) → ℕ → Option A
  slot [] i = none
  slot (o ∷ os) zero = o
  slot (o ∷ os) (suc i) = slot os i

  abbrev change : List (Option A) → ℕ → (Option A → Option A) → List (Option A)
  change [] i f = []
  change (o ∷ os) zero f = f o ∷ os
  change (o ∷ os) (suc i) f = o ∷ change os i f

  -- The indices of the slots in use.
  abbrev used : List (Option A) → List ℕ
  used [] = []
  used (none ∷ os) = map suc (used os)
  used (some a ∷ os) = 0 ∷ map suc (used os)

abbrev pub slots : (A : Type 0) → Registry A
slots A = record {
  World = List (Option A);
  Entity = ℕ;
  same = ℕ_discrete;
  empty = [];
  create = λ w a. (w ++ (some a ∷ []), length w);
  get = slot;
  modify = λ w e f. change w e (Option.map f);
  destroy = λ w e. change w e (λ _. none);
  entities = used;
}

occurrences-map-suc_zero : (l : List ℕ) → occurrences ℕ_discrete 0 (map suc l) ≡ 0
unfolding occurrences
occurrences-map-suc_zero [] = refl
occurrences-map-suc_zero (d ∷ ds) = ground (arith, occurrences-map-suc_zero ds)

occurrences-map-suc :
    (e : ℕ) (l : List ℕ) → occurrences ℕ_discrete (suc e) (map suc l) ≡ occurrences ℕ_discrete e l
unfolding occurrences
occurrences-map-suc e [] = refl
occurrences-map-suc e (d ∷ ds) = ground (arith, occurrences-map-suc e ds)

module _ {A : Type 0} where
  slot-length : (w : List (Option A)) → slot w (length w) ≡ none
  slot-length [] = refl
  slot-length (o ∷ os) = slot-length os

  slot-append :
      (w : List (Option A)) (a : A) (e : ℕ)
      → slot (w ++ (some a ∷ [])) e ≡ ite (ℕ_discrete (length w) e) (some a) (slot w e)
  slot-append [] a zero = ground arith
  slot-append [] a (suc e) = ground arith
  slot-append (o ∷ os) a zero = ground arith
  slot-append (o ∷ os) a (suc e) = ground (arith, slot-append os a e)

  slot-change :
      (w : List (Option A)) (d : ℕ) (f : Option A → Option A) (e : ℕ)
      → f none ≡ none
      → slot (change w d f) e ≡ ite (ℕ_discrete d e) (f (slot w e)) (slot w e)
  slot-change [] d f e h = ground arith
  slot-change (o ∷ os) zero f zero h = ground arith
  slot-change (o ∷ os) zero f (suc e) h = ground arith
  slot-change (o ∷ os) (suc d) f zero h = ground arith
  slot-change (o ∷ os) (suc d) f (suc e) h = ground (arith, slot-change os d f e h)

  used_once :
      (w : List (Option A)) (e : ℕ)
      → occurrences ℕ_discrete e (used w) ≡ (if is_some (slot w e) then 1 else 0)
  unfolding occurrences
  used_once [] e = refl
  used_once (none ∷ os) zero = occurrences-map-suc_zero (used os)
  used_once (none ∷ os) (suc e) = occurrences-map-suc e (used os) ∙ used_once os e
  used_once (some a ∷ os) zero = ground (arith, occurrences-map-suc_zero (used os))
  used_once (some a ∷ os) (suc e) = ground (arith, occurrences-map-suc e (used os), used_once os e)

  pub slots-IsRegistry : IsRegistry (slots A)
  slots-IsRegistry = record {
    get-empty = λ e. refl;
    create_fresh = λ w a. slot-length w;
    get-create = slot-append;
    get-modify = λ w d f e. slot-change w d (Option.map f) e refl;
    get-destroy = λ w d e. slot-change w d (λ _. none) e refl;
    entities_once = used_once;
  }
