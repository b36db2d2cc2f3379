-- ===== src/Game/Step/Cleanup.antt =====
-- server/game/src/main.cpp: the ownership of entities across `world.create` and `world.destroy`.
use game_x.Base.{
  ◌≡◌, ◌≢◌, refl, sym, ap, subst, ◌∙◌, inl, inr, List, ◌∷◌, none, some, In, if_pos, if_neg,
}
use game_x.Ecs.{IsRegistry}
use game_x.Game.{Components, no_components, Platform}
use game_x.Game.Broadcast.{Live}
use game_x.Game.Auth.{Login, spawn, spawn_data, spawn_position, spawn_input}
use game_x.Game.Step.Ownership.{IsPlayer, Owns}
use game_x.Game.Step.Posted.{once_head, once_tail}
use mathlib.Core.Option

module _ (p : Platform) (laws : IsRegistry p.registry) where
  open p use {registry}

  get-modify_self :
      (w : registry.World) (e : registry.Entity) (f : Components → Components)
      → registry.get (registry.modify w e f) e ≡ Option.map f (registry.get w e)
  get-modify_self w e f =
      laws.get-modify w e f e ∙ if_pos (registry.same e e) refl _ (registry.get w e)

  pub get-modify_ne :
      (w : registry.World) (d e : registry.Entity) (f : Components → Components)
      → d ≢ e
      → registry.get (registry.modify w d f) e ≡ registry.get w e
  get-modify_ne w d e f h =
      laws.get-modify w d f e ∙ if_neg (registry.same d e) h (Option.map f (registry.get w e)) _

  pub spawn_fresh : (w : registry.World) (l : Login) → registry.get w (spawn p w l).1 ≡ none
  unfolding spawn
  spawn_fresh w l = laws.create_fresh w no_components

  -- The entity that `handle_auth` makes has its three components.
  pub spawn-IsPlayer : (w : registry.World) (l : Login) → IsPlayer p (spawn p w l).0 (spawn p w l).1
  unfolding spawn
  spawn-IsPlayer w l =
      let made = registry.create w no_components in
      let e = made.1 in
      let w1 = registry.modify made.0 e (spawn_data l) in
      let w2 = registry.modify w1 e (spawn_position l) in
      let start =
        laws.get-create w no_components e ∙ if_pos (registry.same e e) refl _ (registry.get w e) in
      let one = get-modify_self made.0 e (spawn_data l) ∙ ap (Option.map (spawn_data l)) start in
      let two = get-modify_self w1 e (spawn_position l) ∙ ap (Option.map (spawn_position l)) one in
      let three = get-modify_self w2 e spawn_input ∙ ap (Option.map spawn_input) two in
      (
        spawn_input (spawn_position l (spawn_data l no_components)),
        three,
        record { has_data = refl; has_position = refl; has_input = refl },
      )

  pub spawn_elsewhere :
      (w : registry.World) (l : Login) (e : registry.Entity)
      → (spawn p w l).1 ≢ e
      → registry.get (spawn p w l).0 e ≡ registry.get w e
  unfolding spawn
  spawn_elsewhere w l e h =
      let made = registry.create w no_components in
      let new = made.1 in
      let w1 = registry.modify made.0 new (spawn_data l) in
      let w2 = registry.modify w1 new (spawn_position l) in
      get-modify_ne w2 new e spawn_input h
      ∙ (get-modify_ne w1 new e (spawn_position l) h
          ∙ (get-modify_ne made.0 new e (spawn_data l) h
              ∙ (laws.get-create w no_components e
                  ∙ if_neg (registry.same new e) h (some no_components) _)))

  destroy_self :
      (w : registry.World) (e : registry.Entity) → registry.get (registry.destroy w e) e ≡ none
  destroy_self w e =
      laws.get-destroy w e e ∙ if_pos (registry.same e e) refl none (registry.get w e)

  destroy_ne :
      (w : registry.World) (d e : registry.Entity)
      → d ≢ e
      → registry.get (registry.destroy w d) e ≡ registry.get w e
  destroy_ne w d e h = laws.get-destroy w d e ∙ if_neg (registry.same d e) h none (registry.get w e)

  -- The posted task destroys an entity that no session owns and that is posted once.
  pub Owns-cleanup :
      {w : registry.World} {live : Live p} (e : registry.Entity) (rest : List (registry.Entity))
      → Owns p w live (e ∷ rest)
      → Owns p (registry.destroy w e) live rest
  Owns-cleanup {w} {live} e rest o = record {
    waiting_bare = o.waiting_bare;
    playing = o.playing;
    owned_player = λ i s d here has.
        kept d (λ same. o.posted_free e i s (inl refl) here (has ∙ ap some (sym same)))
          (o.owned_player i s d here has);
    owner_unique = o.owner_unique;
    posted_player = λ d m. kept d (not_rest d m) (o.posted_player d (inr m));
    posted_free = λ d i s m. o.posted_free d i s (inr m);
    posted_once = λ d. once_tail registry.same d e rest (o.posted_once d);
    no_leak = λ d c valid. elim (registry.same e d) [
      | yes hit ↦
          absurd
            (cc (sym (destroy_self w e) ∙ (ap (registry.get (registry.destroy w e)) hit ∙ valid)))
      | no other ↦ elim (o.no_leak d c (sym (destroy_ne w e d other) ∙ valid)) [
        | inl (inl same) ↦ absurd (other (sym same))
        | inl (inr m) ↦ inl m
        | inr owner ↦ inr owner
      ]
    ];
  }
    where
      kept : (d : registry.Entity) → e ≢ d → IsPlayer p w d → IsPlayer p (registry.destroy w e) d
      kept d h q = (q.0, destroy_ne w e d h ∙ q.1, q.2)

      not_rest : (d : registry.Entity) → In d rest → e ≢ d
      not_rest d m same =
          once_head registry.same e rest (o.posted_once e) (subst (λ x. In x rest) (sym same) m)
