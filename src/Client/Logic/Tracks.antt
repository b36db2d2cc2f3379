-- ===== src/Client/Logic/Tracks.antt =====
-- client/src/main.cpp: the remote players that the logic thread tracks, and its own.
use game_x.Base.{
  ℕ, ◌≡◌, ◌≢◌, refl, ap, sym, subst, ◌∙◌, ◌⊎◌, inl, inr, true, false, not, ◌&&◌, List, [], ◌∷◌,
  Option, none, some, is_some, arith, ◌==◌, ==_iff, Bool-cases, if◌then◌else◌, if_pos, if_neg,
}
use game_x.Base.Bytes.{Bytes}
use game_x.Ecs.{Registry, IsRegistry}
use game_x.Protocol.{MsgPlayerState}
use game_x.Client.Logic.{
  Transform, Tracked, Logic, origin, set_transform, transform_of, find, erase, is_valid,
  modify_local, handle_auth_ok, track, apply_state, forget,
}
use mathlib.Core.Option

-- The entity is valid and has a Transform.
abbrev pub HasTransform : (r : Registry Tracked) → r.World → r.Entity → Type 0
HasTransform r w e = (c : Tracked) × (r.get w e ≡ some c) × (is_some c.transform ≡ true)

-- Every remote player in the map has an entity of its own, with a Transform, which is not that of the
-- local player; and in the world there is a local player, with a Transform too.
pub record IsTracking {r : Registry Tracked} (st : Logic r) : Type 0 where
  pub remote_there :
      (id : ℕ) (e : r.Entity)
      → find id st.remote_players ≡ some e
      → HasTransform r st.client_registry e
  pub local_there : (e : r.Entity) → st.local_player ≡ some e → HasTransform r st.client_registry e
  pub remote_other :
      (id : ℕ) (e : r.Entity) → find id st.remote_players ≡ some e → st.local_player ≢ some e
  pub remote_unique :
      (i j : ℕ) (e : r.Entity)
      → find i st.remote_players ≡ some e
      → find j st.remote_players ≡ some e
      → i ≡ j
  pub in_world_local : st.in_world ≡ true → is_some st.local_player ≡ true

pub find-erase :
    {E : Type 0} (j id : ℕ) (l : List (ℕ × E))
    → find j (erase id l) ≡ (if j == id then none else find j l)
unfolding find erase
find-erase j id [] = ground arith
find-erase j id ((k, e) ∷ rest) = ground (arith, find-erase j id rest)

same_entity : {E : Type 0} {a b : E} → some a ≡ some b → a ≡ b
same_entity {E} {a} {b} h = Option.some-injective a b h

pub found_cases :
    {E : Type 0} (k j : ℕ) (d e : E) (l : List (ℕ × E))
    → find j ((k, d) ∷ l) ≡ some e
    → ((k ≡ j) × (d ≡ e)) ⊎ ((k ≢ j) × (find j l ≡ some e))
unfolding find
found_cases k j d e l h = elim (Bool-cases (k == j)) [
  | inl same ↦ inl ((==_iff k j).0 same, same_entity (ground arith))
  | inr other ↦ inr (λ q. cc (sym other ∙ (==_iff k j).1 q), ground arith)
]

erased_cases :
    {E : Type 0} (j id : ℕ) (e : E) (l : List (ℕ × E))
    → find j (erase id l) ≡ some e
    → (j ≢ id) × (find j l ≡ some e)
erased_cases j id e l h = elim (Bool-cases (j == id)) [
  | inl same ↦
      let none_left : find j (erase id l) ≡ none = rw (find-erase j id l, same) in
      absurd (cc (sym none_left ∙ h))
  | inr other ↦
      let kept : find j (erase id l) ≡ find j l = rw (find-erase j id l, other) in
      (λ q. cc (sym other ∙ (==_iff j id).1 q), sym kept ∙ h)
]

module _ {r : Registry Tracked} (laws : IsRegistry r) where
  modify-HasTransform :
      (w : r.World) (d e : r.Entity) (t : Transform)
      → HasTransform r w e
      → HasTransform r (r.modify w d (set_transform t)) e
  modify-HasTransform w d e t (c, valid, has) = elim (r.same d e) [
    | yes hit ↦ (
      set_transform t c,
      laws.get-modify w d (set_transform t) e ∙ (if_pos (r.same d e) hit _ _ ∙ rw valid),
      refl,
    )
    | no miss ↦
        (c, laws.get-modify w d (set_transform t) e ∙ (if_neg (r.same d e) miss _ _ ∙ valid), has)
  ]

  create-HasTransform :
      (w : r.World) (a : Tracked) (e : r.Entity)
      → is_some a.transform ≡ true
      → HasTransform r w e
      → HasTransform r (r.create w a).0 e
  create-HasTransform w a e new (c, valid, has) = elim (r.same (r.create w a).1 e) [
    | yes hit ↦ (a, laws.get-create w a e ∙ if_pos (r.same (r.create w a).1 e) hit _ _, new)
    | no miss ↦
        (c, laws.get-create w a e ∙ (if_neg (r.same (r.create w a).1 e) miss _ _ ∙ valid), has)
  ]

  created-HasTransform :
      (w : r.World) (a : Tracked)
      → is_some a.transform ≡ true
      → HasTransform r (r.create w a).0 (r.create w a).1
  created-HasTransform w a new =
      let e = (r.create w a).1 in (a, laws.get-create w a e ∙ if_pos (r.same e e) refl _ _, new)

  created_other :
      (w : r.World) (a : Tracked) (e : r.Entity) → HasTransform r w e → e ≢ (r.create w a).1
  created_other w a e (c, valid, has) same =
      cc (sym (ap (r.get w) same ∙ laws.create_fresh w a) ∙ valid)

  destroy-HasTransform :
      (w : r.World) (d e : r.Entity) → d ≢ e → HasTransform r w e → HasTransform r (r.destroy w d) e
  destroy-HasTransform w d e other (c, valid, has) =
      (c, laws.get-destroy w d e ∙ (if_neg (r.same d e) other _ _ ∙ valid), has)

  pub modified-IsTracking :
      (st : Logic r) (d : r.Entity) (t : Transform)
      → IsTracking st
      → IsTracking (record st { client_registry = r.modify st.client_registry d (set_transform t) })
  modified-IsTracking st d t v = record {
    remote_there = λ id e h. modify-HasTransform st.client_registry d e t (v.remote_there id e h);
    local_there = λ e h. modify-HasTransform st.client_registry d e t (v.local_there e h);
    remote_other = v.remote_other;
    remote_unique = v.remote_unique;
    in_world_local = v.in_world_local;
  }

  pub handle_auth_ok-IsTracking :
      (st : Logic r) (payload : Bytes) → IsTracking st → IsTracking (handle_auth_ok r st payload)
  unfolding handle_auth_ok
  handle_auth_ok-IsTracking st payload v =
      let w = st.client_registry in
      let player : Tracked = record {
        transform = some origin;
        is_local = true;
        is_remote = false;
      } in
      record {
        remote_there = λ id e h. create-HasTransform w player e refl (v.remote_there id e h);
        local_there = λ e h.
            subst (HasTransform r (r.create w player).0) (same_entity h)
              (created-HasTransform w player refl);
        remote_other =
            λ id e h k. created_other w player e (v.remote_there id e h) (sym (same_entity k));
        remote_unique = v.remote_unique;
        in_world_local = λ h. refl;
      }

  track-IsTracking :
      (st : Logic r) (m : MsgPlayerState) (o : Option (r.Entity))
      → find m.character_id st.remote_players ≡ o
      → IsTracking st
      → IsTracking (track r st m o)
  unfolding find
  track-IsTracking st m none new v =
      let w = st.client_registry in
      let remote : Tracked = record {
        transform = some origin;
        is_local = false;
        is_remote = true;
      } in
      let d = (r.create w remote).1 in
      let keeps = λ (e : r.Entity) (there : HasTransform r w e).
        modify-HasTransform (r.create w remote).0 d e (transform_of m)
          (create-HasTransform w remote e refl there) in
      let fresh =
        modify-HasTransform (r.create w remote).0 d d (transform_of m)
          (created-HasTransform w remote refl) in
      record {
        remote_there = λ id e h. elim (found_cases m.character_id id d e st.remote_players h) [
          | inl (same, at) ↦ subst (HasTransform r _) at fresh
          | inr (other, old) ↦ keeps e (v.remote_there id e old)
        ];
        local_there = λ e h. keeps e (v.local_there e h);
        remote_other = λ id e h k. elim (found_cases m.character_id id d e st.remote_players h) [
          | inl (same, at) ↦ created_other w remote e (v.local_there e k) (sym at)
          | inr (other, old) ↦ v.remote_other id e old k
        ];
        remote_unique = λ i j e hi hj.
            elim (found_cases m.character_id i d e st.remote_players hi) [
              | inl (same, at) ↦ elim (found_cases m.character_id j d e st.remote_players hj) [
                | inl (same', at') ↦ sym same ∙ same'
                | inr (other, old) ↦
                    absurd (created_other w remote e (v.remote_there j e old) (sym at))
              ]
              | inr (other, old) ↦ elim (found_cases m.character_id j d e st.remote_players hj) [
                | inl (same', at') ↦
                    absurd (created_other w remote e (v.remote_there i e old) (sym at'))
                | inr (other', old') ↦ v.remote_unique i j e old old'
              ]
            ];
        in_world_local = v.in_world_local;
      }
  track-IsTracking st m (some e) known v = modified-IsTracking st e (transform_of m) v

  local-IsTracking :
      (st : Logic r) (t : Transform) (o : Option (r.Entity))
      → IsTracking st
      → IsTracking (record st { client_registry = modify_local r st.client_registry o t })
  local-IsTracking st t none v = v
  local-IsTracking st t (some e) v = modified-IsTracking st e t v

  pub apply_state-IsTracking :
      (st : Logic r) (m : MsgPlayerState) → IsTracking st → IsTracking (apply_state r st m)
  unfolding apply_state
  apply_state-IsTracking st m v =
      elim (Bool-cases (
        st.in_world
        && (m.character_id == st.local_character_id)
        && is_valid r st.client_registry st.local_player)) [
          | inl own ↦ rw own (local-IsTracking st (transform_of m) st.local_player v)
          | inr not_own ↦
              elim (Bool-cases (st.in_world && not (m.character_id == st.local_character_id))) [
                | inl other ↦
                    rw (not_own, other)
                      (track-IsTracking st m (find m.character_id st.remote_players) refl v)
                | inr nobody ↦ rw (not_own, nobody) v
              ]
        ]

  pub forget-IsTracking :
      (st : Logic r) (id : ℕ) (o : Option (r.Entity))
      → find id st.remote_players ≡ o
      → IsTracking st
      → IsTracking (forget r st id o)
  forget-IsTracking st id none absent v = v
  forget-IsTracking st id (some d) known v =
      let (c, valid, has) = v.remote_there id d known in
      let gone : is_some (r.get st.client_registry d) ≡ true = ap is_some valid in
      let left = λ (j : ℕ) (e : r.Entity) (h : find j (erase id st.remote_players) ≡ some e).
        erased_cases j id e st.remote_players h in
      rw gone (record {
        remote_there = λ j e h.
            let (other, old) = left j e h in
            destroy-HasTransform st.client_registry d e
              (λ same. other (v.remote_unique j id e old (known ∙ ap some same)))
              (v.remote_there j e old);
        local_there = λ e h.
            destroy-HasTransform st.client_registry d e
              (λ same. v.remote_other id e (known ∙ ap some same) h) (v.local_there e h);
        remote_other = λ j e h. v.remote_other j e (left j e h).1;
        remote_unique = λ i j e hi hj. v.remote_unique i j e (left i e hi).1 (left j e hj).1;
        in_world_local = v.in_world_local;
      })
