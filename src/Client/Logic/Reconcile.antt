-- ===== src/Client/Logic/Reconcile.antt =====
-- client/src/main.cpp: where the players stand in the client's world after SMSG_PLAYER_STATE, and who
-- is left after SMSG_PLAYER_LEAVE.
use game_x.Base.{
  ℕ, ◌≡◌, refl, ap, sym, ◌∙◌, true, ◌==◌, ==_iff, none, some, is_some, arith, if◌then◌else◌, inl,
  inr, Option-cases, Bool-cases, if_pos,
}
use game_x.Ecs.{Registry, IsRegistry}
use game_x.Protocol.{MsgPlayerState}
use game_x.Client.Logic.{
  Transform, Tracked, Logic, set_transform, transform_of, find, apply_state, forget,
}
use game_x.Client.Logic.Tracks.{IsTracking, find-erase}

module _ {r : Registry Tracked} (laws : IsRegistry r) where
  -- The entity is valid, and at this place.
  abbrev pub StandsAt : r.World → r.Entity → Transform → Type 0
  StandsAt w e t = (c : Tracked) × (r.get w e ≡ some c) × (c.transform ≡ some t)

  modify-StandsAt :
      (w : r.World) (e : r.Entity) (t : Transform) (c : Tracked)
      → r.get w e ≡ some c
      → StandsAt (r.modify w e (set_transform t)) e t
  modify-StandsAt w e t c valid = (
    set_transform t c,
    laws.get-modify w e (set_transform t) e ∙ (if_pos (r.same e e) refl _ _ ∙ rw valid),
    refl,
  )

  -- In the world, and with the players tracked, the state of the own character moves the own
  -- player's entity to the place of the state.
  pub apply_state_own :
      (st : Logic r) (m : MsgPlayerState)
      → IsTracking st
      → st.in_world ≡ true
      → m.character_id ≡ st.local_character_id
      → (e : r.Entity) × (st.local_player ≡ some e)
        × StandsAt (apply_state r st m).client_registry e (transform_of m)
  unfolding apply_state
  apply_state_own st m v here same = elim (Option-cases st.local_player) [
    | inl nobody ↦ absurd (cc (sym (ap is_some nobody) ∙ v.in_world_local here))
    | inr (e, own) ↦
        let (c, valid, has) = v.local_there e own in
        let snapped : Logic r = record st {
          client_registry = r.modify st.client_registry e (set_transform (transform_of m));
        } in
        let done : apply_state r st m ≡ snapped = ground arith in
        (e, own, rw done (modify-StandsAt st.client_registry e (transform_of m) c valid))
  ]

  -- Once a player has left, the map has no entry for the player, and the entries of all others
  -- stay.
  pub forget_leaves :
      (st : Logic r) (id j : ℕ)
      → find j (forget r st id (find id st.remote_players)).remote_players
        ≡ (if j == id then none else find j st.remote_players)
  forget_leaves st id j = elim (Option-cases (find id st.remote_players)) [
    | inl absent ↦ elim (Bool-cases (j == id)) [
      | inl same ↦
          let here : find j st.remote_players ≡ none =
            ap (λ k. find k st.remote_players) ((==_iff j id).0 same) ∙ absent in
          rw (absent, same) here
      | inr other ↦ rw (absent, other)
    ]
    | inr (e, known) ↦ rw known (find-erase j id st.remote_players)
  ]
