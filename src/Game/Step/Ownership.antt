-- ===== src/Game/Step/Ownership.antt =====
-- server/game/src/main.cpp: who owns an entity. The sessions that play own one complete entity each,
-- and an entity that no session owns waits for the clean-up that a destructor has posted.
use game_x.Base.{
  ℕ, ◌≤◌, ◌≡◌, ◌≢◌, refl, sym, ap, ◌∙◌, ◌⊎◌, inl, inr, true, false, List, Option, none, some,
  Bool-cases, arith, ◌==◌, ==_iff, ==_refl, is_some, In,
}
use game_x.Ecs.{occurrences}
use game_x.Game.{Components, Platform, Session, put_session}
use game_x.Game.Broadcast.{Live}
use game_x.Game.Process.{is_waiting}

pub record IsComplete (c : Components) : Type 0 where
  pub has_data : is_some c.data_of ≡ true
  pub has_position : is_some c.position ≡ true
  pub has_input : is_some c.input ≡ true

module _ {p : Platform} where
  pub put_session-cases :
      (live : Live p) (id k : ℕ) (o : Option (Session p)) (t : Session p)
      → put_session live id o k ≡ some t
      → ((k ≡ id) × (o ≡ some t)) ⊎ ((k ≢ id) × (live k ≡ some t))
  put_session-cases live id k o t h = elim (Bool-cases (k == id)) [
    | inl same ↦ inl ((==_iff k id).0 same, ground arith)
    | inr other ↦ inr (λ e. cc (sym other ∙ (==_iff k id).1 e), ground arith)
  ]

  pub put_session_self :
      (live : Live p) (id : ℕ) (o : Option (Session p)) → put_session live id o id ≡ o
  put_session_self live id o = rw (==_refl id)

  pub put_session_ne :
      (live : Live p) (id k : ℕ) (o : Option (Session p))
      → k ≢ id
      → put_session live id o k ≡ live k
  put_session_ne live id k o h = elim (Bool-cases (k == id)) [
    | inl same ↦ absurd (h ((==_iff k id).0 same))
    | inr other ↦ rw other
  ]

  -- The two tables hold the same sessions, but for what is read from and told of the sockets.
  pub record SameSessions (live live' : Live p) : Type 0 where
    pub back :
        (k : ℕ) (t : Session p)
        → live' k ≡ some t
        → (u : Session p) × (live k ≡ some u) × (t.state ≡ u.state) × (t.entity ≡ u.entity)
    pub forth :
        (k : ℕ) (u : Session p)
        → live k ≡ some u
        → (t : Session p) × (live' k ≡ some t) × (t.state ≡ u.state) × (t.entity ≡ u.entity)

  pub put_session-SameSessions :
      (live : Live p) (id : ℕ) (s s' : Session p)
      → live id ≡ some s
      → s'.state ≡ s.state
      → s'.entity ≡ s.entity
      → SameSessions live (put_session live id (some s'))
  put_session-SameSessions live id s s' here st en = record {
    back = λ k t h. elim (put_session-cases live id k (some s') t h) [
      | inl (same, e) ↦ (s, ap live same ∙ here, ground arith, ground arith)
      | inr (other, e) ↦ (t, e, refl, refl)
    ];
    forth = λ k u h. elim (Bool-cases (k == id)) [
      | inl same ↦
          let e = (==_iff k id).0 same in
          let same_session : some s ≡ some u = sym here ∙ (ap live (sym e) ∙ h) in
          (s', rw same, ground arith, ground arith)
      | inr other ↦ (u, rw other h, refl, refl)
    ];
  }

module _ (p : Platform) where
  -- Every entity that is valid and complete in the first world is so in the second, and the second
  -- has no others.
  pub record SameEntities (w w' : p.registry.World) : Type 0 where
    pub back :
        (e : p.registry.Entity) (c' : Components)
        → p.registry.get w' e ≡ some c'
        → (c : Components) × (p.registry.get w e ≡ some c)
    pub forth :
        (e : p.registry.Entity) (c : Components)
        → p.registry.get w e ≡ some c
        → IsComplete c
        → (c' : Components) × (p.registry.get w' e ≡ some c') × IsComplete c'

  abbrev pub IsPlayer : p.registry.World → p.registry.Entity → Type 0
  IsPlayer w e = (c : Components) × (p.registry.get w e ≡ some c) × IsComplete c

  pub record Owns (w : p.registry.World) (live : Live p) (posted : List (p.registry.Entity))
      : Type 0 where
    pub waiting_bare :
        (i : ℕ) (s : Session p) → live i ≡ some s → is_waiting s.state ≡ true → s.entity ≡ none
    pub playing :
        (i : ℕ) (s : Session p)
        → live i ≡ some s
        → is_waiting s.state ≡ false
        → (e : p.registry.Entity) × (s.entity ≡ some e)
    pub owned_player :
        (i : ℕ) (s : Session p) (e : p.registry.Entity)
        → live i ≡ some s
        → s.entity ≡ some e
        → IsPlayer w e
    pub owner_unique :
        (i j : ℕ) (s t : Session p) (e : p.registry.Entity)
        → live i ≡ some s
        → live j ≡ some t
        → s.entity ≡ some e
        → t.entity ≡ some e
        → i ≡ j
    pub posted_player : (e : p.registry.Entity) → In e posted → IsPlayer w e
    pub posted_free :
        (e : p.registry.Entity) (i : ℕ) (s : Session p)
        → In e posted
        → live i ≡ some s
        → s.entity ≢ some e
    pub posted_once : (e : p.registry.Entity) → occurrences p.registry.same e posted ≤ 1
    pub no_leak :
        (e : p.registry.Entity) (c : Components)
        → p.registry.get w e ≡ some c
        → In e posted ⊎ ((i : ℕ) × (s : Session p) × (live i ≡ some s) × (s.entity ≡ some e))
