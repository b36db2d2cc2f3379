-- ===== src/Game/Broadcast/Recipients.antt =====
-- server/game/src/main.cpp: who receives what, in both directions.
use game_x.Base.{
  ℕ, ◌≡◌, refl, ap, subst, inl, inr, true, List, [], ◌∷◌, ◌++◌, Option, none, some, Option-cases,
  is_some, In, In-append_left, In-append_right, In-append, filter,
}
use game_x.Base.Bytes.{Bytes}
use game_x.Float.{Float, Fpu}
use game_x.Protocol.{ChatChannel}
use game_x.Game.{Platform, Session, Output, say_range, yell_range}
use game_x.Game.Packets.{chat_packet}
use game_x.Game.Broadcast.{Live, for_sessions, distance_squared, get_username, get_position}

module _ {p : Platform} (live : Live p) (serve : ℕ → Session p → List Output) where
  for_sessions_gone :
      (id : ℕ) (ids : List ℕ)
      → live id ≡ none
      → for_sessions p live serve (id ∷ ids) ≡ for_sessions p live serve ids
  unfolding for_sessions filter
  for_sessions_gone id ids e = rw (e, for_sessions)

  for_sessions_alive :
      (id : ℕ) (ids : List ℕ) (s : Session p)
      → live id ≡ some s
      → for_sessions p live serve (id ∷ ids)
        ≡ (id ∷ (for_sessions p live serve ids).0, serve id s ++ (for_sessions p live serve ids).1)
  unfolding for_sessions filter
  for_sessions_alive id ids s e = rw (e, for_sessions)

  -- `o` is written for a session of the list that is alive.
  abbrev pub Served : List ℕ → Output → Type 0
  Served ids o = (id : ℕ) × (s : Session p) × In id ids × (live id ≡ some s) × In o (serve id s)

  weaken : (id : ℕ) (ids : List ℕ) (o : Output) → Served ids o → Served (id ∷ ids) o
  weaken id ids o (k, s, m, e, h) = (k, s, inr m, e, h)

  pub In-for_sessions :
      (ids : List ℕ) (o : Output) → In o (for_sessions p live serve ids).1 → Served ids o
  unfolding for_sessions filter
  In-for_sessions [] o h = elim h [ ]
  In-for_sessions (id ∷ ids) o h = elim (Option-cases (live id)) [
    | inl gone ↦
        weaken id ids o
          (In-for_sessions ids o (subst (λ r. In o r.1) (for_sessions_gone id ids gone) h))
    | inr (s, here) ↦
        let h' = subst (λ r. In o r.1) (for_sessions_alive id ids s here) h in
        elim (In-append o (serve id s) _ h') [
          | inl now ↦ (id, s, inl refl, here, now)
          | inr later ↦ weaken id ids o (In-for_sessions ids o later)
        ]
  ]

  pub for_sessions-In :
      (ids : List ℕ) (o : Output) → Served ids o → In o (for_sessions p live serve ids).1
  for_sessions-In [] o (k, s, m, e, h) = elim m [ ]
  for_sessions-In (id ∷ ids) o (k, s, inl same, e, h) =
      let here = subst (λ i. live i ≡ some s) same e in
      let now = subst (λ i. In o (serve i s)) same h in
      rw (for_sessions_alive id ids s here) (In-append_left o (serve id s) _ now)
  for_sessions-In (id ∷ ids) o (k, s, inr m, e, h) =
      let rest = for_sessions-In ids o (k, s, m, e, h) in
      elim (Option-cases (live id)) [
        | inl gone ↦ rw (for_sessions_gone id ids gone) rest
        | inr (t, here) ↦
            rw (for_sessions_alive id ids t here) (In-append_right o (serve id t) _ rest)
      ]

  -- The sessions that stay in `g_sessions` are those whose object exists.
  pub for_sessions-kept :
      (ids : List ℕ) → (for_sessions p live serve ids).0 ≡ filter (λ id. is_some (live id)) ids
  unfolding for_sessions filter
  for_sessions-kept [] = refl
  for_sessions-kept (id ∷ ids) = elim (Option-cases (live id)) [
    | inl gone ↦ rw (for_sessions_gone id ids gone, gone) (for_sessions-kept ids)
    | inr (s, here) ↦
        rw (for_sessions_alive id ids s here, here) (ap (◌∷◌ id) (for_sessions-kept ids))
  ]

-- The position is within `range` of the point.
abbrev pub IsNear : Fpu → Float → Float → Float → Option (Float × Float) → Type 0
IsNear fpu range x z o =
    (at : Float × Float) × (o ≡ some at)
    × (fpu.le (distance_squared fpu at.0 at.1 x z) (fpu.mul range range) ≡ true)

module _ {p : Platform} (w : p.registry.World) where
  -- Who a message is for.
  abbrev pub Audience : Option ChatChannel → Float → Float → Bytes → Session p → Type 0
  Audience (some ChatChannel.whisper) x z target s = get_username p w s ≡ some target
  Audience (some ChatChannel.say) x z target s = IsNear p.fpu say_range x z (get_position p w s)
  Audience (some ChatChannel.yell) x z target s = IsNear p.fpu yell_range x z (get_position p w s)
  Audience (some ChatChannel.guild) x z target s = ⊥
  Audience none x z target s = ⊥

  -- The write of a message to a session that stands in `g_sessions`, is alive and is addressed.
  abbrev pub Delivered :
      Live p → ℕ → Bytes → Bytes → (Session p → Type 0) → List ℕ → Output → Type 0
  Delivered live code sender message audience ids o =
      (id : ℕ) × (s : Session p) × In id ids
      × (live id ≡ some s)
      × audience s
      × (o ≡ Output.write id (chat_packet code sender message))
