-- ===== src/Game/Step/Transfer.antt =====
-- server/game/src/main.cpp: every way in which the strand changes sessions, entities and posted
-- clean-ups keeps the ownership of entities in order.
use game_x.Base.{
  ℕ, ◌≡◌, ◌≢◌, sym, ap, subst, ◌∙◌, inl, inr, true, false, List, none, some, Bool-cases, arith,
  ◌==◌, ==_iff, In,
}
use game_x.Game.{Platform, Session, put_session}
use game_x.Game.Broadcast.{Live}
use game_x.Game.Process.{is_waiting}
use game_x.Game.Step.{fresh_session, post_cleanup}
use game_x.Game.Step.Posted.{In-post_cleanup, post_cleanup-In, occurrences-post_cleanup}
use game_x.Game.Step.Ownership.{
  put_session-cases, put_session_self, put_session_ne, SameSessions, SameEntities, IsPlayer, Owns,
}

-- A session that waits has no entity; a session with an entity plays.
module _ {p : Platform} where
  -- A session that has just connected plays no part in ownership.
  fresh_owns_nothing :
      (t : Session p) (e : p.registry.Entity) → some fresh_session ≡ some t → t.entity ≢ some e
  fresh_owns_nothing t e h has = cc

  fresh_waits : (t : Session p) → some fresh_session ≡ some t → is_waiting t.state ≢ false
  fresh_waits t h play = ground arith

  slot_taken :
      (live : Live p) (id i : ℕ) (s : Session p) → live id ≡ none → live i ≡ some s → i ≢ id
  slot_taken live id i s free here same = cc (sym free ∙ (ap live (sym same) ∙ here))

module _ {p : Platform} {w : p.registry.World} {live : Live p} {posted : List (p.registry.Entity)}
    (o : Owns p w live posted) where
  pub Owns-SameSessions : {live' : Live p} → SameSessions live live' → Owns p w live' posted
  Owns-SameSessions r = record {
    waiting_bare = λ i t h wait.
        let (u, here, st, en) = r.back i t h in
        en ∙ o.waiting_bare i u here (ap is_waiting (sym st) ∙ wait);
    playing = λ i t h play.
        let (u, here, st, en) = r.back i t h in
        let (e, has) = o.playing i u here (ap is_waiting (sym st) ∙ play) in (e, en ∙ has);
    owned_player = λ i t e h has.
        let (u, here, st, en) = r.back i t h in o.owned_player i u e here (sym en ∙ has);
    owner_unique = λ i j s t e hi hj ei ej.
        let (u, here, st, en) = r.back i s hi in
        let (v, there, st', en') = r.back j t hj in
        o.owner_unique i j u v e here there (sym en ∙ ei) (sym en' ∙ ej);
    posted_player = o.posted_player;
    posted_free = λ e i t m h has.
        let (u, here, st, en) = r.back i t h in o.posted_free e i u m here (sym en ∙ has);
    posted_once = o.posted_once;
    no_leak = λ e c valid. elim (o.no_leak e c valid) [
      | inl m ↦ inl m
      | inr (i, u, here, has) ↦
          let (t, there, st, en) = r.forth i u here in inr (i, t, there, en ∙ has)
    ];
  }

  pub Owns-SameEntities : {w' : p.registry.World} → SameEntities p w w' → Owns p w' live posted
  Owns-SameEntities {w'} r = record {
    waiting_bare = o.waiting_bare;
    playing = o.playing;
    owned_player = λ i s e here has. kept e (o.owned_player i s e here has);
    owner_unique = o.owner_unique;
    posted_player = λ e m. kept e (o.posted_player e m);
    posted_free = o.posted_free;
    posted_once = o.posted_once;
    no_leak = λ e c' valid. let (c, before) = r.back e c' valid in o.no_leak e c before;
  }
    where
      kept : (e : p.registry.Entity) → IsPlayer p w e → IsPlayer p w' e
      kept e q = r.forth e q.0 q.1 q.2

  -- `start_accept`.
  pub Owns-accept :
      (id : ℕ) → live id ≡ none → Owns p w (put_session live id (some fresh_session)) posted
  Owns-accept id free = record {
    waiting_bare = λ i t h wait. elim (put_session-cases live id i _ t h) [
      | inl (same, e) ↦ ground arith
      | inr (other, here) ↦ o.waiting_bare i t here wait
    ];
    playing = λ i t h play. elim (put_session-cases live id i _ t h) [
      | inl (same, e) ↦ absurd (fresh_waits t e play)
      | inr (other, here) ↦ o.playing i t here play
    ];
    owned_player = λ i t e h has. elim (put_session-cases live id i _ t h) [
      | inl (same, e') ↦ absurd (fresh_owns_nothing t e e' has)
      | inr (other, here) ↦ o.owned_player i t e here has
    ];
    owner_unique = λ i j s t e hi hj ei ej. elim (put_session-cases live id i _ s hi) [
      | inl (same, e') ↦ absurd (fresh_owns_nothing s e e' ei)
      | inr (other, here) ↦ elim (put_session-cases live id j _ t hj) [
        | inl (same', e'') ↦ absurd (fresh_owns_nothing t e e'' ej)
        | inr (other', there) ↦ o.owner_unique i j s t e here there ei ej
      ]
    ];
    posted_player = o.posted_player;
    posted_free = λ e i t m h has. elim (put_session-cases live id i _ t h) [
      | inl (same, e') ↦ fresh_owns_nothing t e e' has
      | inr (other, here) ↦ o.posted_free e i t m here has
    ];
    posted_once = o.posted_once;
    no_leak = λ e c valid. elim (o.no_leak e c valid) [
      | inl m ↦ inl m
      | inr (i, s, here, has) ↦
          inr (i, s, put_session_ne live id i _ (slot_taken live id i s free here) ∙ here, has)
    ];
  }

module _ {p : Platform} {w : p.registry.World} {live : Live p} {posted : List (p.registry.Entity)}
    (o : Owns p w live posted) where
  -- `handle_auth` gives a session that waits a new and complete entity.
  pub Owns-enter :
      {w' : p.registry.World} (id : ℕ) (s s' : Session p) (new : p.registry.Entity)
      → live id ≡ some s
      → is_waiting s.state ≡ true
      → is_waiting s'.state ≡ false
      → s'.entity ≡ some new
      → p.registry.get w new ≡ none
      → IsPlayer p w' new
      → ((e : p.registry.Entity) → new ≢ e → p.registry.get w' e ≡ p.registry.get w e)
      → Owns p w' (put_session live id (some s')) posted
  Owns-enter {w'} id s s' new here wait play owns fresh player elsewhere = record {
    waiting_bare = λ i t h wt. elim (put_session-cases live id i _ t h) [
      | inl (same, e) ↦ ground arith
      | inr (other, there) ↦ o.waiting_bare i t there wt
    ];
    playing = λ i t h pl. elim (put_session-cases live id i _ t h) [
      | inl (same, e) ↦ (new, ground arith)
      | inr (other, there) ↦ o.playing i t there pl
    ];
    owned_player = λ i t e h has. elim (put_session-cases live id i _ t h) [
      | inl (same, e') ↦ let mine : new ≡ e = ground arith in subst (IsPlayer p w') mine player
      | inr (other, there) ↦ carried e (o.owned_player i t e there has)
    ];
    owner_unique = λ i j t u e hi hj ei ej. elim (put_session-cases live id i _ t hi) [
      | inl (same, e') ↦ elim (put_session-cases live id j _ u hj) [
        | inl (same', e'') ↦ same ∙ sym same'
        | inr (other', there) ↦
            let mine : new ≡ e = ground arith in
            absurd (not_new e (o.owned_player j u e there ej) mine)
      ]
      | inr (other, there) ↦ elim (put_session-cases live id j _ u hj) [
        | inl (same', e'') ↦
            let mine : new ≡ e = ground arith in
            absurd (not_new e (o.owned_player i t e there ei) mine)
        | inr (other', there') ↦ o.owner_unique i j t u e there there' ei ej
      ]
    ];
    posted_player = λ e m. carried e (o.posted_player e m);
    posted_free = λ e i t m h has. elim (put_session-cases live id i _ t h) [
      | inl (same, e') ↦ let mine : new ≡ e = ground arith in not_new e (o.posted_player e m) mine
      | inr (other, there) ↦ o.posted_free e i t m there has
    ];
    posted_once = o.posted_once;
    no_leak = λ e c valid. elim (p.registry.same new e) [
      | yes mine ↦ inr (id, s', put_session_self live id _, owns ∙ ap some mine)
      | no other ↦ elim (o.no_leak e c (sym (elsewhere e other) ∙ valid)) [
        | inl m ↦ inl m
        | inr (i, t, there, has) ↦
            inr (i, t, put_session_ne live id i _ (not_id i t e there has) ∙ there, has)
      ]
    ];
  }
    where
      not_new : (e : p.registry.Entity) → IsPlayer p w e → new ≢ e
      not_new e q mine = cc (sym fresh ∙ (ap (p.registry.get w) mine ∙ q.1))

      carried : (e : p.registry.Entity) → IsPlayer p w e → IsPlayer p w' e
      carried e q = (q.0, elsewhere e (not_new e q) ∙ q.1, q.2)

      not_id :
          (i : ℕ) (t : Session p) (e : p.registry.Entity)
          → live i ≡ some t
          → t.entity ≡ some e
          → i ≢ id
      not_id i t e there has same =
          let bare = o.waiting_bare id s here wait in
          let one : some t ≡ some s = sym there ∙ (ap live same ∙ here) in ground arith

  -- `~PlayerSession` hands the entity over to the task that it posts.
  pub Owns-drop :
      (id : ℕ) (s : Session p)
      → live id ≡ some s
      → Owns p w (put_session live id none) (post_cleanup posted s.entity)
  Owns-drop id s here = record {
    waiting_bare = λ i t h wt. o.waiting_bare i t (before i t h) wt;
    playing = λ i t h pl. o.playing i t (before i t h) pl;
    owned_player = λ i t e h has. o.owned_player i t e (before i t h) has;
    owner_unique =
        λ i j t u e hi hj ei ej. o.owner_unique i j t u e (before i t hi) (before j u hj) ei ej;
    posted_player = λ e m. elim (In-post_cleanup e posted s.entity m) [
      | inl old ↦ o.posted_player e old
      | inr mine ↦ o.owned_player id s e here mine
    ];
    posted_free = λ e i t m h has. elim (In-post_cleanup e posted s.entity m) [
      | inl old ↦ o.posted_free e i t old (before i t h) has
      | inr mine ↦ gone i t h (o.owner_unique i id t s e (before i t h) here has mine)
    ];
    posted_once = λ e.
        occurrences-post_cleanup p.registry.same e posted s.entity (o.posted_once e)
          (λ mine. not_posted e mine);
    no_leak = λ e c valid. elim (o.no_leak e c valid) [
      | inl m ↦ inl (post_cleanup-In e posted s.entity (inl m))
      | inr (i, t, there, has) ↦ elim (Bool-cases (i == id)) [
        | inl same ↦
            let one : some s ≡ some t = sym here ∙ (ap live (sym ((==_iff i id).0 same)) ∙ there) in
            inl (post_cleanup-In e posted s.entity (inr (ground arith)))
        | inr other ↦ inr (i, t, rw other there, has)
      ]
    ];
  }
    where
      before : (i : ℕ) (t : Session p) → put_session live id none i ≡ some t → live i ≡ some t
      before i t h = elim (put_session-cases live id i none t h) [
        | inl (same, e) ↦ cc
        | inr (other, there) ↦ there
      ]

      gone : (i : ℕ) (t : Session p) → put_session live id none i ≡ some t → i ≢ id
      gone i t h same =
          cc (sym (put_session_self live id none) ∙ (ap (put_session live id none) (sym same) ∙ h))

      not_posted : (e : p.registry.Entity) → s.entity ≡ some e → ¬ In e posted
      not_posted e mine m = o.posted_free e id s m here mine
