-- ===== src/Game/Auth/SingleUse.antt =====
-- server/game/src/main.cpp: no handler brings a session token back, so a token opens the world once.
use game_x.Base.{
  ◌≡◌, sym, refl, ap, ◌∙◌, subst, inl, inr, List, [], ◌∷◌, Option, none, some, >>=-eq-some,
  Option-cases, Bool-cases, true, false, if◌then◌else◌,
}
use game_x.Base.Bytes.{Bytes}
use game_x.Base.Int.{ℤ, is_negative}
use game_x.Float.{Float}
use game_x.Database.{after_throw, Database, IsDatabase, SessionRow, CharacterRow}
use game_x.Game.World.{save_transaction, save_character, save_failed, or_failed}
use game_x.Game.Auth.{
  Login, authenticate, redeem, first_or_create, redeem_reached, authenticate_reached,
  authenticate_failed,
}

module _ {db : Database} (laws : IsDatabase db) where
  open laws use {HasToken}

  -- A token that stands in the later state stood in the earlier one.
  abbrev pub Keeps : Bytes → db.State → db.State → Type 0
  Keeps t s s' = HasToken s' t → HasToken s t

  save_transaction-Keeps :
      (t : Bytes) (s s' : db.State) (id : ℤ) (x y z : Float)
      → save_transaction db s id x y z ≡ some s'
      → Keeps t s s'
  unfolding save_transaction
  save_transaction-Keeps t s s' id x y z h k =
      let (a, ea, ra) = >>=-eq-some (db.begin s) _ h in
      let (b, eb, eb') = >>=-eq-some (db.update_character a id x y z) _ ra in
      laws.begin_keeps s a t ea
        (laws.update_character_keeps a b t id x y z eb (laws.commit_keeps b s' t eb' k))

  pub or_failed-Keeps :
      (t : Bytes) (s failed : db.State) (o : Option (db.State))
      → Keeps t s failed
      → ((s' : db.State) → o ≡ some s' → Keeps t s s')
      → Keeps t s (or_failed failed o)
  or_failed-Keeps t s failed none f h = f
  or_failed-Keeps t s failed (some s') f h = h s' refl

  -- Whether the commit was carried out or not.
  pub after_throw-Keeps :
      (t : Bytes) (s : db.State) (o : Option (db.State))
      → ((u : db.State) → o ≡ some u → Keeps t s u)
      → Keeps t s (after_throw db s o)
  after_throw-Keeps t s none h = λ k. k
  after_throw-Keeps t s (some u) h = elim (db.in_doubt u) as (λ b. Keeps t s (if b then u else s)) [
    | true ↦ h u refl
    | false ↦ λ k. k
  ]

  save_failed-Keeps :
      (t : Bytes) (s : db.State) (id : ℤ) (x y z : Float) → Keeps t s (save_failed db s id x y z)
  unfolding save_failed
  save_failed-Keeps t s id x y z = after_throw-Keeps t s _ λ u h k.
      let (a, ea, eu) = >>=-eq-some (db.begin s) _ h in
      laws.begin_keeps s a t ea (laws.update_character_keeps a u t id x y z eu k)

  pub save_character-Keeps :
      (t : Bytes) (s : db.State) (id : ℤ) (x y z : Float) → Keeps t s (save_character db s id x y z)
  unfolding save_character
  save_character-Keeps t s id x y z = elim (Bool-cases (is_negative id)) [
    | inl n ↦ rw n (λ k. k)
    | inr n ↦ rw n (
        or_failed-Keeps t s (save_failed db s id x y z) _ (save_failed-Keeps t s id x y z)
          (λ s' e. save_transaction-Keeps t s s' id x y z e))
  ]

  first_or_create-Keeps :
      (t : Bytes) (s s' : db.State) (a : ℤ) (name : Bytes) (rows : List CharacterRow)
      (c : CharacterRow)
      → first_or_create db s a name rows ≡ some (c, s')
      → Keeps t s s'
  first_or_create-Keeps t s s' a name [] c h = laws.insert_character_keeps s s' t a name c h
  first_or_create-Keeps t s s' a name (row ∷ rows) c h = subst (λ v. Keeps t s v) (cc) (λ k. k)

  -- The transaction that succeeds takes the token away, and brings no other.
  redeem-Keeps :
      (t u : Bytes) (s s' : db.State) (rows : List SessionRow) (l : Login)
      → redeem db s u rows ≡ some (l, s')
      → Keeps t s s' × ¬ HasToken s' u
  redeem-Keeps t u s s' [] l h = cc
  redeem-Keeps t u s s' (row ∷ rows) l h =
      let (a, ea, ra) = >>=-eq-some (db.delete_session s u) _ h in
      let (chars, ec, rc) = >>=-eq-some (db.select_character a row.account_id) _ ra in
      let (found, eb, rb) =
        >>=-eq-some (first_or_create db a row.account_id row.username chars) _ rc in
      let (v, ev, rv) = >>=-eq-some (db.commit found.1) _ rb in
      let same : v ≡ s' = cc in
      let committed : db.commit found.1 ≡ some s' = ev ∙ ap some same in
      let back : (w : Bytes) → Keeps w a s' = λ w k.
        first_or_create-Keeps w a found.1 row.account_id row.username chars found.0 eb
          (laws.commit_keeps found.1 s' w committed k) in
      (
        λ k. laws.delete_session_keeps s a t u ea (back t k),
        λ k. laws.delete_session_gone s a u ea (back u k),
      )

  pub authenticate-Keeps :
      (t u : Bytes) (s s' : db.State) (l : Login)
      → authenticate db s u ≡ some (l, s')
      → Keeps t s s' × ¬ HasToken s' u
  unfolding authenticate
  authenticate-Keeps t u s s' l h =
      let (a, ea, ra) = >>=-eq-some (db.begin s) _ h in
      let (rows, er, rr) = >>=-eq-some (db.select_session a u) _ ra in
      let (keeps, gone) = redeem-Keeps t u a s' rows l rr in
      (λ k. laws.begin_keeps s a t ea (keeps k), gone)

  redeem-HasToken :
      (u : Bytes) (s : db.State) (rows : List SessionRow) {r : Login × db.State}
      → db.select_session s u ≡ some rows
      → redeem db s u rows ≡ some r
      → HasToken s u
  redeem-HasToken u s [] e h = cc
  redeem-HasToken u s (row ∷ rows) e h = laws.select_session_row s u row rows e

  -- Only a token that stands in the table is accepted.
  pub authenticate-HasToken :
      (u : Bytes) (s : db.State) {r : Login × db.State}
      → authenticate db s u ≡ some r
      → HasToken s u
  unfolding authenticate
  authenticate-HasToken u s h =
      let (a, ea, ra) = >>=-eq-some (db.begin s) _ h in
      let (rows, er, rr) = >>=-eq-some (db.select_session a u) _ ra in
      laws.begin_keeps s a u ea (redeem-HasToken u a rows er rr)

  redeem_reached-Keeps :
      (t u : Bytes) (s v : db.State) (rows : List SessionRow)
      → redeem_reached db s u rows ≡ some v
      → Keeps t s v
  redeem_reached-Keeps t u s v [] h k = cc
  redeem_reached-Keeps t u s v (row ∷ rows) h k =
      let (a, ea, ra) = >>=-eq-some (db.delete_session s u) _ h in
      let (chars, ec, rc) = >>=-eq-some (db.select_character a row.account_id) _ ra in
      let (found, eb, rb) =
        >>=-eq-some (first_or_create db a row.account_id row.username chars) _ rc in
      let same : found.1 ≡ v = cc in
      laws.delete_session_keeps s a t u ea (
        first_or_create-Keeps t a found.1 row.account_id row.username chars found.0 eb
          (subst (λ w. HasToken w t) (sym same) k))

  -- A transaction that fails brings no token back either, whatever its commit has done.
  pub authenticate_failed-Keeps :
      (t u : Bytes) (s : db.State) → Keeps t s (authenticate_failed db s u)
  unfolding authenticate_failed authenticate_reached
  authenticate_failed-Keeps t u s = after_throw-Keeps t s (authenticate_reached db s u) λ v h k.
      let (a, ea, ra) = >>=-eq-some (db.begin s) _ h in
      let (rows, er, rr) = >>=-eq-some (db.select_session a u) _ ra in
      laws.begin_keeps s a t ea (redeem_reached-Keeps t u a v rows rr k)

  redeem_reached-HasToken :
      (u : Bytes) (s v : db.State) (rows : List SessionRow)
      → db.select_session s u ≡ some rows
      → redeem_reached db s u rows ≡ some v
      → HasToken s u
  redeem_reached-HasToken u s v [] e h = cc
  redeem_reached-HasToken u s v (row ∷ rows) e h = laws.select_session_row s u row rows e

  -- With a token that does not stand in the table nothing comes to a commit.
  pub authenticate_failed_unknown :
      (u : Bytes) (s : db.State) → ¬ HasToken s u → authenticate_failed db s u ≡ s
  unfolding authenticate_failed authenticate_reached
  authenticate_failed_unknown u s gone = elim (Option-cases (authenticate_reached db s u)) [
    | inl e ↦ ap (after_throw db s) e
    | inr (v, h) ↦
        let (a, ea, ra) = >>=-eq-some (db.begin s) _ h in
        let (rows, er, rr) = >>=-eq-some (db.select_session a u) _ ra in
        absurd (gone (laws.begin_keeps s a u ea (redeem_reached-HasToken u a v rows er rr)))
  ]

  pub authenticate_unknown :
      (u : Bytes) (s : db.State) → ¬ HasToken s u → authenticate db s u ≡ none
  authenticate_unknown u s gone = elim (Option-cases (authenticate db s u)) [
    | inl e ↦ e
    | inr (r, e) ↦ absurd (gone (authenticate-HasToken u s e))
  ]
