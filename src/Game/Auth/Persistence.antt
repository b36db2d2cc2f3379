-- ===== src/Game/Auth/Persistence.antt =====
-- server/game/src/main.cpp: where `handle_auth` gets the account and the character that it spawns.
use game_x.Base.{◌≡◌, ap, ◌∙◌, ◌⊎◌, inl, inr, List, [], ◌∷◌, some, >>=-eq-some}
use game_x.Base.Bytes.{Bytes}
use game_x.Base.Int.{ℤ}
use game_x.Float.{Float}
use game_x.Database.{Database, IsDatabase, SessionRow, CharacterRow}
use game_x.Game.Auth.{Login, authenticate, redeem, first_or_create}

module _ (db : Database) where
  -- The account's first character, or one that is inserted because there is none.
  abbrev pub IsFirstOrNew : db.State → ℤ → Bytes → List CharacterRow → CharacterRow → Type 0
  IsFirstOrNew t account name rows c =
      ((rest : List CharacterRow) × (rows ≡ c ∷ rest))
      ⊎ ((rows ≡ []) × (u : db.State) × (db.insert_character t account name ≡ some (c, u)))

  -- In the transaction that trades the token in the state `s`, the token belongs to the account,
  -- and `c` is what is found or made for it once the token is deleted.
  pub record IsOf (s : db.State) (token : Bytes) (account : ℤ) (c : CharacterRow) : Type 0 where
    pub opened : db.State
    pub deleted : db.State
    pub username : Bytes
    pub others : List SessionRow
    pub rows : List CharacterRow
    pub begins : db.begin s ≡ some opened
    pub owns :
        db.select_session opened token
        ≡ some (record { account_id = account; username = username } ∷ others)
    pub deletes : db.delete_session opened token ≡ some deleted
    pub selects : db.select_character deleted account ≡ some rows
    pub chosen : IsFirstOrNew deleted account username rows c

  first_or_create-IsFirstOrNew :
      (t u : db.State) (account : ℤ) (name : Bytes) (rows : List CharacterRow) (c : CharacterRow)
      → first_or_create db t account name rows ≡ some (c, u)
      → IsFirstOrNew t account name rows c
  first_or_create-IsFirstOrNew t u account name [] c h = inr (cc, u, h)
  first_or_create-IsFirstOrNew t u account name (row ∷ rows) c h = inl (rows, cc)

  redeem-IsOf :
      (s a s' : db.State) (token : Bytes) (rows : List SessionRow) (l : Login)
      → db.begin s ≡ some a
      → db.select_session a token ≡ some rows
      → redeem db a token rows ≡ some (l, s')
      → (account : ℤ) × IsOf s token account l.character
  redeem-IsOf s a s' token [] l b e h = cc
  redeem-IsOf s a s' token (row ∷ rows) l b e h =
      let (t, et, rt) = >>=-eq-some (db.delete_session a token) _ h in
      let (chars, ec, rc) = >>=-eq-some (db.select_character t row.account_id) _ rt in
      let (found, eb, rb) =
        >>=-eq-some (first_or_create db t row.account_id row.username chars) _ rc in
      let (v, ev, rv) = >>=-eq-some (db.commit found.1) _ rb in
      let same : found.0 ≡ l.character = cc in
      (
        row.account_id,
        record {
          opened = a;
          deleted = t;
          username = row.username;
          others = rows;
          rows = chars;
          begins = b;
          owns = e;
          deletes = et;
          selects = ec;
          chosen =
              first_or_create-IsFirstOrNew t found.1 row.account_id row.username chars l.character
                (eb ∙ ap (λ c. some (c, found.1)) same);
        },
      )

  pub authenticate-IsOf :
      (s s' : db.State) (token : Bytes) (l : Login)
      → authenticate db s token ≡ some (l, s')
      → (account : ℤ) × IsOf s token account l.character
  unfolding authenticate
  authenticate-IsOf s s' token l h =
      let (a, ea, ra) = >>=-eq-some (db.begin s) _ h in
      let (rows, er, rr) = >>=-eq-some (db.select_session a token) _ ra in
      redeem-IsOf s a s' token rows l ea er rr

module _ {db : Database} (laws : IsDatabase db) where
  open laws use {HasOwner, HasCharacter}

  pub IsOf-HasOwner :
      (s : db.State) (token : Bytes) (account : ℤ) (c : CharacterRow)
      → IsOf db s token account c
      → HasOwner s token account
  IsOf-HasOwner s token account c o =
      laws.begin_owner s o.opened token account o.begins
        (laws.select_session_owner o.opened token _ o.others o.owns)
