-- ===== src/Database.antt =====
-- The Postgres database behind libpqxx, as an interface: one operation for each SQL statement that
-- server/game/src/main.cpp and server/login/src/main.cpp execute, over the tables of
-- server/login/schema. `none` is an exception of the statement. A transaction works on a copy of
-- the state: what `commit` does not hand back is rolled back, unless the commit is in doubt.
pub mod Tables
use game_x.Base.{ℕ, ◌≡◌, ◌⊎◌, List, ◌∷◌, Option, none, some, Bool, if◌then◌else◌}
use game_x.Base.Bytes.{Bytes}
use game_x.Base.Int.{ℤ}
use game_x.Float.{Float}

-- SELECT sessions.account_id, accounts.username
pub record SessionRow : Type 0 where
  pub account_id : ℤ
  pub username : Bytes

-- SELECT id, pos_x, pos_y, pos_z
pub record CharacterRow : Type 0 where
  pub id : ℤ
  pub pos_x : Float
  pub pos_y : Float
  pub pos_z : Float

-- SELECT id, password_hash
pub record AccountRow : Type 0 where
  pub id : ℤ
  pub password_hash : Bytes

pub record Database : Type 1 where
  pub State : Type 0
  -- The constructor of `pqxx::work`.
  pub begin : State → Option State
  pub commit : State → Option State
  -- Where the commit of this state throws: whether the server has carried it out all the same,
  -- which is `pqxx::in_doubt_error`.
  pub in_doubt : State → Bool
  -- By token, where `expires_at > now()`.
  pub select_session : State → Bytes → Option (List SessionRow)
  pub delete_session : State → Bytes → Option State
  -- By account, `ORDER BY id LIMIT 1`.
  pub select_character : State → ℤ → Option (List CharacterRow)
  -- With an account and a name, `RETURNING` the row.
  pub insert_character : State → ℤ → Bytes → Option (CharacterRow × State)
  pub update_character : State → ℤ → Float → Float → Float → Option State
  -- By username.
  pub select_account : State → Bytes → Option (List AccountRow)
  -- With a token and an account, to expire in five minutes.
  pub insert_session : State → Bytes → ℤ → Option State

-- What a transaction that throws leaves of the state `s`: nothing of what it did or, where its commit
-- was in doubt, all of it. `reached` is the state that it came to commit, if it came so far.
abbrev pub after_throw : (db : Database) → db.State → Option (db.State) → db.State
after_throw db s none = s
after_throw db s (some u) = if db.in_doubt u then u else s

pub record IsDatabase (db : Database) : Type 1 where
  -- The table `sessions` has a row with this token.
  pub HasToken : db.State → Bytes → Type 0
  pub select_session_row :
      (s : db.State) (t : Bytes) (row : SessionRow) (rows : List SessionRow)
      → db.select_session s t ≡ some (row ∷ rows)
      → HasToken s t
  pub delete_session_gone :
      (s s' : db.State) (t : Bytes) → db.delete_session s t ≡ some s' → ¬ HasToken s' t
  pub delete_session_keeps :
      (s s' : db.State) (t u : Bytes)
      → db.delete_session s u ≡ some s'
      → HasToken s' t
      → HasToken s t
  pub begin_keeps :
      (s s' : db.State) (t : Bytes) → db.begin s ≡ some s' → HasToken s' t → HasToken s t
  pub commit_keeps :
      (s s' : db.State) (t : Bytes) → db.commit s ≡ some s' → HasToken s' t → HasToken s t
  pub insert_character_keeps :
      (s s' : db.State) (t : Bytes) (a : ℤ) (name : Bytes) (row : CharacterRow)
      → db.insert_character s a name ≡ some (row, s')
      → HasToken s' t
      → HasToken s t
  pub update_character_keeps :
      (s s' : db.State) (t : Bytes) (id : ℤ) (x y z : Float)
      → db.update_character s id x y z ≡ some s'
      → HasToken s' t
      → HasToken s t
  pub insert_session_adds :
      (s s' : db.State) (t u : Bytes) (a : ℤ)
      → db.insert_session s u a ≡ some s'
      → HasToken s' t
      → (t ≡ u) ⊎ HasToken s t
  -- The table `sessions` has a row with this token and this account. The token is its key.
  pub HasOwner : db.State → Bytes → ℤ → Type 0
  pub select_session_owner :
      (s : db.State) (t : Bytes) (row : SessionRow) (rows : List SessionRow)
      → db.select_session s t ≡ some (row ∷ rows)
      → HasOwner s t row.account_id
  pub insert_session_owner :
      (s s' : db.State) (t : Bytes) (a b : ℤ)
      → db.insert_session s t a ≡ some s'
      → HasOwner s' t b
      → b ≡ a
  pub begin_owner :
      (s s' : db.State) (t : Bytes) (a : ℤ)
      → db.begin s ≡ some s'
      → HasOwner s' t a
      → HasOwner s t a
  pub commit_owner :
      (s s' : db.State) (t : Bytes) (a : ℤ)
      → db.commit s ≡ some s'
      → HasOwner s' t a
      → HasOwner s t a
  -- The table `characters` has this row.
  pub HasCharacter : db.State → CharacterRow → Type 0
  pub select_character_row :
      (s : db.State) (a : ℤ) (row : CharacterRow) (rows : List CharacterRow)
      → db.select_character s a ≡ some (row ∷ rows)
      → HasCharacter s row
  pub update_character_row :
      (s s' : db.State) (id : ℤ) (x y z : Float) (row : CharacterRow)
      → db.update_character s id x y z ≡ some s'
      → HasCharacter s' row
      → row.id ≡ id
      → row ≡ record { id = id; pos_x = x; pos_y = y; pos_z = z }
  pub begin_row :
      (s s' : db.State) (row : CharacterRow)
      → db.begin s ≡ some s'
      → HasCharacter s' row
      → HasCharacter s row
  pub commit_row :
      (s s' : db.State) (row : CharacterRow)
      → db.commit s ≡ some s'
      → HasCharacter s' row
      → HasCharacter s row
  pub delete_session_row :
      (s s' : db.State) (t : Bytes) (row : CharacterRow)
      → db.delete_session s t ≡ some s'
      → HasCharacter s' row
      → HasCharacter s row
