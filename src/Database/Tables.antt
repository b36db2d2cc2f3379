-- ===== src/Database/Tables.antt =====
-- Tables in memory that answer the SQL statements over the schema of server/login/schema: unique
-- keys, the reference to an account, the expiry of a token. The examples run on them. Times are
-- seconds.
pub mod Laws
use game_x.Base.{
  ℕ, ◌+◌, ◌≡◌, refl, ap, sym, ◌∙◌, ◌⊎◌, inl, inr, Bool, true, false, not, ◌&&◌, ◌||◌, List, [], ◌∷◌,
  ◌++◌, Option, none, some, if◌then◌else◌, ltb, length, arith, subst, Bool-cases,
}
use game_x.Base.Bytes.{Bytes, same_text, same_text-eq, same_text_refl}
use game_x.Base.Int.{ℤ, pos, same_int, same_int_refl}
use mathlib.Core.Option
use mathlib.Core.Bool.{false≢true}
use game_x.Database.{Database, IsDatabase, SessionRow, CharacterRow, AccountRow}

pub record Account : Type 0 where
  pub id : ℤ
  pub username : Bytes
  pub password_hash : Bytes

pub record Token : Type 0 where
  pub token : Bytes
  pub account_id : ℤ
  pub expires_at : ℕ

pub record Character : Type 0 where
  pub account_id : ℤ
  pub name : Bytes
  pub row : CharacterRow

pub record Tables : Type 0 where
  pub now : ℕ
  pub accounts : List Account
  pub sessions : List Token
  pub characters : List Character
  pub next_character : ℕ

-- The accounts that a session row is joined with.
abbrev pub owners : List Account → ℤ → List SessionRow
owners [] id = []
owners (a ∷ as') id =
    if same_int a.id id
    then record { account_id = id; username = a.username } ∷ owners as' id
    else owners as' id

abbrev pub joined : ℕ → List Account → List Token → Bytes → List SessionRow
joined now accounts [] t = []
joined now accounts (r ∷ rs) t =
    if same_text r.token t && ltb now r.expires_at
    then owners accounts r.account_id ++ joined now accounts rs t
    else joined now accounts rs t

abbrev pub without : Bytes → List Token → List Token
without t [] = []
without t (r ∷ rs) = if same_text r.token t then without t rs else r ∷ without t rs

abbrev pub first_character : List Character → ℤ → List CharacterRow
first_character [] account = []
first_character (c ∷ cs) account =
    if same_int c.account_id account then c.row ∷ [] else first_character cs account

abbrev pub is_taken : Bytes → List Character → Bool
is_taken name [] = false
is_taken name (c ∷ cs) = same_text c.name name || is_taken name cs

abbrev pub write_row : ℤ → CharacterRow → List Character → List Character
write_row id r [] = []
write_row id r (c ∷ cs) =
    (if same_int c.row.id id then record c { row = r } else c) ∷ write_row id r cs

abbrev pub accounts_named : Bytes → List Account → List AccountRow
accounts_named name [] = []
accounts_named name (a ∷ as') =
    if same_text a.username name
    then record { id = a.id; password_hash = a.password_hash } ∷ accounts_named name as'
    else accounts_named name as'

abbrev pub has_account : ℤ → List Account → Bool
has_account id [] = false
has_account id (a ∷ as') = same_int a.id id || has_account id as'

abbrev pub has_token : Bytes → List Token → Bool
has_token t [] = false
has_token t (r ∷ rs) = same_text r.token t || has_token t rs

abbrev pub new_character : Tables → ℤ → Bytes → Character
new_character s account name = record {
  account_id = account;
  name = name;
  row = record { id = pos s.next_character; pos_x = 0; pos_y = 0; pos_z = 0 };
}

abbrev pub insert_row : Tables → ℤ → Bytes → Option (CharacterRow × Tables)
insert_row s account name =
    let c = new_character s account name in
    if ltb 32 (length name) || is_taken name s.characters
    then none
    else some (
      c.row,
      record s { characters = s.characters ++ (c ∷ []); next_character = s.next_character + 1 },
    )

abbrev pub insert_token : Tables → Bytes → ℤ → Option Tables
insert_token s t account =
    if has_token t s.sessions || not (has_account account s.accounts)
    then none
    else some (record s {
      sessions =
          s.sessions ++ (record { token = t; account_id = account; expires_at = s.now + 300 } ∷ []);
    })

unfoldable pub tables : Database
tables = record {
  State = Tables;
  begin = some;
  commit = some;
  in_doubt = λ s. false;
  select_session = λ s t. some (joined s.now s.accounts s.sessions t);
  delete_session = λ s t. some (record s { sessions = without t s.sessions });
  select_character = λ s account. some (first_character s.characters account);
  insert_character = insert_row;
  update_character = λ s id x y z. some (record s {
    characters = write_row id (record { id = id; pos_x = x; pos_y = y; pos_z = z }) s.characters;
  });
  select_account = λ s name. some (accounts_named name s.accounts);
  insert_session = insert_token;
}
