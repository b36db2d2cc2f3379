-- ===== src/Login/Examples.antt =====
-- The theorems on the login server, applied to an attempt of the account of Examples/Fixture.antt.
use game_x.Base.{
  ℕ, ◌≡◌, ◌↔◌, ◌⊎◌, refl, List, [], ◌++◌, Option, none, some, false, replicate, arith, ltb, length,
  drop, ◌∷◌,
}
use game_x.Base.Bytes.{same_text, put_u32}
use game_x.Base.Int.{pos, same_int}
use game_x.Database.Tables.{tables}
use game_x.Database.Tables.Laws.{tables-IsDatabase}
use game_x.Game.Auth.{Login, authenticate}
use game_x.Game.Auth.Persistence.{IsOf}
use game_x.Login.Granted.{granted_token_opens}
use game_x.Protocol.{Opcode, opcode}
use game_x.Protocol.Size
use game_x.Protocol.Text.{c_string}
use game_x.Protocol.Codec.{put_header, put_login}
use game_x.Game.Step.{issue_transaction}
use game_x.Login.{
  LoginSession, fresh_login, Reply, Read, read_login, process_login_request, verify_credentials,
}
use game_x.Login.Token.{generate_session_token, hex, hex_digit, generate_session_token_injective}
use game_x.Login.Attempt.{
  IsGranted, IsInDoubt, IsRefusal, grant, read_login_undersized, process_login_request_fault_iff,
  process_login_request-outcome,
}
use game_x.Examples.Fixture.{platform, database, bob}

read_login_undersized_example :
    read_login fresh_login (put_header (record { size = 0; opcode = 3 }) ++ []) ≡ Read.server_ends
read_login_undersized_example = read_login_undersized fresh_login 0 3 [] (omega arith) (omega arith)

-- Name "bob", and the empty password, which is the account's.
abbrev attempt : LoginSession
attempt = record fresh_login {
  header = record { size = 72; opcode = opcode Opcode.cmsg_auth_session };
  payload =
      put_login
        (record { username = bob ++ replicate 29 0; password = replicate 32 0; version = 1 });
}

abbrev answered : Option (platform.db.State × List Reply)
answered = process_login_request platform.db same_text database attempt (1, 2)

abbrev state_of : Option (platform.db.State × List Reply) → platform.db.State
state_of none = database
state_of (some r) = r.0

abbrev replies_of : Option (platform.db.State × List Reply) → List Reply
replies_of none = []
replies_of (some r) = r.1

answers : answered ≡ some (state_of answered, replies_of answered)
unfolding process_login_request put_login c_string put_u32
answers = refl

process_login_request-outcome_example :
    (IsGranted platform.db same_text database attempt (1, 2) (state_of answered)
      × (replies_of answered ≡ grant platform.db same_text (1, 2)))
    ⊎ (IsRefusal platform.db same_text database (state_of answered) (replies_of answered)
        ⊎ (IsInDoubt platform.db same_text database (state_of answered) (1, 2)
            × (replies_of answered ≡ Reply.close ∷ [])))
process_login_request-outcome_example =
    process_login_request-outcome platform.db same_text database (state_of answered) attempt (1, 2)
      (replies_of answered) answers

-- The attempt of the example is the one that is granted.
granted : replies_of answered ≡ grant platform.db same_text (1, 2)
unfolding process_login_request put_login c_string verify_credentials issue_transaction tables
    database same_text same_int generate_session_token hex hex_digit put_u32
granted = refl

first_grant : IsGranted platform.db same_text database attempt (1, 2) (state_of answered)
unfolding process_login_request put_login c_string verify_credentials issue_transaction tables
    database same_text same_int generate_session_token hex hex_digit put_u32
first_grant = record {
  username = bob;
  password = [];
  opened = database;
  account = record { id = pos 7; password_hash = [] };
  others = [];
  inserted = state_of answered;
  is_login = refl;
  sized = refl;
  name_read = refl;
  password_read = refl;
  begins = refl;
  selects = refl;
  verifies = refl;
  inserts = refl;
  commits = refl;
}

abbrev entered : Option (Login × platform.db.State)
entered = authenticate platform.db (state_of answered) (generate_session_token 1 2)

abbrev login_of : Option (Login × platform.db.State) → Login × platform.db.State
login_of (some r) = r
login_of none = (
  record { username = []; character = record { id = pos 0; pos_x = 0; pos_y = 0; pos_z = 0 } },
  database,
)

enters : entered ≡ some (login_of entered)
unfolding process_login_request put_login c_string verify_credentials issue_transaction tables
    database same_text same_int generate_session_token hex hex_digit put_u32 authenticate
enters = refl

granted_token_opens_example :
    IsOf platform.db
      (state_of answered)
      (generate_session_token 1 2)
      first_grant.account.id
      (login_of entered).0.character
granted_token_opens_example =
    granted_token_opens tables-IsDatabase same_text database (state_of answered)
      (login_of entered).1 attempt (1, 2) (login_of entered).0 first_grant enters

process_login_request_fault_iff_example :
    (process_login_request platform.db same_text database attempt (1, 2) ≡ none) ↔ (
      (attempt.header.opcode ≡ opcode Opcode.cmsg_auth_session)
      × (ltb (length attempt.payload) Size.login ≡ false)
      × (c_string (drop 32 attempt.payload) ≡ none))
process_login_request_fault_iff_example =
    process_login_request_fault_iff platform.db same_text database attempt (1, 2)

abbrev draw : ℕ × ℕ
draw = (7, 8)

generate_session_token_injective_example : (draw.0 ≡ draw.0) × (draw.1 ≡ draw.1)
generate_session_token_injective_example =
    generate_session_token_injective 7 8 7 8 (omega arith) (omega arith) (omega arith) (omega arith)
      refl
