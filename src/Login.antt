-- ===== src/Login.antt =====
-- server/login/src/main.cpp: one login attempt. A `LoginSession` reads one packet, answers it with a
-- redirect to the game server or with a close, and ends. Attempts do not share any state but the
-- database. `none` is what ends the whole program or reads outside of a buffer, as each says.
pub mod Token
pub mod Attempt
pub mod Granted
pub mod Examples
use game_x.Base.{
  ℕ, ◌+◌, ◌-◌, ◌%◌, ◌^◌, Bool, List, [], ◌∷◌, ◌++◌, Option, none, some, ◌>>=◌, ◌==◌, not, ltb, leb,
  if◌then◌else◌, length, take, drop,
}
use game_x.Base.Bytes.{Bytes}
use game_x.Base.Int.{ℤ}
use game_x.Database.{Database, AccountRow}
use game_x.Protocol.{Opcode, opcode, PacketHeader}
use game_x.Protocol.Size
use game_x.Protocol.Text.{c_string, strncpy}
use game_x.Protocol.Codec.{put_header, get_header, put_redirect}
use game_x.Login.Token.{generate_session_token}
use game_x.Game.Step.{issue_transaction, issue_failed}

-- A `LoginSession`, less its socket. `account_id_` and `session_token_` are set and read in one run of
-- `process_login_request`, and are values of it here.
pub record LoginSession : Type 0 where
  pub header : PacketHeader
  pub payload : Bytes

abbrev pub fresh_login : LoginSession
fresh_login = record { header = record { size = 0; opcode = 0 }; payload = [] }

-- What a session does with its socket at the end; where it does neither, its destructor closes it.
pub data Reply : Type 0 where
  close : Reply
  write_then_close : Bytes → Reply

-- `std::size_t payload_size = header_.size - sizeof(PacketHeader)`, in 64 bits.
unfoldable pub login_payload_size : PacketHeader → ℕ
login_payload_size h = (h.size + 2 ^ 64 - Size.header) % 2 ^ 64

-- `payload_.resize(n)`: above the vector's greatest size it throws, and no handler of the server
-- catches what is thrown here but `main`, which returns.
unfoldable pub resize_throws : ℕ → Bool
resize_throws n = ltb (2 ^ 63 - 1) n

-- The outcome of reading from the bytes that the client has sent.
pub data Read : Type 0 where
  waits : Read
  server_ends : Read
  complete : LoginSession → Read

unfoldable pub read_login_payload : LoginSession → Bytes → Read
read_login_payload s bs =
    let n = login_payload_size s.header in
    if resize_throws n
    then Read.server_ends
    else if leb n (length bs)
    then Read.complete (record s { payload = take n bs })
    else Read.waits

unfoldable pub read_login : LoginSession → Bytes → Read
read_login s bs =
    if leb Size.header (length bs)
    then read_login_payload (record s { header = get_header bs }) (drop Size.header bs)
    else Read.waits

-- "127.0.0.1".
abbrev pub game_server_ip : Bytes
game_server_ip = 49 ∷ 50 ∷ 55 ∷ 46 ∷ 48 ∷ 46 ∷ 48 ∷ 46 ∷ 49 ∷ []

unfoldable pub login_response : Bytes → Bytes
login_response token =
    put_header
      (record { size = Size.header + Size.redirect; opcode = opcode Opcode.smsg_auth_response })
    ++ put_redirect (record {
      ip = strncpy 15 game_server_ip ++ (0 ∷ []);
      port = 12345;
      session_token = take 32 token;
    })

-- `argon2id_verify(hash, password) == ARGON2_OK`, of the argon2 library.
abbrev pub Verifier : Type 0
Verifier = Bytes → Bytes → Bool

module _ (db : Database) (argon2id_verify : Verifier) where
  abbrev pub verify_password_hash : Bytes → Bytes → Bool
  verify_password_hash password stored_hash = argon2id_verify stored_hash password

  abbrev pub check_account : Bytes → List AccountRow → Option ℤ
  check_account password [] = none
  check_account password (row ∷ rows) =
      if verify_password_hash password row.password_hash then some row.id else none

  -- The account, or `none` for `false`, which an exception gives too. Nothing is committed.
  unfoldable pub verify_credentials : db.State → Bytes → Bytes → Option ℤ
  verify_credentials s username password = do
    t ← db.begin s
    rows ← db.select_account t username
    check_account password rows

  -- `issue_session_token` and what follows it, with the token drawn.
  abbrev pub after_issue : db.State → Bytes → Option (db.State) → db.State × List Reply
  after_issue failed token none = (failed, Reply.close ∷ [])
  after_issue failed token (some s') = (s', Reply.write_then_close (login_response token) ∷ [])

  abbrev pub after_credentials : db.State → ℕ × ℕ → Option ℤ → db.State × List Reply
  after_credentials s random none = (s, Reply.close ∷ [])
  after_credentials s random (some account) =
      let token = generate_session_token random.0 random.1 in
      after_issue (issue_failed db s token account) token (issue_transaction db s token account)

  -- `random` is the two numbers that the generator gives. `none`: a string of the packet runs out of
  -- the payload.
  unfoldable pub process_login_request :
      db.State → LoginSession → ℕ × ℕ → Option (db.State × List Reply)
  process_login_request s session random =
      if not (session.header.opcode == opcode Opcode.cmsg_auth_session)
      then some (s, [])
      else if ltb (length session.payload) Size.login
      then some (s, Reply.close ∷ [])
      else do
        username ← c_string session.payload
        password ← c_string (drop 32 session.payload)
        some (after_credentials s random (verify_credentials s username password))
