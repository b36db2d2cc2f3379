-- ===== src/Client/Logic/Credentials.antt =====
-- client/src/main.cpp: the login packet that `main` sends once it is connected, at the login server.
use game_x.Base.{
  ℕ, zero, suc, ◌+◌, ◌≤◌, ◌≡◌, refl, ap, ◌∙◌, [], ◌∷◌, ◌++◌, some, true, arith, leb, le→leb, ◌==◌,
  if◌then◌else◌, length, drop, take_all, take-append, drop-append, append_assoc, length-append,
}
use game_x.Base.Bytes.{Bytes, put_u32}
use game_x.Database.{Database}
use game_x.Protocol.{Opcode, opcode, PacketHeader, MsgLogin}
use game_x.Protocol.Size
use game_x.Protocol.Text.{strncpy, c_string, IsText, length-strncpy, c_string-strncpy}
use game_x.Protocol.Codec.{put_header, put_login}
use game_x.Protocol.RoundTrip.{IsLogin, length-put_login, get_header-put_header, length-put_header}
use game_x.Login.{
  LoginSession, Verifier, verify_credentials, after_credentials, process_login_request, Read,
  login_payload_size, resize_throws, read_login_payload, read_login,
}
use game_x.Client.Logic.Agreement.{message_bytes}

abbrev pub login_data : Bytes → Bytes → MsgLogin
login_data username password = record {
  username = strncpy 32 username;
  password = strncpy 32 password;
  version = 1;
}

-- The header and the payload that `main` hands to `sendPacket`.
unfoldable pub login_message : Bytes → Bytes → PacketHeader × Bytes
login_message username password = (
  record { size = Size.header + Size.login; opcode = opcode Opcode.cmsg_auth_session },
  put_login (login_data username password),
)

strncpy_room : (n : ℕ) (s : Bytes) → length s ≤ n → strncpy (suc n) s ≡ strncpy n s ++ (0 ∷ [])
unfolding strncpy
strncpy_room zero [] h = refl
strncpy_room zero (c ∷ s) h = absurd (omega arith)
strncpy_room (suc n) [] h = ap (◌∷◌ 0) (strncpy_room n [] (omega arith))
strncpy_room (suc n) (c ∷ s) h =
    ap (◌∷◌ c) (strncpy_room n (if c == 0 then [] else s) (ground arith))

-- A text that leaves room for a NUL is read back whole from its field.
c_string-field :
    (s rest : Bytes) → IsText s → length s ≤ 31 → c_string (strncpy 32 s ++ rest) ≡ some s
c_string-field s rest text room =
    rw (strncpy_room 31 s room, append_assoc (strncpy 31 s) (0 ∷ []) rest)
      (c_string-strncpy 31 s rest text ∙ ap some (take_all s 31 room))

login_data-IsLogin : (username password : Bytes) → IsLogin (login_data username password)
login_data-IsLogin username password = record {
  username_length = length-strncpy 32 username;
  password_length = length-strncpy 32 password;
  version_fits = omega arith;
}

-- The login session once it has read a message.
abbrev pub with_login : LoginSession → PacketHeader × Bytes → LoginSession
with_login s m = record { header = m.0; payload = m.1 }

abbrev login_header : PacketHeader
login_header = record { size = Size.header + Size.login; opcode = opcode Opcode.cmsg_auth_session }

read_login-message :
    (s : LoginSession) (body rest : Bytes)
    → length body ≡ 68
    → read_login s ((put_header login_header ++ body) ++ rest)
      ≡ Read.complete (with_login s (login_header, body))
unfolding read_login read_login_payload login_payload_size resize_throws
read_login-message s body rest h =
    let bytes = put_header login_header in
    let behind = body ++ rest in
    let long : leb 4 (length (bytes ++ behind)) ≡ true =
      le→leb 4 _ (omega (arith, length-append bytes behind, length-put_header login_header)) in
    let enough : leb 68 (length behind) ≡ true =
      le→leb 68 _ (omega (arith, length-append body rest)) in
    rw (
      append_assoc bytes body rest,
      long,
      get_header-put_header login_header behind (omega arith) (omega arith),
      drop-append bytes behind 4 (length-put_header login_header),
      enough,
      take-append body rest 68 h,
    )

-- What the client sends to log in is read by the login server as one packet, which
-- process_login_request takes as a login with the very name and password of the client, where both
-- are texts without NULs of at most 31 bytes.
pub credentials_reach_server :
    (db : Database) (argon2id_verify : Verifier) (st : db.State) (random : ℕ × ℕ) (s : LoginSession)
    (username password rest : Bytes)
    → IsText username
    → IsText password
    → length username ≤ 31
    → length password ≤ 31
    → let m = login_message username password in
      (read_login s (message_bytes m ++ rest) ≡ Read.complete (with_login s m))
      × (process_login_request db argon2id_verify st (with_login s m) random
          ≡ some (
              after_credentials db argon2id_verify st random
                (verify_credentials db argon2id_verify st username password)))
unfolding login_message put_login process_login_request
credentials_reach_server db argon2id_verify st random s username password rest text text' room
      room' =
    let m = login_data username password in
    let tail = strncpy 32 password ++ put_u32 1 in
    let size : length (put_login m) ≡ 68 =
      length-put_login m (login_data-IsLogin username password) in
    let name : c_string (put_login m) ≡ some username = c_string-field username tail text room in
    let secret : c_string (drop 32 (put_login m)) ≡ some password =
      rw (drop-append (strncpy 32 username) tail 32 (length-strncpy 32 username))
        (c_string-field password (put_u32 1) text' room') in
    (read_login-message s (put_login m) rest size, rw (size, name, secret))
