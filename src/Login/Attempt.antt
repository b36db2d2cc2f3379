-- ===== src/Login/Attempt.antt =====
-- server/login/src/main.cpp: when an attempt ends in a redirect, and what the client finds in it.
use game_x.Base.{
  ℕ, zero, suc, ◌^◌, ◌<◌, ◌≡◌, ◌↔◌, ◌⊎◌, refl, sym, ◌∙◌, inl, inr, true, false, List, [], ◌∷◌, ◌++◌,
  none, some, Option-cases, Bool-cases, ◌==◌, arith, ltb, leb, length, take, drop, take_all,
  length-append, le→leb, subst, ap, >>=-eq-some,
}
use game_x.Base.Bytes.{Bytes, put_u16, get_u16}
use game_x.Base.Int.{ℤ}
use mathlib.Core.Option
use game_x.Database.{Database, AccountRow}
use game_x.Protocol.{Opcode, opcode, PacketHeader}
use game_x.Protocol.Size
use game_x.Protocol.Text.{c_string, strncpy}
use game_x.Protocol.Codec.{put_header, get_header, put_redirect, get_redirect}
use game_x.Protocol.RoundTrip.{get_header-put_header, length-put_header}
use game_x.Login.{
  LoginSession, Reply, Read, Verifier, login_payload_size, resize_throws, read_login_payload,
  read_login, verify_credentials, check_account, login_response, game_server_ip, after_credentials,
  process_login_request,
}
use game_x.Login.Token.{generate_session_token, length-generate_session_token}
use game_x.Game.Step.{issue_transaction, issue_failed}

-- A header that announces a size below 4 ends the login server, whatever follows it: the size of
-- the payload wraps, and the vector throws.
pub read_login_undersized :
    (s : LoginSession) (size op : ℕ) (rest : Bytes)
    → size < 4
    → op < 2 ^ 16
    → read_login s (put_header (record { size = size; opcode = op }) ++ rest) ≡ Read.server_ends
unfolding read_login read_login_payload login_payload_size resize_throws
read_login_undersized s size op rest small op_fits =
    let h : PacketHeader = record { size = size; opcode = op } in
    let long : leb 4 (length (put_header h ++ rest)) ≡ true =
      le→leb 4 _ (omega (arith, length-append (put_header h) rest, length-put_header h)) in
    rw (long, get_header-put_header h rest (omega arith) op_fits) (ground arith)

-- No NUL up to the end of the buffer: nor is there one in any end of it.
c_string-drop : (n : ℕ) (bs : Bytes) → c_string bs ≡ none → c_string (drop n bs) ≡ none
unfolding c_string
c_string-drop zero bs h = h
c_string-drop (suc n) [] h = refl
c_string-drop (suc n) (b ∷ bs) h = elim (Option-cases (c_string bs)) [
  | inl e ↦ c_string-drop n bs e
  | inr (r, e) ↦ ground arith
]

module _ (db : Database) (argon2id_verify : Verifier) where
  -- process_login_request reads outside of its payload exactly where the packet is a login packet
  -- of full size with no NUL from the start of the password on.
  pub process_login_request_fault_iff :
      (s : db.State) (session : LoginSession) (random : ℕ × ℕ)
      → (process_login_request db argon2id_verify s session random ≡ none) ↔ (
          (session.header.opcode ≡ opcode Opcode.cmsg_auth_session)
          × (ltb (length session.payload) Size.login ≡ false)
          × (c_string (drop 32 session.payload) ≡ none))
  unfolding process_login_request
  process_login_request_fault_iff s session random =
      elim (Option-cases (c_string (drop 32 session.payload))) [
        | inl e ↦ (
          λ h. (ground arith, ground arith, e),
          λ q. elim (Option-cases (c_string session.payload)) [
            | inl e' ↦ rw (q.0, q.1, e')
            | inr (r, e') ↦ rw (q.0, q.1, e', e)
          ],
        )
        | inr (r, e) ↦
            (λ h. ground (arith, c_string-drop 32 session.payload), λ q. cc (sym e ∙ q.2))
      ]

  -- The attempt is granted: the packet is a login, an account of that name has a hash that the
  -- password verifies against, and the token that was drawn is inserted for this account and
  -- committed.
  pub record IsGranted (s : db.State) (session : LoginSession) (random : ℕ × ℕ) (s' : db.State)
      : Type 0 where
    pub username : Bytes
    pub password : Bytes
    pub opened : db.State
    pub account : AccountRow
    pub others : List AccountRow
    pub inserted : db.State
    pub is_login : session.header.opcode ≡ opcode Opcode.cmsg_auth_session
    pub sized : ltb (length session.payload) Size.login ≡ false
    pub name_read : c_string session.payload ≡ some username
    pub password_read : c_string (drop 32 session.payload) ≡ some password
    pub begins : db.begin s ≡ some opened
    pub selects : db.select_account opened username ≡ some (account ∷ others)
    pub verifies : argon2id_verify account.password_hash password ≡ true
    pub inserts :
        db.insert_session opened (generate_session_token random.0 random.1) account.id
        ≡ some inserted
    pub commits : db.commit inserted ≡ some s'

  check_account-some :
      (password : Bytes) (rows : List AccountRow) (account : ℤ)
      → check_account db argon2id_verify password rows ≡ some account
      → (row : AccountRow) × (others : List AccountRow) × (rows ≡ row ∷ others)
        × (argon2id_verify row.password_hash password ≡ true)
        × (row.id ≡ account)
  check_account-some password [] account h = cc
  check_account-some password (row ∷ rows) account h =
      elim (Bool-cases (argon2id_verify row.password_hash password)) [
        | inl e ↦ (row, rows, refl, e, ground (arith, e))
        | inr e ↦ absurd (ground (arith, e))
      ]

  verify_credentials-some :
      (s : db.State) (username password : Bytes) (account : ℤ)
      → verify_credentials db argon2id_verify s username password ≡ some account
      → (opened : db.State) × (row : AccountRow) × (others : List AccountRow) × (db.begin s
          ≡ some opened)
        × (db.select_account opened username ≡ some (row ∷ others))
        × (argon2id_verify row.password_hash password ≡ true)
        × (row.id ≡ account)
  unfolding verify_credentials
  verify_credentials-some s username password account h =
      let (opened, begins, r) = >>=-eq-some (db.begin s) _ h in
      let (rows, selects, q) = >>=-eq-some (db.select_account opened username) _ r in
      let (row, others, same, verifies, id) = check_account-some password rows account q in
      (opened, row, others, begins, selects ∙ ap some same, verifies, id)

  issue_transaction-some :
      (s opened s' : db.State) (token : Bytes) (a b : ℤ)
      → issue_transaction db s token b ≡ some s'
      → db.begin s ≡ some opened
      → a ≡ b
      → (inserted : db.State) × (db.insert_session opened token a ≡ some inserted)
        × (db.commit inserted ≡ some s')
  unfolding issue_transaction
  issue_transaction-some s opened s' token a b h begins same =
      let (t, et, rt) = >>=-eq-some (db.begin s) _ h in
      let (u, eu, cu) = >>=-eq-some (db.insert_session t token b) _ rt in
      let opens : t ≡ opened = Option.some-injective t opened (sym et ∙ begins) in
      (u, rw (same, sym opens) eu, cu)

  -- The only reply of an attempt that is granted.
  abbrev pub grant : ℕ × ℕ → List Reply
  grant random =
      Reply.write_then_close (login_response (generate_session_token random.0 random.1)) ∷ []

  -- The token was inserted for some account and the commit threw, but was carried out.
  pub record IsInDoubt (s s' : db.State) (random : ℕ × ℕ) : Type 0 where
    pub opened : db.State
    pub account : ℤ
    pub begins : db.begin s ≡ some opened
    pub inserts :
        db.insert_session opened (generate_session_token random.0 random.1) account ≡ some s'
    pub throws : db.commit s' ≡ none
    pub carried_out : db.in_doubt s' ≡ true

  abbrev pub IsRefusal : db.State → db.State → List Reply → Type 0
  IsRefusal s s' out = (s' ≡ s) × ((out ≡ []) ⊎ (out ≡ Reply.close ∷ []))

  issue_failed-cases :
      (s : db.State) (token : Bytes) (account : ℤ) (random : ℕ × ℕ)
      → token ≡ generate_session_token random.0 random.1
      → issue_transaction db s token account ≡ none
      → (issue_failed db s token account ≡ s) ⊎ IsInDoubt s (issue_failed db s token account) random
  unfolding issue_failed issue_transaction
  issue_failed-cases s token account random drawn h = elim (Option-cases (db.begin s)) [
    | inl e ↦ inl (rw e)
    | inr (t, e) ↦ elim (Option-cases (db.insert_session t token account)) [
      | inl f ↦ inl (rw (e, f))
      | inr (u, f) ↦ elim (Bool-cases (db.in_doubt u)) [
        | inr dropped ↦ inl (rw (e, f, dropped))
        | inl carried ↦
            let threw : db.commit u ≡ none = rw (e, f) at h in
            let left : issue_failed db s token account ≡ u = rw (e, f, carried) in
            inr (
              subst (λ v. IsInDoubt s v random) (sym left)
                (record {
                  opened = t;
                  account = account;
                  begins = e;
                  inserts = subst (λ w. db.insert_session t w account ≡ some u) drawn f;
                  throws = threw;
                  carried_out = carried;
                }))
      ]
    ]
  ]

  credentials-outcome :
      (s s' : db.State) (session : LoginSession) (random : ℕ × ℕ) (out : List Reply)
      (username password : Bytes)
      → session.header.opcode ≡ opcode Opcode.cmsg_auth_session
      → ltb (length session.payload) Size.login ≡ false
      → c_string session.payload ≡ some username
      → c_string (drop 32 session.payload) ≡ some password
      → after_credentials db argon2id_verify s random
          (verify_credentials db argon2id_verify s username password)
        ≡ (s', out)
      → (IsGranted s session random s' × (out ≡ grant random))
        ⊎ (IsRefusal s s' out ⊎ (IsInDoubt s s' random × (out ≡ Reply.close ∷ [])))
  credentials-outcome s s' session random out username password is_login sized name pass h =
      elim (Option-cases (verify_credentials db argon2id_verify s username password)) [
        | inl wrong ↦ inr (inl (ground arith))
        | inr (account, verified) ↦
            let token = generate_session_token random.0 random.1 in
            elim (Option-cases (issue_transaction db s token account)) [
              | inl failed ↦
                  let left : issue_failed db s token account ≡ s' = ground arith in
                  elim (issue_failed-cases s token account random refl failed) [
                    | inl same ↦ inr (inl (sym left ∙ same, inr (ground arith)))
                    | inr doubt ↦
                        inr (inr (subst (λ v. IsInDoubt s v random) left doubt, ground arith))
                  ]
              | inr (t, issued) ↦
                  let (opened, row, others, begins, selects, verifies, id) =
                    verify_credentials-some s username password account verified in
                  let committed : issue_transaction db s token account ≡ some s' = ground arith in
                  let (inserted, inserts, commits) =
                    issue_transaction-some s opened s' token row.id account committed begins id in
                  inl (
                    record {
                      username = username;
                      password = password;
                      opened = opened;
                      account = row;
                      others = others;
                      inserted = inserted;
                      is_login = is_login;
                      sized = sized;
                      name_read = name;
                      password_read = pass;
                      begins = begins;
                      selects = selects;
                      verifies = verifies;
                      inserts = inserts;
                      commits = commits;
                    },
                    ground arith,
                  )
            ]
      ]

  -- A login attempt that is defined ends in one of three ways. It is granted: an account of the
  -- name has a hash that the password verifies against, the drawn token is inserted for this
  -- account and committed, and the one reply is the redirect with the token. Or the database is as
  -- before, and the one reply, if any, is a close. Or the commit of the token threw but was carried
  -- out, and the one reply is a close.
  pub process_login_request-outcome :
      (s s' : db.State) (session : LoginSession) (random : ℕ × ℕ) (out : List Reply)
      → process_login_request db argon2id_verify s session random ≡ some (s', out)
      → (IsGranted s session random s' × (out ≡ grant random))
        ⊎ (IsRefusal s s' out ⊎ (IsInDoubt s s' random × (out ≡ Reply.close ∷ [])))
  unfolding process_login_request
  process_login_request-outcome s s' session random out h =
      let auth = session.header.opcode == opcode Opcode.cmsg_auth_session in
      elim (Bool-cases auth) [
        | inr other ↦ inr (inl (ground arith))
        | inl same ↦ elim (Bool-cases (ltb (length session.payload) Size.login)) [
          | inl short ↦ inr (inl (ground arith))
          | inr full ↦ elim (Option-cases (c_string session.payload)) [
            | inl e ↦ absurd (ground arith)
            | inr (username, name_read) ↦ elim (Option-cases (c_string (drop 32 session.payload))) [
              | inl e ↦ absurd (ground arith)
              | inr (password, password_read) ↦
                  credentials-outcome s s' session random out username password (ground arith) full
                    name_read password_read (ground arith)
            ]
          ]
        ]
      ]

-- The client reads out of the redirect what the server put there: the exact length, the address and
-- the port of the game server, and the whole of the token.
pub login_response_read :
    (a b : ℕ)
    → let token = generate_session_token a b in
      let whole = login_response token in
      let redirect = get_redirect (drop Size.header whole) in
      ((get_header whole).size ≡ length whole)
      × (c_string redirect.ip ≡ some game_server_ip)
      × (redirect.port ≡ 12345)
      × (redirect.session_token ≡ token)
unfolding login_response put_header put_redirect put_u16 strncpy get_header get_u16 get_redirect
    c_string
login_response_read a b =
    let token = generate_session_token a b in
    let whole_token : take 32 token ≡ token =
      take_all token 32 (omega (arith, length-generate_session_token a b)) in
    rw whole_token (omega (arith, length-generate_session_token a b), refl, refl, whole_token)
