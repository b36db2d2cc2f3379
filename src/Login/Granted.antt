-- ===== src/Login/Granted.antt =====
-- server/login/src/main.cpp and server/game/src/main.cpp: the token that the login server grants, shown
-- to the game server.
use game_x.Base.{◌≡◌, subst, some, ℕ}
use game_x.Database.{Database, IsDatabase}
use game_x.Login.{LoginSession, Verifier}
use game_x.Login.Token.{generate_session_token}
use game_x.Login.Attempt.{IsGranted}
use game_x.Game.Auth.{Login, authenticate}
use game_x.Game.Auth.Persistence.{IsOf, authenticate-IsOf, IsOf-HasOwner}

module _ {db : Database} (laws : IsDatabase db) (argon2id_verify : Verifier) where
  -- Where the login server has granted a token and the database meets its laws, a login at the game
  -- server with that token, if it succeeds, spawns the first character of the very account whose
  -- hash the password verified against, as the transaction finds it once the token is deleted; or,
  -- where that account has none, a character inserted for it.
  pub granted_token_opens :
      (s s' s'' : db.State) (session : LoginSession) (random : ℕ × ℕ) (l : Login)
      (g : IsGranted db argon2id_verify s session random s')
      → let token = generate_session_token random.0 random.1 in
        authenticate db s' token ≡ some (l, s'') → IsOf db s' token g.account.id l.character
  granted_token_opens s s' s'' session random l g h =
      let token = generate_session_token random.0 random.1 in
      let (a, o) = authenticate-IsOf db s' s'' token l h in
      let same : a ≡ g.account.id =
        laws.insert_session_owner g.opened g.inserted token g.account.id a g.inserts (
          laws.commit_owner g.inserted s' token a g.commits
            (IsOf-HasOwner laws s' token a l.character o)) in
      subst (λ b. IsOf db s' token b l.character) same o
