-- ===== src/Http/UserSession.antt =====
-- The sessions of users, roboserver/http_server/auth.go: log-in, log-out, the check of a session and
-- its tickets. Redis is present. bcrypt, the decoded body of a request and the clock readings are
-- arguments; a reply stands for its status and body.
pub mod Granted
use robomesh.Prelude.{
  ℕ, Bool, true, false, not, ◌&&◌, Option, none, some, Text, codes, text_eq, length, ltb,
  if◌then◌else◌,
}
use robomesh.Prelude.Bytes.{is_empty, has_prefix, trim_prefix}
use robomesh.Prelude.Int.{ℤ, pos}
use robomesh.Prelude.Results.{Result, ok, err}
use robomesh.Database.Redis.{
  RedisHandler, User, DbError, get_user, set_user_session, get_user_session, remove_user_session,
  consume_ticket,
}
use robomesh.Auth.Jwt.{JwtLib, JwtConfig, issue_user_jwt, validate_user_jwt}
use robomesh.Http.LoginRate.{Attempts, check_login_rate, record_login_attempt}

pub record HttpEnv (S : Type 0) : Type 0 where
  pub redis : RedisHandler S
  pub jwt_lib : JwtLib
  pub jwt_config : JwtConfig
  -- bcrypt.CompareHashAndPassword gives no error
  pub compare_hash : Text → Text → Bool
  pub user_ttl : ℤ

pub record HttpState (S : Type 0) : Type 0 where
  pub redis : S
  pub limiter : Attempts

pub record LoginRequest : Type 0 where
  pub username : Text
  pub password : Text

pub data Reply : Type 0 where
  too_many_requests bad_request unauthorized server_error success : Reply
  logged_in : (token : Text) → Reply

pub record Session : Type 0 where
  pub user_id : Text
  pub session_id : Text

-- What a log-in reads: the clock of the limiter at the check and after it, time.Now().Unix(), and the
-- random token id.
pub record LoginDraws : Type 0 where
  pub checked_at : ℕ
  pub failed_at : ℕ
  pub issued_at : ℕ
  pub token_id : Option Text

module _ {S : Type 0} (env : HttpEnv S) where
  -- recordLoginAttempt and 401
  unfoldable pub refuse : Text → LoginDraws → HttpState S → HttpState S × Reply
  refuse ip draws st =
      (record st { limiter = record_login_attempt draws.failed_at ip st.limiter }, unauthorized)

  -- From IssueUserJWT on.
  unfoldable pub open_session : Text → LoginDraws → HttpState S → HttpState S × Reply
  open_session username draws st =
      elim (issue_user_jwt env.jwt_lib env.jwt_config username draws.token_id draws.issued_at) [
        | err e ↦ (st, server_error)
        | ok token ↦
            let (s', e) = set_user_session env.redis st.redis token username env.user_ttl in
            elim e [
              | some x ↦ (record st { redis = s' }, server_error)
              | none ↦ (record st { redis = s' }, logged_in token)
            ]
      ]

  unfoldable pub check_password :
      Text → LoginDraws → LoginRequest → HttpState S → HttpState S × Reply
  unfolding refuse open_session
  check_password ip draws request st =
      if ltb 72 (length request.password)
      then refuse ip draws st
      else elim (get_user env.redis st.redis request.username) [
        | err e ↦ refuse ip draws st
        | ok user ↦
            if env.compare_hash user.password_hash request.password
            then open_session request.username draws st
            else refuse ip draws st
      ]

  unfoldable pub login_handler :
      Text → LoginDraws → Option LoginRequest → HttpState S → HttpState S × Reply
  unfolding check_password
  login_handler ip draws body st =
      let (limiter, limited) = check_login_rate draws.checked_at ip st.limiter in
      let st' : HttpState S = record st { limiter = limiter } in
      if limited then (st', too_many_requests) else elim body [
        | none ↦ (st', bad_request)
        | some request ↦ check_password ip draws request st'
      ]

  -- The Authorization header, empty where it is missing, and then the cookie.
  unfoldable pub extract_raw_token : Text → Option Text → Text
  extract_raw_token header cookie =
      if is_empty header
      then elim cookie [ none ↦ codes "" | some value ↦ value ]
      else (if ltb 7 (length header) && has_prefix header (codes "Bearer ")
          then trim_prefix header (codes "Bearer ")
          else header)

  unfoldable pub logout_handler : Text → S → S × Reply
  logout_handler token s =
      if is_empty token
      then (s, unauthorized)
      else ((remove_user_session env.redis s token).0, success)

  unfoldable pub parse_session_from_token : ℕ → Text → Option Session
  parse_session_from_token now token =
      elim (validate_user_jwt env.jwt_lib env.jwt_config now token) [
        | err e ↦ none
        | ok claims ↦ some (record { user_id = claims.sub; session_id = claims.token_id })
      ]

  abbrev same_user : Session → Result DbError Text → Option Session
  same_user session (err e) = none
  same_user session (ok username) = if text_eq username session.user_id then some session else none

  unfoldable pub validate_session_full : ℕ → Text → S → Option Session
  unfolding parse_session_from_token
  validate_session_full now token s =
      if is_empty token then none else elim (parse_session_from_token now token) [
        | none ↦ none
        | some session ↦ same_user session (get_user_session env.redis s token)
      ]

  abbrev ticket_session : Result DbError Text → Option Session
  ticket_session (err e) = none
  ticket_session (ok username) =
      if is_empty username
      then none
      else some (record { user_id = username; session_id = codes "ticket" })

  unfoldable pub validate_ticket : Text → S → S × Option Session
  validate_ticket ticket s =
      if is_empty ticket
      then (s, none)
      else (let (s', r) = consume_ticket env.redis s ticket in (s', ticket_session r))
