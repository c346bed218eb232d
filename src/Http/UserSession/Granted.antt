-- ===== src/Http/UserSession/Granted.antt =====
-- When roboserver/http_server/auth.go takes a user for logged in.
use robomesh.Prelude.{
  ℕ, ◌≤◌, true, false, Option, none, some, ◌≡◌, refl, Text, length, arith, inl, inr, Bool-cases,
}
use robomesh.Prelude.Results.{ok, Result-cases}
use robomesh.Database.Client.{RedisLaws}
use robomesh.Database.Redis.{User, get_user, get_user_session, remove_user_session}
use robomesh.Database.Redis.Laws.{get_user_session-remove_user_session}
use robomesh.Http.LoginRate.{check_login_rate}
use robomesh.Http.UserSession.{
  HttpEnv, HttpState, LoginRequest, LoginDraws, logged_in, check_password, login_handler,
  logout_handler, validate_session_full,
}

-- A log-in that was right: the address is under the limit, the user exists and the password fits.
pub record Entitled {S : Type 0} (env : HttpEnv S) (ip : Text) (draws : LoginDraws)
    (body : Option LoginRequest) (st : HttpState S) : Type 0 where
  pub request : LoginRequest
  pub user : User
  pub decoded : body ≡ some request
  pub under_limit : (check_login_rate draws.checked_at ip st.limiter).1 ≡ false
  pub short : length request.password ≤ 72
  pub known : get_user env.redis st.redis request.username ≡ ok user
  pub fits : env.compare_hash user.password_hash request.password ≡ true

module _ {S : Type 0} (env : HttpEnv S) where
  check_password-fits :
      (ip : Text) (draws : LoginDraws) (request : LoginRequest) (st : HttpState S) (token : Text)
      → (check_password env ip draws request st).1 ≡ logged_in token
      → (length request.password ≤ 72)
        × ((user : User) × (get_user env.redis st.redis request.username ≡ ok user)
            × (env.compare_hash user.password_hash request.password ≡ true))
  unfolding check_password
  check_password-fits ip draws request st token h =
      elim (Result-cases (get_user env.redis st.redis request.username)) [
        | inl (user, e) ↦ (ground arith, (user, e, ground arith))
        | inr (x, e) ↦ absurd (ground arith)
      ]

  -- A token is given out only to an address under the limit, for a user that exists and a password of
  -- at most 72 bytes that fits the stored hash.
  pub login_handler-Entitled :
      (ip : Text) (draws : LoginDraws) (body : Option LoginRequest) (st : HttpState S)
      (token : Text)
      → (login_handler env ip draws body st).1 ≡ logged_in token
      → Entitled env ip draws body st
  unfolding login_handler
  login_handler-Entitled ip draws none st token h = ground arith
  login_handler-Entitled ip draws (some request) st token h =
      elim (Bool-cases (check_login_rate draws.checked_at ip st.limiter).1) [
        | inl e ↦ absurd (ground arith)
        | inr e ↦
            let (short, (user, known, fits)) =
              check_password-fits ip draws request _ token (rw (e, login_handler) at h) in
            record {
              request = request;
              user = user;
              decoded = refl;
              under_limit = e;
              short = short;
              known = known;
              fits = fits;
            }
      ]

  -- With a client that keeps the laws of Redis, after a log-out whose deletion succeeds the token
  -- is not valid any more, at any time.
  pub validate_session_full-logout_handler :
      RedisLaws env.redis.client
      → (now : ℕ) (token : Text) (s : S) → (remove_user_session env.redis s token).1 ≡ none
      → validate_session_full env now token (logout_handler env token s).0 ≡ none
  unfolding validate_session_full logout_handler
  validate_session_full-logout_handler l now token s h =
      elim (Result-cases
        (get_user_session env.redis (remove_user_session env.redis s token).0 token)) [
          | inl (user, e) ↦
              absurd (get_user_session-remove_user_session env.redis l s token user h e)
          | inr (x, e) ↦ ground arith
        ]
