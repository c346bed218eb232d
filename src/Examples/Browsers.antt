-- ===== src/Examples/Browsers.antt =====
-- The theorems of Http on a few log-ins.
use robomesh.Prelude.{
  Option, refl, ℕ, none, some, List, [], ◌∷◌, ◌≡◌, Text, codes, length, leb, arith,
}
use robomesh.Http.LoginRate.{login_max_attempts, valid, check_login_rate}
use robomesh.Http.LoginRate.Counts.{
  Call, checks, records, cleans, run, logged, check_login_rate-run,
}
use robomesh.Prelude.Bytes.{text_eq}
use robomesh.Prelude.Assoc.{Map, lookup, insert}
use robomesh.Database.Keys.{user_key, user_session_key}
use robomesh.Database.Redis.{get_user, set_user, set_user_session, remove_user_session}
use robomesh.Auth.Jwt.{issue_user_jwt}
use robomesh.Http.LoginRate.{attempts}
use robomesh.Http.UserSession.{
  HttpEnv, HttpState, LoginRequest, LoginDraws, logged_in, login_handler, logout_handler,
  validate_session_full,
}
use robomesh.Http.UserSession.Granted.{
  Entitled, login_handler-Entitled, validate_session_full-logout_handler,
}
use robomesh.Http.UserSession.{Session}
use robomesh.Http.Account.{PasswordRequest, changed, change_password_handler}
use robomesh.Http.Account.Changed.{Change, change_password_handler-Change}
use robomesh.Examples.Codecs.{read_text}
use robomesh.Examples.Parts.{redis, client_laws, jwt_lib, jwt_config, day, value}

abbrev eve : Text
eve = codes "10.0.0.9"

abbrev log : List (ℕ × Call)
log =
    (1, records eve)
    ∷ (2, checks eve)
    ∷ (3, records eve)
    ∷ (4, records (codes "10.0.0.1"))
    ∷ (600000000000, cleans)
    ∷ (600000000001, records eve)
    ∷ []

check_login_rate-run_example :
    (check_login_rate 600000000002 eve (run log [])).1
    ≡ leb login_max_attempts (length (valid 600000000002 (logged eve log)))
check_login_rate-run_example = check_login_rate-run 600000000002 log eve (
  omega arith,
  (omega arith, (omega arith, (omega arith, (omega arith, (omega arith, omega arith))))),
)

-- A user whose hash is the password itself.
abbrev http_env : HttpEnv (Map Text)
http_env = record {
  redis = redis;
  jwt_lib = jwt_lib;
  jwt_config = jwt_config;
  compare_hash = λ h p. text_eq h p;
  user_ttl = day;
}

abbrev store : Map Text
store = (set_user redis [] (record { username = codes "eve"; password_hash = codes "secret" })).0

abbrev draws : LoginDraws
draws = record { checked_at = 10; failed_at = 11; issued_at = 1000; token_id = some (codes "t1") }

abbrev request : LoginRequest
request = record { username = codes "eve"; password = codes "secret" }

abbrev state : HttpState (Map Text)
state = record { redis = store; limiter = [] }

abbrev token : Text
token = value [] (issue_user_jwt jwt_lib jwt_config (codes "eve") (some (codes "t1")) 1000)

logs_in : (login_handler http_env eve draws (some request) state).1 ≡ logged_in token
unfolding login_handler attempts lookup get_user set_user user_key insert issue_user_jwt
    set_user_session user_session_key text_eq read_text check_login_rate
logs_in = refl

login_handler-Entitled_example : Entitled http_env eve draws (some request) state
login_handler-Entitled_example =
    login_handler-Entitled http_env eve draws (some request) state token logs_in

abbrev with_session : Map Text
with_session = (set_user_session redis store token (codes "eve") day).0

validate_session_full-logout_handler_example :
    validate_session_full http_env 2000 token (logout_handler http_env token with_session).0 ≡ none
unfolding remove_user_session
validate_session_full-logout_handler_example =
    validate_session_full-logout_handler http_env client_laws 2000 token with_session refl

abbrev hash : Text → Option Text
hash p = some p

abbrev session : Session
session = record { user_id = codes "eve"; session_id = codes "t1" }

abbrev change : PasswordRequest
change = record { current_password = codes "secret"; new_password = codes "longsecret" }

changes : (change_password_handler http_env hash (some session) (some change) store).1 ≡ changed
unfolding change_password_handler lookup get_user set_user user_key insert text_eq read_text
changes = refl

change_password_handler-Change_example :
    (x : Session) × (request : PasswordRequest) × (some session ≡ some x)
    × (some change ≡ some request)
    × Change http_env hash store x request
        (change_password_handler http_env hash (some session) (some change) store).0
change_password_handler-Change_example =
    change_password_handler-Change http_env hash store (some session) (some change) changes
