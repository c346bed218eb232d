-- ===== src/Http/Account.antt =====
-- Tickets and passwords, roboserver/http_server/auth.go: issueTicketHandler and changePasswordHandler,
-- with Redis present. The session is what validateSessionFull gave; the body and bcrypt are arguments.
pub mod Changed
use robomesh.Prelude.{ℕ, Bool, Option, none, some, Text, length, ltb, if◌then◌else◌}
use robomesh.Prelude.Int.{ℤ, pos}
use robomesh.Prelude.Results.{Result, ok, err}
use robomesh.Database.Redis.{User, DbError, get_user, set_user, set_ticket}
use robomesh.Auth.Nonce.{generate_nonce}
use robomesh.Http.UserSession.{HttpEnv, Session}

-- 30 * time.Second
abbrev pub ticket_ttl : ℤ
ticket_ttl = pos 30000000000

pub data TicketReply : Type 0 where
  no_session not_generated not_stored : TicketReply
  issued : (ticket : Text) → TicketReply

pub record PasswordRequest : Type 0 where
  pub current_password : Text
  pub new_password : Text

pub data PasswordReply : Type 0 where
  no_session bad_request too_short too_long no_user wrong_password not_hashed not_updated :
      PasswordReply
  changed : PasswordReply

module _ {S : Type 0} (env : HttpEnv S) where
  unfoldable pub issue_ticket_handler : Option Session → Option Text → S → S × TicketReply
  issue_ticket_handler none random s = (s, no_session)
  issue_ticket_handler (some session) random s = elim (generate_nonce random) [
    | none ↦ (s, not_generated)
    | some ticket ↦
        let (s', e) = set_ticket env.redis s ticket session.user_id ticket_ttl in
        elim e [ some x ↦ (s', not_stored) | none ↦ (s', issued ticket) ]
  ]

  -- The new hash is stored; `hash` is bcrypt.GenerateFromPassword.
  unfoldable pub store_password : Option Text → User → S → S × PasswordReply
  store_password none user s = (s, not_hashed)
  store_password (some hash) user s =
      let (s', e) = set_user env.redis s (record user { password_hash = hash }) in
      elim e [ some x ↦ (s', not_updated) | none ↦ (s', changed) ]

  unfoldable pub change_password_handler :
      (Text → Option Text) → Option Session → Option PasswordRequest → S → S × PasswordReply
  unfolding store_password
  change_password_handler hash none body s = (s, no_session)
  change_password_handler hash (some session) none s = (s, bad_request)
  change_password_handler hash (some session) (some request) s =
      if ltb (length request.new_password) 8
      then (s, too_short)
      else (if ltb 72 (length request.new_password)
          then (s, too_long)
          else elim (get_user env.redis s session.user_id) [
            | err e ↦ (s, no_user)
            | ok user ↦
                if env.compare_hash user.password_hash request.current_password
                then store_password (hash request.new_password) user s
                else (s, wrong_password)
          ])
