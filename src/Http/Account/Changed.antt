-- ===== src/Http/Account/Changed.antt =====
-- When roboserver/http_server/auth.go changes a password.
use robomesh.Prelude.{
  ◌≤◌, true, Option, none, some, ◌≡◌, refl, sym, ap, ◌∙◌, Text, length, arith, inl, inr,
  Option-cases,
}
use robomesh.Prelude.Results.{ok, Result-cases}
use robomesh.Database.Redis.{User, get_user, set_user}
use robomesh.Http.UserSession.{HttpEnv, Session}
use robomesh.Http.Account.{PasswordRequest, changed, store_password, change_password_handler}

module _ {S : Type 0} (env : HttpEnv S) (hash : Text → Option Text) (s : S) where
  -- A change that was right, and what it stored.
  pub record Change (session : Session) (request : PasswordRequest) (s' : S) : Type 0 where
    pub user : User
    pub new_hash : Text
    pub known : get_user env.redis s session.user_id ≡ ok user
    pub fits : env.compare_hash user.password_hash request.current_password ≡ true
    pub long_enough : 8 ≤ length request.new_password
    pub short_enough : length request.new_password ≤ 72
    pub hashed : hash request.new_password ≡ some new_hash
    pub stored : set_user env.redis s (record user { password_hash = new_hash }) ≡ (s', none)

  store_password-changed :
      (h : Option Text) (user : User)
      → (store_password env h user s).1 ≡ changed
      → (new_hash : Text) × (h ≡ some new_hash)
        × (set_user env.redis s (record user { password_hash = new_hash })
            ≡ ((store_password env h user s).0, none))
  unfolding store_password
  store_password-changed none user e = ground arith
  store_password-changed (some h) user e =
      elim (Option-cases (set_user env.redis s (record user { password_hash = h })).1) [
        | inl n ↦ (h, refl, ground arith)
        | inr (x, n) ↦ absurd (ground arith)
      ]

  -- A request that passes every test ends in the store of the new hash.
  record Passes (session : Session) (request : PasswordRequest) : Type 0 where
    user : User
    known : get_user env.redis s session.user_id ≡ ok user
    fits : env.compare_hash user.password_hash request.current_password ≡ true
    long_enough : 8 ≤ length request.new_password
    short_enough : length request.new_password ≤ 72
    ends :
        change_password_handler env hash (some session) (some request) s
        ≡ store_password env (hash request.new_password) user s

  change_password_handler-Passes :
      (x : Session) (request : PasswordRequest)
      → (change_password_handler env hash (some x) (some request) s).1 ≡ changed
      → Passes x request
  unfolding change_password_handler
  change_password_handler-Passes x request e =
      elim (Result-cases (get_user env.redis s x.user_id)) [
        | inr (y, g) ↦ absurd (ground arith)
        | inl (user, g) ↦ record {
          user = user;
          known = g;
          fits = ground arith;
          long_enough = ground arith;
          short_enough = ground arith;
          ends = ground arith;
        }
      ]

  -- A password is changed only for a session, from a current password that fits the stored hash of its
  -- user, to one of 8 to 72 bytes; the user with the hash of the new one is then stored.
  pub change_password_handler-Change :
      (session : Option Session) (body : Option PasswordRequest)
      → (change_password_handler env hash session body s).1 ≡ changed
      → (x : Session) × (request : PasswordRequest) × (session ≡ some x)
        × (body ≡ some request)
        × Change x request (change_password_handler env hash session body s).0
  unfolding change_password_handler
  change_password_handler-Change none body e = ground arith
  change_password_handler-Change (some x) none e = ground arith
  change_password_handler-Change (some x) (some request) e =
      let p : Passes x request = change_password_handler-Passes x request e in
      let (new_hash, hashed, stored) =
        store_password-changed (hash request.new_password) p.user
          (sym (ap (λ r. r.1) p.ends) ∙ e) in
      (
        x,
        request,
        refl,
        refl,
        record {
          user = p.user;
          new_hash = new_hash;
          known = p.known;
          fits = p.fits;
          long_enough = p.long_enough;
          short_enough = p.short_enough;
          hashed = hashed;
          stored = stored ∙ ap (λ r. (r.0, none)) (sym p.ends);
        },
      )
