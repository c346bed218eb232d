-- ===== src/Http/Robots/Created.antt =====
-- roboserver/http_server/provision.go and ephemeral.go: what has been checked and stored when a robot
-- is provisioned or given a session without a registration.
use mathlib.Core.Path.{subst}
use robomesh.Prelude.{
  ℕ, Bool, true, false, not, ◌||◌, Option, none, some, ◌≡◌, refl, sym, inl, inr, Bool-cases, Text,
  codes, if◌then◌else◌,
}
use robomesh.Prelude.Bytes.{is_empty}
use robomesh.Prelude.Results.{ok, err, Result-cases, err≢ok, ok_inj, or_fail-ok, guard-ok}
use robomesh.Database.Client.{RedisLaws}
use robomesh.Database.Keys.{robot_key}
use robomesh.Database.Postgres.{PostgresLaws}
use robomesh.Database.Redis.{ActiveRobot, get_active_robot, set_active_robot}
use robomesh.Database.Redis.Laws.{store_done}
use robomesh.Auth.Verify.{is_valid_public_key}
use robomesh.Auth.Jwt.{issue_session_jwt}
use robomesh.Auth.Nonce.{generate_session_id}
use robomesh.Auth.Handshake.{AuthEnv, Draws, is_ok, is_none, to_option, is_none-eq, to_option-some}
use robomesh.Http.Robots.{
  http_error, ProvisionRequest, EphemeralRequest, EphemeralSession, check_provision, provisioned,
  provision_robot, check_ephemeral, ephemeral_session, store_ephemeral, create_ephemeral_session,
}

module _ {S D : Type 0} (env : AuthEnv S D) where
  -- The key is one that the server takes for valid, no robot had the UUID, and now it has this key.
  pub record Provisioned (laws : PostgresLaws env.pg) (d after : D) (body : Option ProvisionRequest)
      (uuid : Text) : Type 0 where
    pub req : ProvisionRequest
    pub asked : body ≡ some req
    pub named : req.uuid ≡ uuid
    pub valid : is_valid_public_key env.crypto req.public_key ≡ true
    pub vacant : laws.row d uuid ≡ none
    pub created_at : ℕ
    pub stored :
        laws.row after uuid
        ≡ some (record {
          uuid = uuid;
          public_key = req.public_key;
          device_type = req.device_type;
          is_blacklisted = false;
          created_at = created_at;
        })

  check_provision-ok :
      (body : Option ProvisionRequest) {req : ProvisionRequest}
      → check_provision env body ≡ ok req
      → (body ≡ some req) × (is_valid_public_key env.crypto req.public_key ≡ true)
  unfolding check_provision
  check_provision-ok body h =
      let (r, e₁, h₁) = or_fail-ok body _ _ h in
      let (e₂, h₂) =
        guard-ok (not (is_empty r.uuid || (is_empty r.public_key || is_empty r.device_type))) _ _
          h₁ in
      let (e₃, h₃) = guard-ok (is_valid_public_key env.crypto r.public_key) _ _ h₂ in
      subst (λ q. (body ≡ some q) × (is_valid_public_key env.crypto q.public_key ≡ true))
        (ok_inj h₃) (e₁, e₃)

  provisioned-ok :
      (u : Text) (p : D × Bool) {uuid : Text}
      → (provisioned env u p).1 ≡ ok uuid
      → (p.1 ≡ true) × (u ≡ uuid) × ((provisioned env u p).0 ≡ p.0)
  provisioned-ok u (d, true) h = (refl, ok_inj h, refl)
  provisioned-ok u (d, false) h = absurd (err≢ok h)

  -- A robot that is provisioned has a key of a valid form, was not in the registry before, and is now,
  -- with this key and its type and not blacklisted.
  pub provision_robot-Provisioned :
      (laws : PostgresLaws env.pg) (body : Option ProvisionRequest) (d : D) (uuid : Text)
      → (provision_robot env body d).1 ≡ ok uuid
      → Provisioned laws d (provision_robot env body d).0 body uuid
  unfolding provision_robot
  provision_robot-Provisioned laws body d uuid h = elim (Result-cases (check_provision env body)) [
    | inr (e, r) ↦
        let refused : err e ≡ ok uuid = rw (provision_robot, r) at h in absurd (err≢ok refused)
    | inl (req, r) ↦
        let p = env.pg.register_robot d req.uuid req.public_key req.device_type in
        let accepted : (provisioned env req.uuid p).1 ≡ ok uuid = rw (provision_robot, r) at h in
        let (done, named, state) = provisioned-ok req.uuid p accepted in
        let (asked, valid) = check_provision-ok body r in
        let (n, row) = laws.register_done d req.uuid req.public_key req.device_type done in
        let here : Provisioned laws d p.0 body req.uuid = record {
          req = req;
          asked = asked;
          named = refl;
          valid = valid;
          vacant = laws.register_fresh d req.uuid req.public_key req.device_type done;
          created_at = n;
          stored = row;
        } in
        let there : Provisioned laws d (provisioned env req.uuid p).0 body uuid =
          subst (λ x. Provisioned laws d x body uuid) (sym state)
            (subst (λ u. Provisioned laws d p.0 body u) named here) in
        rw (provision_robot, r) there
  ]

  -- The request was complete, its robot had no readable session, the registry gave no robot, and what
  -- is stored is the session with the token that was made for it.
  pub record Created (laws : RedisLaws env.redis.client) (draws : Draws) (remote : Text)
      (body : Option EphemeralRequest) (d : D) (s after : S) (session : EphemeralSession)
      : Type 0 where
    pub req : EphemeralRequest
    pub ip : Text
    pub asked : body ≡ some req
    pub address : ip ≡ (if is_empty req.ip then remote else req.ip)
    pub complete : (is_empty req.uuid || is_empty req.device_type) ≡ false
    pub inactive : is_ok (get_active_robot env.redis s req.uuid) ≡ false
    pub unregistered : env.pg.get_robot_by_uuid d req.uuid ≡ none
    pub issued :
        issue_session_jwt env.jwt_lib env.jwt_config req.uuid req.device_type ip session.session_id
          draws.issued_at
        ≡ ok session.token
    pub encoded : Text
    pub marshalled :
        env.redis.active_codec.marshal (record {
          uuid = req.uuid;
          ip = ip;
          device_type = req.device_type;
          session_jwt = session.token;
          pid = 0;
          connected_at = draws.connected_at;
        })
        ≡ some encoded
    pub stored : laws.contents after (robot_key req.uuid) ≡ some encoded

  -- The request with its address, and what was checked about it.
  record Checked (remote : Text) (body : Option EphemeralRequest) (d : D) (s : S)
      (r : EphemeralRequest) : Type 0 where
    req : EphemeralRequest
    asked : body ≡ some req
    same : record req { ip = if is_empty req.ip then remote else req.ip } ≡ r
    complete : (is_empty req.uuid || is_empty req.device_type) ≡ false
    inactive : is_ok (get_active_robot env.redis s req.uuid) ≡ false
    unregistered : env.pg.get_robot_by_uuid d req.uuid ≡ none

  not_lem : (b : Bool) → not b ≡ true → b ≡ false
  not_lem true h = cc
  not_lem false h = refl

  check_ephemeral-Checked :
      (remote : Text) (body : Option EphemeralRequest) (d : D) (s : S) {r : EphemeralRequest}
      → check_ephemeral env remote body d s ≡ ok r
      → Checked remote body d s r
  unfolding check_ephemeral
  check_ephemeral-Checked remote body d s h =
      let (q, e₁, h₁) = or_fail-ok body _ _ h in
      let (e₂, h₂) = guard-ok (not (is_empty q.uuid || is_empty q.device_type)) _ _ h₁ in
      let (e₃, h₃) = guard-ok (not (is_ok (get_active_robot env.redis s q.uuid))) _ _ h₂ in
      let (e₄, h₄) = guard-ok (is_none (env.pg.get_robot_by_uuid d q.uuid)) _ _ h₃ in
      record {
        req = q;
        asked = e₁;
        same = ok_inj h₄;
        complete = not_lem _ e₂;
        inactive = not_lem _ e₃;
        unregistered = is_none-eq _ e₄;
      }

  ephemeral_session-ok :
      (draws : Draws) (req : EphemeralRequest) {session : EphemeralSession}
      → ephemeral_session env draws req ≡ ok session
      → issue_session_jwt env.jwt_lib env.jwt_config req.uuid req.device_type req.ip
          session.session_id draws.issued_at
        ≡ ok session.token
  unfolding ephemeral_session
  ephemeral_session-ok draws req h =
      let (i, e₁, h₁) = or_fail-ok (generate_session_id draws.session_bytes draws.nano) _ _ h in
      let (t, e₂, h₂) =
        or_fail-ok
          (to_option (
            issue_session_jwt env.jwt_lib env.jwt_config req.uuid req.device_type req.ip i
              draws.issued_at))
          _ _ h₁ in
      subst
        (λ (x : EphemeralSession).
          issue_session_jwt env.jwt_lib env.jwt_config req.uuid req.device_type req.ip x.session_id
            draws.issued_at
          ≡ ok x.token)
        (ok_inj h₂) (to_option-some _ e₂)

  abbrev row_of : Draws → EphemeralRequest → EphemeralSession → ActiveRobot
  row_of draws req session = record {
    uuid = req.uuid;
    ip = req.ip;
    device_type = req.device_type;
    session_jwt = session.token;
    pid = 0;
    connected_at = draws.connected_at;
  }

  store_ephemeral-ok :
      (laws : RedisLaws env.redis.client) (draws : Draws) (req : EphemeralRequest)
      (session : EphemeralSession) (s : S) {x : EphemeralSession}
      → (store_ephemeral env draws req session s).1 ≡ ok x
      → (t : Text) × (session ≡ x)
        × (env.redis.active_codec.marshal (row_of draws req session) ≡ some t)
        × (laws.contents (store_ephemeral env draws req session s).0 (robot_key req.uuid) ≡ some t)
  unfolding store_ephemeral set_active_robot
  store_ephemeral-ok laws draws req session s {x = x} h =
      let set = set_active_robot env.redis s (row_of draws req session) env.redis_ttl in
      elim (Bool-cases (is_none set.1)) [
        | inr e ↦
            let refused : err (http_error 500 (codes "Failed to store session")) ≡ ok x =
              rw (store_ephemeral, e) at h in
            absurd (err≢ok refused)
        | inl e ↦
            let same : ok session ≡ ok x = rw (store_ephemeral, e) at h in
            let (t, m, c) =
              store_done env.redis laws env.redis.active_codec s (robot_key req.uuid)
                (row_of draws req session) env.redis_ttl (is_none-eq _ e) in
            (t, ok_inj same, m, rw (store_ephemeral, e) c)
      ]

  build :
      (laws : RedisLaws env.redis.client) (draws : Draws) (remote : Text)
      (body : Option EphemeralRequest) (d : D) (s : S) (req : EphemeralRequest)
      (made session : EphemeralSession)
      → Checked remote body d s req
      → issue_session_jwt env.jwt_lib env.jwt_config req.uuid req.device_type req.ip made.session_id
          draws.issued_at
        ≡ ok made.token
      → (store_ephemeral env draws req made s).1 ≡ ok session
      → Created laws draws remote body d s (store_ephemeral env draws req made s).0 session
  build laws draws remote body d s req made session c issued h =
      let (t, same, m, there) = store_ephemeral-ok laws draws req made s h in
      let q = c.req in
      let from : record q { ip = if is_empty q.ip then remote else q.ip } ≡ req = c.same in
      let after = (store_ephemeral env draws req made s).0 in
      let made_for : Created laws draws remote body d s after made = record {
        req = q;
        ip = if is_empty q.ip then remote else q.ip;
        asked = c.asked;
        address = refl;
        complete = c.complete;
        inactive = c.inactive;
        unregistered = c.unregistered;
        issued =
            subst
              (λ (x : EphemeralRequest).
                issue_session_jwt env.jwt_lib env.jwt_config x.uuid x.device_type x.ip
                  made.session_id draws.issued_at
                ≡ ok made.token)
              (sym from) issued;
        encoded = t;
        marshalled =
            subst
              (λ (x : EphemeralRequest).
                env.redis.active_codec.marshal (row_of draws x made) ≡ some t)
              (sym from) m;
        stored =
            subst (λ (x : EphemeralRequest). laws.contents after (robot_key x.uuid) ≡ some t)
              (sym from) there;
      } in
      subst (Created laws draws remote body d s after) same made_for

  -- A session without a registration is only created for a complete request, where no session of the
  -- robot could be read and the look-up of its UUID in the registry gave no robot (which it also does
  -- when the query fails); it is stored as the session of this robot, with a token that was made for
  -- it and for the address of the request or, without one, of the caller. Redis is
  -- taken to keep its documented laws.
  pub create_ephemeral_session-Created :
      (laws : RedisLaws env.redis.client) (draws : Draws) (remote : Text)
      (body : Option EphemeralRequest) (d : D) (s : S) (session : EphemeralSession)
      → (create_ephemeral_session env draws remote body d s).1 ≡ ok session
      → Created laws draws remote body d s
          (create_ephemeral_session env draws remote body d s).0
          session
  unfolding create_ephemeral_session
  create_ephemeral_session-Created laws draws remote body d s session h =
      elim (Result-cases (check_ephemeral env remote body d s)) [
        | inr (e, r) ↦
            let refused : err e ≡ ok session = rw (create_ephemeral_session, r) at h in
            absurd (err≢ok refused)
        | inl (req, r) ↦ elim (Result-cases (ephemeral_session env draws req)) [
          | inr (e, i) ↦
              let refused : err e ≡ ok session = rw (create_ephemeral_session, r, i) at h in
              absurd (err≢ok refused)
          | inl (made, i) ↦
              let stored : (store_ephemeral env draws req made s).1 ≡ ok session =
                rw (create_ephemeral_session, r, i) at h in
              let created =
                build laws draws remote body d s req made session
                  (check_ephemeral-Checked remote body d s r) (ephemeral_session-ok draws req i)
                  stored in
              rw (create_ephemeral_session, r, i) created
        ]
      ]
