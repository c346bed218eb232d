-- ===== src/Transport/Tcp/Register/Activated.antt =====
-- The last step of a registration over roboserver/tcp_server/tcp_server.go: what it stores and sends.
use mathlib.Core.Path.{subst₂}
use robomesh.Prelude.{
  none, some, [], ◌∷◌, ◌++◌, ◌≡◌, refl, ap, Text, codes, arith, Option-cases, inl, inr,
}
use robomesh.Prelude.Results.{Result, ok, err, ok_inj, err≢ok}
use robomesh.Conn.{Conn, Handler, ◌>>=◌, ◌>>◌, expect-ok, demand-ok, write-ok}
use robomesh.Database.Redis.{ActiveRobot, set_active_robot, set_robot_public_key}
use robomesh.Auth.Jwt.{issue_session_jwt}
use robomesh.Auth.Nonce.{generate_session_id}
use robomesh.Auth.Handshake.{HandshakeResult, Draws, to_option}
use robomesh.Transport.World.{World, ServerEnv}
use robomesh.Transport.Tcp.Register.{RegisterError, Request, activate, store_active}

to_option-some : {E A : Type 0} (r : Result E A) {a : A} → to_option r ≡ some a → r ≡ ok a
to_option-some (ok a) h = ground arith
to_option-some (err e) h = cc

-- The session that a registration gives.
abbrev pub session_of : Text → Draws → Request → Text → ActiveRobot
session_of ip draws request token = record {
  uuid = request.uuid;
  ip = ip;
  device_type = request.device_type;
  session_jwt = token;
  pid = 0;
  connected_at = draws.connected_at;
}

module _ {S D : Type 0} (env : ServerEnv S D) where
  -- Redis with the session and then, as far as it can be stored, the key of the robot.
  abbrev pub with_session : Text → Draws → Request → Text → S → S
  with_session ip draws request token s =
      (set_robot_public_key env.auth.redis
        (set_active_robot env.auth.redis s (session_of ip draws request token) env.auth.redis_ttl).0
        request.uuid request.public_key env.auth.redis_ttl).0

  -- The end of a registration: the session, its token, and what is stored for it.
  pub record Activated (ip : Text) (draws : Draws) (request : Request) (c c' : Conn (World S D))
      (r : HandshakeResult) : Type 0 where
    pub input_kept : c'.input ≡ c.input
    pub named : r.uuid ≡ request.uuid
    pub typed : r.device_type ≡ request.device_type
    pub issued :
        issue_session_jwt env.auth.jwt_lib env.auth.jwt_config request.uuid request.device_type ip
          r.session_id draws.issued_at
        ≡ ok r.session_jwt
    pub stored :
        (set_active_robot env.auth.redis c.world.redis
          (session_of ip draws request r.session_jwt)
          env.auth.redis_ttl).1
        ≡ none
    pub world :
        c'.world
        ≡ record c.world { redis = with_session ip draws request r.session_jwt c.world.redis }
    pub sent : c'.output ≡ c.output ++ (codes "REGISTER_OK " ++ r.session_jwt) ∷ []

  store_active-ok :
      {B : Type 0} (request : Request) (robot : ActiveRobot)
      (m : Handler (World S D) RegisterError B) (c : Conn (World S D)) {r : B}
      {c' : Conn (World S D)}
      → (store_active env request robot >> m) c ≡ (ok r, c')
      → let s = set_active_robot env.auth.redis c.world.redis robot env.auth.redis_ttl in
        (s.1 ≡ none)
        × (m (record c {
          world = record c.world {
            redis =
                (set_robot_public_key env.auth.redis s.0 request.uuid request.public_key
                  env.auth.redis_ttl).0;
          };
        })
            ≡ (ok r, c'))
  unfolding store_active ◌>>=◌
  store_active-ok request robot m c h =
      elim (Option-cases
        (set_active_robot env.auth.redis c.world.redis robot env.auth.redis_ttl).1) [
          | inl e ↦ (e, rw (e, store_active) at h)
          | inr (x, e) ↦ absurd (err≢ok (ap (λ p. p.0) (rw (e, store_active) at h)))
        ]

  pub activate-Activated :
      (ip : Text) (draws : Draws) (request : Request) (c : Conn (World S D)) (r : HandshakeResult)
      (c' : Conn (World S D))
      → activate env ip draws request c ≡ (ok r, c')
      → Activated ip draws request c c' r
  unfolding activate
  activate-Activated ip draws request c r c' h =
      let (sid, e₁, h₁) = demand-ok (generate_session_id draws.session_bytes draws.nano) _ _ c h in
      let (jwt, e₂, h₂) =
        expect-ok
          (to_option (
            issue_session_jwt env.auth.jwt_lib env.auth.jwt_config request.uuid request.device_type
              ip sid draws.issued_at))
          _ _ _ c h₁ in
      let (e₃, h₃) = store_active-ok request _ _ c h₂ in
      let h₄ = write-ok _ _ _ h₃ in
      subst₂ (λ x y. Activated ip draws request c y x) (ok_inj (ap (λ p. p.0) h₄))
        (ap (λ p. p.1) h₄)
        (record {
          input_kept = refl;
          named = refl;
          typed = refl;
          issued = to_option-some _ e₂;
          stored = e₃;
          world = refl;
          sent = refl;
        })
