-- ===== src/Auth/Handshake/Outcome.antt =====
-- What a handshake of roboserver/auth/handshake.go has established when it succeeds, and what it
-- leaves when it fails.
use mathlib.Core.List.{append_assoc}
use mathlib.Core.Path.{subst₂}
use robomesh.Prelude.{
  false, not, Option, none, some, List, [], ◌∷◌, ◌++◌, ◌≡◌, ◌≢◌, refl, sym, ap, ◌∙◌, Text, codes,
  arith,
}
use robomesh.Prelude.Bytes.{is_empty, trim_space}
use robomesh.Prelude.Results.{ok, err, ok_inj}
use robomesh.Conn.{
  Conn, Handler, ◌>>=◌, ◌>>◌, scan, require, expect, require-ok, expect-ok, scan-ok, demand-ok,
  demand, write-ok,
}
use robomesh.Database.Redis.{ActiveRobot, DbError, set_active_robot}
use robomesh.Database.Postgres.{RobotRecord}
use robomesh.Auth.Verify.{verify_robot_signature}
use robomesh.Auth.Verify.Sound.{Authentic, verify_robot_signature_iff}
use robomesh.Auth.Jwt.{issue_session_jwt}
use robomesh.Auth.Nonce.{generate_nonce, generate_session_id}
use robomesh.Auth.Handshake.{
  is_ok-eq, to_option-some, AuthEnv, Draws, HandshakeResult, HandshakeError, server_error,
  store_failed, is_ok, to_option, is_none, store_session, challenge, perform_handshake,
}

module _ {S D : Type 0} (env : AuthEnv S D) (d : D) (ip : Text) (draws : Draws) where
  -- The session that a handshake stores.
  abbrev pub session_of : HandshakeResult → ActiveRobot
  session_of r = record {
    uuid = r.uuid;
    ip = ip;
    device_type = r.device_type;
    session_jwt = r.session_jwt;
    pid = 0;
    connected_at = draws.connected_at;
  }

  -- The dialogue of a handshake that ends well: the peer sends two lines, the UUID of a registered
  -- robot that is not blacklisted and an authentic signature of the nonce that was drawn; the
  -- server's three lines end with the token that it issued for that robot; the session is stored.
  pub record Dialogue (c c' : Conn S) (r : HandshakeResult) : Type 0 where
    pub uuid_line : Text
    pub signature_line : Text
    pub robot : RobotRecord
    pub nonce : Text
    pub received : c.input ≡ uuid_line ∷ signature_line ∷ c'.input
    pub named : trim_space uuid_line ≡ r.uuid
    pub registered : env.pg.get_robot_by_uuid d r.uuid ≡ some robot
    pub allowed : robot.is_blacklisted ≡ false
    pub drawn : generate_nonce draws.nonce_bytes ≡ some nonce
    pub signed : Authentic env.crypto robot.public_key nonce (trim_space signature_line)
    pub typed : r.device_type ≡ robot.device_type
    pub issued :
        issue_session_jwt env.jwt_lib env.jwt_config r.uuid robot.device_type ip r.session_id
          draws.issued_at
        ≡ ok r.session_jwt
    pub sent :
        c'.output
        ≡ c.output
          ++ codes "AUTH_CHALLENGE"
            ∷ (codes "NONCE " ++ nonce)
            ∷ (codes "AUTH_OK " ++ r.session_jwt)
            ∷ []
    pub stored : set_active_robot env.redis c.world (session_of r) env.redis_ttl ≡ (c'.world, none)

  store_session-ok :
      {B : Type 0} (robot : ActiveRobot) (m : Handler S HandshakeError B) (c : Conn S) {r : B}
      {c' : Conn S}
      → (store_session env robot >> m) c ≡ (ok r, c')
      → (s' : S) × (set_active_robot env.redis c.world robot env.redis_ttl ≡ (s', none))
        × (m (record c { world = s' }) ≡ (ok r, c'))
  unfolding store_session ◌>>=◌ require
  store_session-ok {B} robot m c {r} {c'} h =
      split (set_active_robot env.redis c.world robot env.redis_ttl) refl h
    where
      split :
          (p : S × Option DbError)
          → set_active_robot env.redis c.world robot env.redis_ttl ≡ p
          → (require (is_none p.1) server_error store_failed >> m) (record c { world = p.0 })
            ≡ (ok r, c')
          → (s' : S) × (set_active_robot env.redis c.world robot env.redis_ttl ≡ (s', none))
            × (m (record c { world = s' }) ≡ (ok r, c'))
      split (s', none) e k = (s', e, k)
      split (s', some x) e k = cc (ap (λ p. p.0) k)

  -- The second half of the dialogue.
  record Challenge (uuid : Text) (robot : RobotRecord) (c c' : Conn S) (r : HandshakeResult)
      : Type 0 where
    signature_line : Text
    nonce : Text
    received : c.input ≡ signature_line ∷ c'.input
    named : r.uuid ≡ uuid
    drawn : generate_nonce draws.nonce_bytes ≡ some nonce
    signed : Authentic env.crypto robot.public_key nonce (trim_space signature_line)
    typed : r.device_type ≡ robot.device_type
    issued :
        issue_session_jwt env.jwt_lib env.jwt_config uuid robot.device_type ip r.session_id
          draws.issued_at
        ≡ ok r.session_jwt
    sent :
        c'.output
        ≡ (c.output ++ (codes "NONCE " ++ nonce) ∷ []) ++ (codes "AUTH_OK " ++ r.session_jwt) ∷ []
    stored : set_active_robot env.redis c.world (session_of r) env.redis_ttl ≡ (c'.world, none)

  challenge-Challenge :
      (uuid : Text) (robot : RobotRecord) (c : Conn S) (r : HandshakeResult) (c' : Conn S)
      → challenge env ip uuid draws robot c ≡ (ok r, c')
      → Challenge uuid robot c c' r
  unfolding challenge
  challenge-Challenge uuid robot c r c' h =
      let (nonce, e₁, h₁) = expect-ok (generate_nonce draws.nonce_bytes) _ _ _ c h in
      let h₂ = write-ok _ _ c h₁ in
      let (line, rest, e₃, h₃) = scan-ok _ _ _ h₂ in
      let (e₄, h₄) = require-ok (not (is_empty (trim_space line))) _ _ _ _ h₃ in
      let (e₅, h₅) =
        require-ok
          (is_ok (verify_robot_signature env.crypto robot.public_key nonce (trim_space line))) _ _ _
          _ h₄ in
      let (sid, e₆, h₆) = demand-ok (generate_session_id draws.session_bytes draws.nano) _ _ _ h₅ in
      let (jwt, e₇, h₇) =
        expect-ok
          (to_option (
            issue_session_jwt env.jwt_lib env.jwt_config uuid robot.device_type ip sid
              draws.issued_at))
          _ _ _ _ h₆ in
      let (s', e₈, h₈) = store_session-ok _ _ _ h₇ in
      let h₉ = write-ok _ _ _ h₈ in
      subst₂ (λ x y. Challenge uuid robot c y x) (ok_inj (ap (λ p. p.0) h₉)) (ap (λ p. p.1) h₉)
        (record {
          signature_line = line;
          nonce = nonce;
          received = e₃;
          named = refl;
          drawn = e₁;
          signed = (verify_robot_signature_iff env.crypto _ _ _).0 (is_ok-eq _ e₅);
          typed = refl;
          issued = to_option-some _ e₇;
          sent = refl;
          stored = e₈;
        })

  append_three :
      (xs : List Text) (a b e : Text) → ((xs ++ a ∷ []) ++ b ∷ []) ++ e ∷ [] ≡ xs ++ a ∷ b ∷ e ∷ []
  append_three xs a b e = simp append_assoc

  -- A handshake succeeds only with two lines from the peer: the UUID of a registered robot that is not
  -- blacklisted, and a signature by its key of the nonce that was drawn and sent; the token that the
  -- last line gives out is the one issued for that robot, and its session is stored.
  pub perform_handshake-Dialogue :
      (c : Conn S) (r : HandshakeResult) (c' : Conn S)
      → perform_handshake env d ip draws c ≡ (ok r, c')
      → Dialogue c c' r
  unfolding perform_handshake
  perform_handshake-Dialogue c r c' h =
      let h₁ = write-ok _ _ c h in
      let (line, rest, e₂, h₂) = scan-ok _ _ _ h₁ in
      let (e₃, h₃) = require-ok (not (is_empty (trim_space line))) _ _ _ _ h₂ in
      let (robot, e₄, h₄) = expect-ok (env.pg.get_robot_by_uuid d (trim_space line)) _ _ _ _ h₃ in
      let (e₅, h₅) = require-ok (not robot.is_blacklisted) _ _ _ _ h₄ in
      let k : Challenge (trim_space line) robot _ c' r =
        challenge-Challenge (trim_space line) robot _ r c' h₅ in
      record {
        uuid_line = line;
        signature_line = k.signature_line;
        robot = robot;
        nonce = k.nonce;
        received = e₂ ∙ ap (◌∷◌ line) k.received;
        named = sym k.named;
        registered = ap (env.pg.get_robot_by_uuid d) k.named ∙ e₄;
        allowed = ground arith;
        drawn = k.drawn;
        signed = k.signed;
        typed = k.typed;
        issued =
            ap
              (λ u.
                issue_session_jwt env.jwt_lib env.jwt_config u robot.device_type ip r.session_id
                  draws.issued_at)
              k.named
            ∙ k.issued;
        sent = k.sent ∙ append_three c.output _ _ _;
        stored = k.stored;
      }

  -- A handshake that fails has left Redis as it was, unless it failed in storing the session.
  pub perform_handshake_failed :
      (c : Conn S) (e : HandshakeError)
      → (perform_handshake env d ip draws c).0 ≡ err e
      → e ≢ store_failed
      → (perform_handshake env d ip draws c).1.world ≡ c.world
  unfolding perform_handshake ◌>>=◌ scan require expect demand
  perform_handshake_failed c e h k = ground arith
