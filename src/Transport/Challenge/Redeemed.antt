-- ===== src/Transport/Challenge/Redeemed.antt =====
-- What it takes to be granted a session by step 2 of the authentication that
-- roboserver/udp_server/udp_server.go and roboserver/mqtt_server/mqtt_server.go share.
use mathlib.Core.Path.{subst}
use robomesh.Prelude.{ℕ, false, some, ◌≡◌, refl, sym, ap, ◌∙◌, inl, inr, some_inj, Text, arith}
use robomesh.Prelude.Bytes.{contains, split3, split3-append}
use robomesh.Prelude.Hex.{hex_value}
use robomesh.Prelude.Results.{ok, err, Result-cases, err≢ok, or_fail-ok, guard-ok, ok_inj}
use robomesh.Database.Client.{RedisLaws, Reply, found, missing, failed}
use robomesh.Database.Postgres.{RobotRecord}
use robomesh.Auth.Verify.{verify_robot_signature}
use robomesh.Auth.Verify.Sound.{Authentic, verify_robot_signature_iff}
use robomesh.Auth.Jwt.{issue_session_jwt}
use robomesh.Auth.Nonce.{generate_nonce, generate_session_id, generate_nonce_clean}
use robomesh.Auth.Handshake.{AuthEnv, Draws, is_ok, to_option, is_ok-eq, to_option-some}
use robomesh.Transport.Challenge.{waiting, auth_cache, Granted, check_answer, store_granted, redeem}
use robomesh.Transport.Challenge.Pending.{Offered, Pending}

waiting-some : (r : Reply) {v : Text} → waiting r ≡ some v → r ≡ found v
waiting-some (found v) h = ground arith
waiting-some missing h = cc
waiting-some failed h = cc

module _ {S D : Type 0} (env : AuthEnv S D) where
  -- What was checked before a session was granted, with the parts of the cache.
  pub record Checked (uuid signature ip : Text) (draws : Draws) (reply : Reply) (granted : Granted)
      : Type 0 where
    pub cache : Text
    pub nonce : Text
    pub public_key : Text
    pub replied : reply ≡ found cache
    pub parts : split3 b'|' cache ≡ some (nonce, public_key, granted.device_type)
    pub signed : Authentic env.crypto public_key nonce signature
    pub issued :
        issue_session_jwt env.jwt_lib env.jwt_config uuid granted.device_type ip granted.session_id
          draws.issued_at
        ≡ ok granted.jwt

  check_answer-Checked :
      (uuid signature ip : Text) (draws : Draws) (reply : Reply) {granted : Granted}
      → check_answer env uuid signature ip draws reply ≡ ok granted
      → Checked uuid signature ip draws reply granted
  unfolding check_answer
  check_answer-Checked uuid signature ip draws reply h =
      let (cache, e₁, h₁) = or_fail-ok (waiting reply) _ _ h in
      let (parts, e₂, h₂) = or_fail-ok (split3 b'|' cache) _ _ h₁ in
      let (nonce, public_key, device_type) = parts in
      let (e₃, h₃) =
        guard-ok (is_ok (verify_robot_signature env.crypto public_key nonce signature)) _ _ h₂ in
      let (session_id, e₄, h₄) =
        or_fail-ok (generate_session_id draws.session_bytes draws.nano) _ _ h₃ in
      let (jwt, e₅, h₅) =
        or_fail-ok
          (to_option (
            issue_session_jwt env.jwt_lib env.jwt_config uuid device_type ip session_id
              draws.issued_at))
          _ _ h₄ in
      subst (Checked uuid signature ip draws reply) (ok_inj h₅) record {
        cache = cache;
        nonce = nonce;
        public_key = public_key;
        replied = waiting-some reply e₁;
        parts = e₂;
        signed =
            (verify_robot_signature_iff env.crypto public_key nonce signature).0 (is_ok-eq _ e₃);
        issued = to_option-some _ e₅;
      }

  -- A session that is granted was stored.
  store_granted-ok :
      (uuid ip : Text) (draws : Draws) (granted g : Granted) (s : S)
      → (store_granted env uuid ip draws granted s).1 ≡ ok g
      → granted ≡ g
  unfolding store_granted
  store_granted-ok uuid ip draws granted g s h = ground arith

  -- What stands behind a session: a robot that is registered and not blacklisted, whose key signed the
  -- nonce of bytes that were drawn for it, and a token for that robot and its type.
  pub record Proven (Source : Text → Text → Type 0) (d : D) (uuid signature ip : Text)
      (issued_at : ℕ) (granted : Granted) : Type 0 where
    pub bytes : Text
    pub source : Source uuid bytes
    pub nonce : Text
    pub robot : RobotRecord
    pub drawn : generate_nonce (some bytes) ≡ some nonce
    pub registered : env.pg.get_robot_by_uuid d uuid ≡ some robot
    pub welcome : robot.is_blacklisted ≡ false
    pub signed : Authentic env.crypto robot.public_key nonce signature
    pub device_type : granted.device_type ≡ robot.device_type
    pub issued :
        issue_session_jwt env.jwt_lib env.jwt_config uuid robot.device_type ip granted.session_id
          issued_at
        ≡ ok granted.jwt

  -- The keys in the registry have no vertical bar, as PEM and hexadecimal digits have none.
  abbrev pub PlainKeys : D → Type 0
  PlainKeys d =
      (uuid : Text) (robot : RobotRecord)
      → env.pg.get_robot_by_uuid d uuid ≡ some robot
      → contains b'|' robot.public_key ≡ false

  module _ (laws : RedisLaws env.redis.client) where
    pub redeem-Checked :
        (key uuid signature ip : Text) (draws : Draws) (s : S) (granted : Granted)
        → (redeem env key uuid signature ip draws s).1 ≡ ok granted
        → Checked uuid signature ip draws (env.redis.client.get_del s key).1 granted
    unfolding redeem
    redeem-Checked key uuid signature ip draws s granted h =
        let (s', reply) = env.redis.client.get_del s key in
        elim (Result-cases (check_answer env uuid signature ip draws reply)) [
          | inl (g, e) ↦
              let stored : (store_granted env uuid ip draws g s').1 ≡ ok granted =
                rw (redeem, e) at h in
              subst (Checked uuid signature ip draws reply)
                (store_granted-ok uuid ip draws g granted s' stored)
                (check_answer-Checked uuid signature ip draws reply e)
          | inr (x, e) ↦
              let refused : err x ≡ ok granted = rw (redeem, e) at h in absurd (err≢ok refused)
        ]

    -- The parts of the cache are those that it was made of.
    auth_cache-parts :
        (Source : Text → Text → Type 0) (d : D) (uuid value : Text)
        → PlainKeys d
        → (o : Offered env laws Source d uuid value)
        → split3 b'|' value ≡ some (o.nonce, o.robot.public_key, o.robot.device_type)
    unfolding auth_cache hex_value
    auth_cache-parts Source d uuid value plain o =
        ap (split3 b'|') o.cached
        ∙ split3-append b'|' o.nonce o.robot.public_key o.robot.device_type
            (generate_nonce_clean b'|' o.bytes o.nonce o.in_range refl o.drawn)
            (plain uuid o.robot o.registered)

    -- A session is granted only to a registered robot that is not blacklisted and whose key signed a
    -- nonce that the server drew, if what waits in Redis was put there by step 1 and no registered
    -- key has a vertical bar. The token is for this robot and its registered type.
    pub redeem-Proven :
        (Source : Text → Text → Type 0) (key uuid signature ip : Text) (draws : Draws) (d : D)
        (s : S) (granted : Granted)
        → PlainKeys d
        → Pending env laws Source key uuid d s
        → (redeem env key uuid signature ip draws s).1 ≡ ok granted
        → Proven Source d uuid signature ip draws.issued_at granted
    redeem-Proven Source key uuid signature ip draws d s granted plain pending h =
        let c = redeem-Checked key uuid signature ip draws s granted h in
        let (there, gone) = laws.get_del_found s key c.cache c.replied in
        let o = pending c.cache there in
        let same = some_inj (sym (auth_cache-parts Source d uuid c.cache plain o) ∙ c.parts) in
        let signed = c.signed in
        let issued = c.issued in
        record {
          bytes = o.bytes;
          source = o.source;
          nonce = o.nonce;
          robot = o.robot;
          drawn = o.drawn;
          registered = o.registered;
          welcome = o.welcome;
          signed = subst (λ t. Authentic env.crypto t.1 t.0 signature) (sym same) signed;
          device_type = sym (ap (λ t. t.2) same);
          issued =
              subst
                (λ t.
                  issue_session_jwt env.jwt_lib env.jwt_config uuid t.2 ip granted.session_id
                    draws.issued_at
                  ≡ ok granted.jwt)
                (sym same) issued;
        }
