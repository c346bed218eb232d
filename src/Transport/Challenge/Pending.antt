-- ===== src/Transport/Challenge/Pending.antt =====
-- What waits in Redis between the two steps of authentication (roboserver/udp_server/udp_server.go,
-- roboserver/mqtt_server/mqtt_server.go): a nonce of this server and a robot that may log in.
use mathlib.Core.Path.{subst}
use robomesh.Prelude.{
  false, Option, none, some, ◌≡◌, refl, sym, ap, ◌∙◌, ◌⊎◌, inl, inr, Bool-cases, Option-cases,
  some_inj, none≢some, Text, text_eq, arith,
}
use robomesh.Prelude.Hex.{hex_encode, IsBytes}
use robomesh.Prelude.Results.{Result-cases}
use robomesh.Database.Client.{RedisLaws}
use robomesh.Database.Postgres.{RobotRecord}
use robomesh.Database.Keys.{robot_key}
use robomesh.Database.Redis.{ActiveRobot, set_active_robot}
use robomesh.Database.Redis.Laws.{store_other}
use robomesh.Auth.Nonce.{generate_nonce}
use robomesh.Auth.Handshake.{AuthEnv, Draws}
use robomesh.Transport.Challenge.{
  auth_cache, nonce_ttl, Granted, issue_nonce, check_answer, store_granted, redeem,
}

-- crypto/rand gives bytes.
abbrev pub Random : Option Text → Type 0
Random none = Unit {0}
Random (some b) = IsBytes b

-- Random bytes with a known origin.
abbrev pub Drawn : (Text → Type 0) → Option Text → Type 0
Drawn P none = Unit {0}
Drawn P (some b) = IsBytes b × P b

pub Random-Drawn :
    (P : Text → Type 0) (o : Option Text) → Random o → ((b : Text) → o ≡ some b → P b) → Drawn P o
Random-Drawn P none r f = tt
Random-Drawn P (some b) r f = (r, f b refl)

module _ {S D : Type 0} (env : AuthEnv S D) (laws : RedisLaws env.redis.client) where
  store_granted-other :
      (uuid ip : Text) (draws : Draws) (granted : Granted) (s : S) (j : Text)
      → text_eq (robot_key uuid) j ≡ false
      → laws.contents (store_granted env uuid ip draws granted s).0 j ≡ laws.contents s j
  unfolding store_granted set_active_robot
  store_granted-other uuid ip draws granted s j n =
      let robot : ActiveRobot = record {
        uuid = uuid;
        ip = ip;
        device_type = granted.device_type;
        session_jwt = granted.jwt;
        pid = 0;
        connected_at = draws.connected_at;
      } in
      ground (
        arith,
        store_other env.redis laws env.redis.active_codec s (robot_key uuid) robot env.redis_ttl j
            n,
      )

  -- Step 2 writes at the key of the nonce and at that of the session only.
  pub redeem-contents :
      (key uuid signature ip : Text) (draws : Draws) (s : S) (j : Text)
      → text_eq (robot_key uuid) j ≡ false
      → laws.contents (redeem env key uuid signature ip draws s).0 j
        ≡ laws.contents (env.redis.client.get_del s key).0 j
  unfolding redeem store_granted
  redeem-contents key uuid signature ip draws s j n =
      let (s', reply) = env.redis.client.get_del s key in
      elim (Result-cases (check_answer env uuid signature ip draws reply)) [
        | inl (granted, e) ↦ rw (redeem, e) (store_granted-other uuid ip draws granted s' j n)
        | inr (x, e) ↦ rw (redeem, e) refl
      ]

-- Which bytes may have been drawn for which robot.
module _ {S D : Type 0} (env : AuthEnv S D) (laws : RedisLaws env.redis.client)
    (Source : Text → Text → Type 0) where
  -- The value is a nonce that was drawn for this robot, with the key and the type of a robot that is
  -- registered and not blacklisted.
  pub record Offered (d : D) (uuid value : Text) : Type 0 where
    pub bytes : Text
    pub nonce : Text
    pub robot : RobotRecord
    pub in_range : IsBytes bytes
    pub source : Source uuid bytes
    pub drawn : generate_nonce (some bytes) ≡ some nonce
    pub registered : env.pg.get_robot_by_uuid d uuid ≡ some robot
    pub welcome : robot.is_blacklisted ≡ false
    pub cached : value ≡ auth_cache nonce robot

  abbrev pub Pending : Text → Text → D → S → Type 0
  Pending key uuid d s = (value : Text) → laws.contents s key ≡ some value → Offered d uuid value

  Pending-same :
      (key uuid : Text) (d : D) (s t : S)
      → laws.contents t key ≡ laws.contents s key
      → Pending key uuid d s
      → Pending key uuid d t
  Pending-same key uuid d s t e p value h = p value (sym e ∙ h)

  -- Step 1 leaves Redis alone, or sets an offer.
  issue_nonce-either :
      (key uuid : Text) (random : Option Text) (d : D) (s : S)
      → Drawn (Source uuid) random
      → ((issue_nonce env key uuid random d s).0 ≡ s)
        ⊎ ((v : Text) × ((issue_nonce env key uuid random d s).0
              ≡ (env.redis.client.set s key v nonce_ttl).0)
            × Offered d uuid v)
  unfolding issue_nonce generate_nonce
  issue_nonce-either key uuid random d s r = elim (Option-cases (env.pg.get_robot_by_uuid d uuid)) [
    | inl e ↦ inl (rw (issue_nonce, e) refl)
    | inr (robot, e) ↦ elim (Bool-cases robot.is_blacklisted) [
      | inl b ↦ inl (rw (issue_nonce, e, b) refl)
      | inr b ↦ elim (Option-cases random) [
        | inl f ↦ inl (rw (issue_nonce, e, b, f) refl)
        | inr (bytes, f) ↦ inr (
          auth_cache (hex_encode bytes) robot,
          rw (issue_nonce, e, b, f) refl,
          record {
            bytes = bytes;
            nonce = hex_encode bytes;
            robot = robot;
            in_range = (subst (Drawn (Source uuid)) f r).0;
            source = (subst (Drawn (Source uuid)) f r).1;
            drawn = refl;
            registered = e;
            welcome = b;
            cached = refl;
          },
        )
      ]
    ]
  ]

  set-Pending :
      (key uuid v : Text) (d : D) (s : S)
      → Offered d uuid v
      → Pending key uuid d s
      → Pending key uuid d (env.redis.client.set s key v nonce_ttl).0
  set-Pending key uuid v d s o p value h = elim (laws.set_either s key v nonce_ttl) [
    | inl e ↦ subst (Offered d uuid) (some_inj (sym e ∙ h)) o
    | inr e ↦ p value (sym e ∙ h)
  ]

  pub issue_nonce-Pending :
      (key uuid : Text) (random : Option Text) (d : D) (s : S)
      → Drawn (Source uuid) random
      → Pending key uuid d s
      → Pending key uuid d (issue_nonce env key uuid random d s).0
  issue_nonce-Pending key uuid random d s r p = elim (issue_nonce-either key uuid random d s r) [
    | inl e ↦ subst (Pending key uuid d) (sym e) p
    | inr (v, e, o) ↦ subst (Pending key uuid d) (sym e) (set-Pending key uuid v d s o p)
  ]

  -- Other keys than the one of the step.
  pub issue_nonce-other :
      (key uuid : Text) (random : Option Text) (d : D) (s : S) (j : Text)
      → Drawn (Source uuid) random
      → text_eq key j ≡ false
      → laws.contents (issue_nonce env key uuid random d s).0 j ≡ laws.contents s j
  issue_nonce-other key uuid random d s j r n = elim (issue_nonce-either key uuid random d s r) [
    | inl e ↦ ap (λ t. laws.contents t j) e
    | inr (v, e, o) ↦ ap (λ t. laws.contents t j) e ∙ laws.set_other s key v nonce_ttl j n
  ]

  get_del-Pending :
      (key uuid : Text) (d : D) (s : S)
      → Pending key uuid d s
      → Pending key uuid d (env.redis.client.get_del s key).0
  get_del-Pending key uuid d s p value h = elim (laws.get_del_either s key) [
    | inl e ↦ absurd (none≢some (sym e ∙ h))
    | inr e ↦ p value (sym e ∙ h)
  ]

  pub redeem-Pending :
      (key uuid signature ip : Text) (draws : Draws) (d : D) (s : S)
      → text_eq (robot_key uuid) key ≡ false
      → Pending key uuid d s
      → Pending key uuid d (redeem env key uuid signature ip draws s).0
  redeem-Pending key uuid signature ip draws d s n p =
      Pending-same key uuid d (env.redis.client.get_del s key).0
        (redeem env key uuid signature ip draws s).0
        (redeem-contents env laws key uuid signature ip draws s key n)
        (get_del-Pending key uuid d s p)
