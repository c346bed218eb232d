-- ===== src/Examples/Parts.antt =====
-- A store in memory, a registry in memory, toy key checks and tokens, each with the laws that it
-- satisfies, and the environments that are made of them.
use robomesh.Prelude.{
  ◌+◌, ◌-◌, Bool, true, false, Option, none, some, List, [], ◌∷◌, ◌++◌, ◌≡◌, refl, ap, inl, Text,
  codes, text_eq, text_eq_iff, text_eq_refl, arith, if◌then◌else◌,
}
use robomesh.Prelude.Bytes.{contains}
use robomesh.Prelude.Assoc.{Map, lookup, insert, delete, lookup-insert, lookup-delete}
use robomesh.Prelude.Int.{ℤ, pos}
use robomesh.Prelude.Results.{Result, ok, err}
use robomesh.Database.Client.{RedisClient, RedisLaws, Reply, found, missing, RoundTrips}
use robomesh.Database.Redis.{RedisHandler}
use robomesh.Database.Postgres.{Postgres, PostgresLaws, RobotRecord}
use robomesh.Auth.Verify.{Crypto, ed25519}
use robomesh.Auth.Jwt.{JwtLib, JwtLibLaws, JwtConfig}
use robomesh.Examples.Codecs.{text_format, number_format, int_format, pair, codec, codec-RoundTrips}

-- Redis as a map; every command succeeds.
abbrev pub reply_of : Option Text → Reply
reply_of none = missing
reply_of (some v) = found v

abbrev pub present : Option Text → Bool
present none = false
present (some v) = true

abbrev pub client : RedisClient (Map Text)
client = record {
  get = λ s k. reply_of (lookup k s);
  set = λ s k v d. (insert k v s, true);
  del = λ s k. (delete k s, true);
  exists = λ s k. some (present (lookup k s));
  get_del = λ s k. (delete k s, reply_of (lookup k s));
}

reply_of-found : (o : Option Text) (v : Text) → reply_of o ≡ found v → o ≡ some v
reply_of-found none v h = cc
reply_of-found (some w) v h = cc

reply_of-missing : (o : Option Text) → reply_of o ≡ missing → o ≡ none
reply_of-missing none h = refl
reply_of-missing (some w) h = cc

present-eq :
    (o : Option Text) (b : Bool)
    → some (present o) ≡ some b
    → b ≡ elim o [ none ↦ false | some v ↦ true ]
present-eq none b h = cc
present-eq (some v) b h = cc

pub client_laws : RedisLaws client
client_laws = record {
  contents = λ s k. lookup k s;
  get_found = λ s k v h. reply_of-found (lookup k s) v h;
  get_missing = λ s k h. reply_of-missing (lookup k s) h;
  exists_lem = λ s k b h. present-eq (lookup k s) b h;
  set_done = λ s k v d h. ground (arith, lookup-insert k k v s, text_eq_refl k);
  set_other = λ s k v d j h. ground (arith, lookup-insert k j v s);
  set_either = λ s k v d. inl (ground (arith, lookup-insert k k v s, text_eq_refl k));
  del_done = λ s k h. ground (arith, lookup-delete k k s, text_eq_refl k);
  del_other = λ s k j h. ground (arith, lookup-delete k j s);
  get_del_found = λ s k v h.
      (reply_of-found (lookup k s) v h, ground (arith, lookup-delete k k s, text_eq_refl k));
  get_del_either = λ s k. inl (ground (arith, lookup-delete k k s, text_eq_refl k));
  get_del_missing = λ s k h. reply_of-missing (lookup k s) h;
  get_del_other = λ s k j h. ground (arith, lookup-delete k j s);
}

pub client_laws-empty : (k : Text) → client_laws.contents [] k ≡ none
unfolding client_laws lookup
client_laws-empty k = refl

abbrev pub redis : RedisHandler (Map Text)
redis = record {
  client = client;
  active_codec =
      codec
        (pair text_format (
          pair text_format
            (pair text_format (pair text_format (pair number_format number_format)))))
        (λ r. (r.uuid, (r.ip, (r.device_type, (r.session_jwt, (r.pid, r.connected_at))))))
        (λ (u, (i, (d, (j, (p, c))))). record {
          uuid = u;
          ip = i;
          device_type = d;
          session_jwt = j;
          pid = p;
          connected_at = c;
        });
  pending_codec =
      codec
        (pair text_format (pair text_format (pair text_format (pair text_format number_format))))
        (λ r. (r.uuid, (r.ip, (r.device_type, (r.public_key, r.requested_at)))))
        (λ (u, (i, (d, (k, n)))). record {
          uuid = u;
          ip = i;
          device_type = d;
          public_key = k;
          requested_at = n;
        });
  heartbeat_codec =
      codec (pair text_format (pair text_format (pair int_format number_format)))
        (λ r. (r.uuid, (r.ip, (r.last_seq, r.last_seen))))
        (λ (u, (i, (q, n))). record { uuid = u; ip = i; last_seq = q; last_seen = n });
  user_codec =
      codec (pair text_format text_format) (λ r. (r.username, r.password_hash))
        (λ (n, p). record { username = n; password_hash = p });
}

-- The registry as a list of rows.
unfoldable pub row_of : List RobotRecord → Text → Option RobotRecord
row_of [] u = none
row_of (r ∷ d) u = let rest = row_of d u in if text_eq r.uuid u then some r else rest

abbrev pub fresh_row : Text → Text → Text → RobotRecord
fresh_row u k t = record {
  uuid = u;
  public_key = k;
  device_type = t;
  is_blacklisted = false;
  created_at = 0;
}

unfoldable pub register_row : List RobotRecord → Text → Text → Text → List RobotRecord × Bool
register_row d u k t = elim (row_of d u) [
  | none ↦ (fresh_row u k t ∷ d, true)
  | some r ↦ (d, false)
]

abbrev pub registry : Postgres (List RobotRecord)
registry = record {
  get_robot_by_uuid = row_of;
  get_all_robots = λ d. some d;
  get_robots_by_type = λ d t. some [];
  register_robot = register_row;
  blacklist_robot = λ d u b. (d, false);
}

row_of-uuid : (d : List RobotRecord) (u : Text) (r : RobotRecord) → row_of d u ≡ some r → r.uuid ≡ u
unfolding row_of
row_of-uuid [] u r h = cc
row_of-uuid (x ∷ d) u r h = ground (arith, row_of-uuid d u r, text_eq_iff x.uuid u)

register_row-done :
    (d : List RobotRecord) (u k t : Text)
    → (register_row d u k t).1 ≡ true
    → (row_of d u ≡ none) × (row_of (register_row d u k t).0 u ≡ some (fresh_row u k t))
unfolding register_row row_of
register_row-done d u k t h = ground (arith, text_eq_refl u)

pub registry_laws : PostgresLaws registry
unfolding register_row row_of
registry_laws = record {
  row = row_of;
  get_robot_row = λ d u r h. h;
  get_robot_uuid = row_of-uuid;
  register_fresh = λ d u k t h. (register_row-done d u k t h).0;
  register_done = λ d u k t h. (0, (register_row-done d u k t h).1);
  register_failed = λ d u k t h. ground arith;
  register_other = λ d u k t v h. ground arith;
}

-- Every text is a key, and a nonce is its own signature.
abbrev pub crypto : Crypto
crypto = record {
  pem_decode = λ t. some t;
  parse_pkix = λ b. some (ed25519 b);
  ed25519_verify = λ k n s. text_eq n s;
  sha256 = λ t. t;
  ecdsa_verify = λ k h r s. false;
  p256_unmarshal = λ t. false;
}

-- Every character is moved past the dot.
unfoldable pub shift : Text → Text
shift [] = []
shift (x ∷ t) = (x + 100) ∷ shift t

unfoldable pub unshift : Text → Text
unshift [] = []
unshift (x ∷ t) = (x - 100) ∷ unshift t

unshift-shift : (t : Text) → unshift (shift t) ≡ t
unfolding unshift shift
unshift-shift [] = refl
unshift-shift (x ∷ t) = ground (arith, unshift-shift t)

contains-shift : (t : Text) → contains b'.' (shift t) ≡ false
unfolding contains shift
contains-shift [] = refl
contains-shift (x ∷ t) = ground (arith, contains-shift t)

-- Users' claims have a token id where sessions' claims have three texts.
abbrev pub jwt_lib : JwtLib
jwt_lib = record {
  hmac_sha256 = λ secret input. secret ++ input;
  b64_encode = shift;
  b64_decode = λ t. some (unshift t);
  header_codec =
      codec (pair text_format text_format) (λ h. (h.alg, h.typ))
        (λ (a, t). record { alg = a; typ = t });
  claims_codec =
      codec
        (pair text_format
          (pair int_format (pair int_format (pair text_format (pair text_format text_format)))))
        (λ c. (c.sub, (c.iat, (c.exp, (c.session_id, (c.device_type, c.ip))))))
        (λ (s, (i, (e, (n, (d, p))))). record {
          sub = s;
          device_type = d;
          ip = p;
          iat = i;
          exp = e;
          session_id = n;
        });
  user_claims_codec =
      codec (pair text_format (pair int_format (pair int_format text_format)))
        (λ c. (c.sub, (c.iat, (c.exp, c.token_id))))
        (λ (s, (i, (e, n))). record { sub = s; iat = i; exp = e; token_id = n });
}

pub jwt_laws : JwtLibLaws jwt_lib
jwt_laws = record { b64_round_trip = λ t. ap some (unshift-shift t); b64_no_dot = contains-shift }

abbrev pub jwt_config : JwtConfig
jwt_config = record { jwt_secret = codes "key"; jwt_expiry = 3600 }

-- The value of a result, with a default.
abbrev pub value : {E A : Type 0} → A → Result E A → A
value d (ok a) = a
value d (err e) = d

-- A registered robot, whose nonces are their own signatures.
abbrev pub arm : RobotRecord
arm = record {
  uuid = codes "arm-1";
  public_key = codes "pk";
  device_type = codes "arm";
  is_blacklisted = false;
  created_at = 0;
}

abbrev pub day : ℤ
day = pos 86400000000000

pub active_codec-RoundTrips : RoundTrips redis.active_codec
active_codec-RoundTrips =
    codec-RoundTrips
      (pair text_format
        (pair text_format (pair text_format (pair text_format (pair number_format number_format)))))
      (λ r. (r.uuid, (r.ip, (r.device_type, (r.session_jwt, (r.pid, r.connected_at))))))
      (λ (u, (i, (d, (j, (p, c))))). record {
        uuid = u;
        ip = i;
        device_type = d;
        session_jwt = j;
        pid = p;
        connected_at = c;
      })
      (λ r. refl)

pub heartbeat_codec-RoundTrips : RoundTrips redis.heartbeat_codec
heartbeat_codec-RoundTrips =
    codec-RoundTrips (pair text_format (pair text_format (pair int_format number_format)))
      (λ r. (r.uuid, (r.ip, (r.last_seq, r.last_seen))))
      (λ (u, (i, (q, n))). record { uuid = u; ip = i; last_seq = q; last_seen = n }) (λ r. refl)

pub claims_codec-RoundTrips : RoundTrips jwt_lib.claims_codec
claims_codec-RoundTrips =
    codec-RoundTrips
      (pair text_format
        (pair int_format (pair int_format (pair text_format (pair text_format text_format)))))
      (λ c. (c.sub, (c.iat, (c.exp, (c.session_id, (c.device_type, c.ip))))))
      (λ (s, (i, (e, (n, (d, p))))). record {
        sub = s;
        device_type = d;
        ip = p;
        iat = i;
        exp = e;
        session_id = n;
      })
      (λ r. refl)

pub user_claims_codec-RoundTrips : RoundTrips jwt_lib.user_claims_codec
user_claims_codec-RoundTrips =
    codec-RoundTrips (pair text_format (pair int_format (pair int_format text_format)))
      (λ c. (c.sub, (c.iat, (c.exp, c.token_id))))
      (λ (s, (i, (e, n))). record { sub = s; iat = i; exp = e; token_id = n }) (λ r. refl)
