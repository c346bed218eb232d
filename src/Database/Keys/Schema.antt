-- ===== src/Database/Keys/Schema.antt =====
-- Which keys of the schema can collide. `KeyName` lists the families of keys that the server writes,
-- but for the data that handlers store.
use mathlib.Core.List.{reverse, reverse-append, reverse-reverse, append_assoc}
use robomesh.Prelude.{
  some_inj, none≢some, ◌≡◌, ◌≢◌, refl, sym, ap, ◌∙◌, ◌++◌, false, Option, none, some, Text, codes,
  text_eq, text_eq-ne,
}
use robomesh.Prelude.Bytes.{strip_prefix, contains, cut, cut-append}
use robomesh.Database.Keys.{
  robot_key, robot_public_key_key, pending_key, heartbeat_key, user_key, user_session_key,
  ticket_key, redis_data_key, mqtt_nonce_key, udp_nonce_key,
}

pub data KeyName : Type 0 where
  active pubkey pending heartbeat user session ticket mqtt_nonce udp_nonce : Text → KeyName

unfoldable pub render : KeyName → Text
unfolding robot_key robot_public_key_key pending_key heartbeat_key user_key user_session_key
    ticket_key mqtt_nonce_key udp_nonce_key
render (active u) = robot_key u
render (pubkey u) = robot_public_key_key u
render (pending u) = pending_key u
render (heartbeat u) = heartbeat_key u
render (user n) = user_key n
render (session t) = user_session_key t
render (ticket t) = ticket_key t
render (mqtt_nonce u) = mqtt_nonce_key u
render (udp_nonce u) = udp_nonce_key u

abbrev or_else {ℓ} : {A : Type ℓ} → Option A → Option A → Option A
or_else (some a) o = some a
or_else none o = o

abbrev tagged {ℓ} : {A : Type ℓ} → (Text → A) → Option Text → Option A
tagged c none = none
tagged c (some t) = some (c t)

-- The families of robot keys, told apart by the end of the key, which is read backwards.
read_tail : Text → Option KeyName
unfolding strip_prefix
read_tail r = or_else (before active (codes ":active")) (
    or_else (before pubkey (codes ":pubkey"))
      (or_else (before pending (codes ":pending")) (before heartbeat (codes ":heartbeat"))))
  where
    before : (Text → KeyName) → Text → Option KeyName
    before c p = tagged (λ u. c (reverse u)) (strip_prefix (reverse p) r)

-- The family and the argument that a key was made of.
read_key : Text → Option KeyName
unfolding strip_prefix read_tail
read_key s =
    or_else
      (elim (strip_prefix (codes "robot:") s) [ none ↦ none | some r ↦ read_tail (reverse r) ])
      (or_else (tagged user (strip_prefix (codes "user:") s)) (
        or_else (tagged session (strip_prefix (codes "session:") s)) (
          or_else (tagged ticket (strip_prefix (codes "ticket:") s)) (
            or_else (tagged mqtt_nonce (strip_prefix (codes "mqtt:nonce:") s))
              (tagged udp_nonce (strip_prefix (codes "udp:nonce:") s))))))

read_tail-append :
    (p u : Text) (c : Text → KeyName)
    → ((r : Text) → read_tail (reverse p ++ r) ≡ some (c (reverse r)))
    → read_tail (reverse (u ++ p)) ≡ some (c u)
read_tail-append p u c h =
    ap read_tail (reverse-append u p) ∙ h (reverse u) ∙ ap (λ t. some (c t)) (reverse-reverse u)

read_key-render : (n : KeyName) → read_key (render n) ≡ some n
unfolding read_key render
read_key-render (active u) = rw (read_tail-append (codes ":active") u active (λ r. refl))
read_key-render (pubkey u) = rw (read_tail-append (codes ":pubkey") u pubkey (λ r. refl))
read_key-render (pending u) = rw (read_tail-append (codes ":pending") u pending (λ r. refl))
read_key-render (heartbeat u) = rw (read_tail-append (codes ":heartbeat") u heartbeat (λ r. refl))
read_key-render _ = refl

pub render-injective : (m n : KeyName) → render m ≡ render n → m ≡ n
render-injective m n e = some_inj (sym (read_key-render m) ∙ ap read_key e ∙ read_key-render n)

-- Two names with different keys, in the form that the laws of the client ask for.
pub render_ne : (m n : KeyName) → m ≢ n → text_eq (render m) (render n) ≡ false
render_ne m n h = text_eq-ne _ _ (λ e. h (render-injective m n e))

read_key-redis_data_key : (u k : Text) → read_key (redis_data_key u k) ≡ none
unfolding read_key redis_data_key
read_key-redis_data_key u k = refl

-- The key of handler data is never the key of a session, public key, pending entry, heartbeat,
-- user, user session, ticket or nonce.
pub redis_data_key_apart : (u k : Text) (n : KeyName) → redis_data_key u k ≢ render n
redis_data_key_apart u k n e =
    none≢some (sym (read_key-redis_data_key u k) ∙ ap read_key e ∙ read_key-render n)

-- The robot and the key that handler data was stored under, where the UUID has no colon.
read_data : Text → Option (Text × Text)
unfolding strip_prefix cut
read_data s = elim (strip_prefix (codes "handler:") s) [
  | none ↦ none
  | some r ↦ elim (cut b':' r) [
    | none ↦ none
    | some (u, t) ↦ tagged (λ k. (u, k)) (strip_prefix (codes "data:") t)
  ]
]

read_data-redis_data_key :
    (u k : Text) → contains b':' u ≡ false → read_data (redis_data_key u k) ≡ some (u, k)
unfolding read_data redis_data_key
read_data-redis_data_key u k h = rw (cut-append b':' u (codes "data:" ++ k) h, read_data)

-- Where two UUIDs have no colon, handlers of different robots, and different keys of one handler,
-- never share a key in Redis.
pub redis_data_key-injective :
    (u v k j : Text)
    → contains b':' u ≡ false
    → contains b':' v ≡ false
    → redis_data_key u k ≡ redis_data_key v j
    → (u ≡ v) × (k ≡ j)
redis_data_key-injective u v k j hu hv e = (ap (λ p. p.0) q, ap (λ p. p.1) q)
  where
    q : ◌≡◌ {A = Text × Text} (u, k) (v, j)
    q =
        some_inj
          (sym (read_data-redis_data_key u k hu) ∙ ap read_data e ∙ read_data-redis_data_key v j hv)

-- For any texts U, W and K, handler data of a robot called "U:data:W" under "K" has the same key
-- in Redis as handler data of robot U under "W:data:K".
pub redis_data_key_collision :
    (u w k : Text)
    → redis_data_key (u ++ (codes ":data:" ++ w)) k ≡ redis_data_key u (w ++ (codes ":data:" ++ k))
unfolding redis_data_key
redis_data_key_collision u w k =
    ap (λ t. codes "handler:" ++ t)
      (append_assoc u (codes ":data:" ++ w) (codes ":data:" ++ k)
        ∙ ap (◌++◌ u) (append_assoc (codes ":data:") w (codes ":data:" ++ k)))
