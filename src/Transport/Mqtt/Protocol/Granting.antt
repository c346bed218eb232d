-- ===== src/Transport/Mqtt/Protocol/Granting.antt =====
-- roboserver/mqtt_server/mqtt_server.go: what stands behind a session token that the server
-- publishes, after any messages of clients.
use mathlib.Core.List.{Memᴰ}
use mathlib.Core.List.Memᴰ.{head, tail}
use robomesh.Prelude.Members.{All-Memᴰ}
use robomesh.Prelude.Bytes.{is_empty}
use robomesh.Prelude.{true, none, some, List, [], ◌∷◌, ◌≡◌, refl, sym, ◌∙◌, none≢some, Text, All}
use robomesh.Database.Client.{RedisLaws}
use robomesh.Database.Keys.{mqtt_nonce_key}
use robomesh.Transport.World.{World}
use robomesh.Transport.Challenge.{Granted}
use robomesh.Transport.Challenge.Pending.{Random, Random-Drawn}
use robomesh.Transport.Challenge.Redeemed.{PlainKeys, Proven}
use robomesh.Transport.Mqtt.Protocol.{
  AuthRequest, Publication, Answer, MqttServer, handle_message, bridge, hooks, after_messages,
}
use robomesh.Transport.Mqtt.Protocol.Dispatched.{
  auth_uuid, Dispatched, ignored, authenticates, beats, messages, on_published-Dispatched,
}
use robomesh.Transport.Mqtt.Protocol.Steps.{
  Clean, DrawsFor, Step, silent, published_jwt, handle_auth-Step, handle_heartbeat-Step,
  handle_message-Clean, bridge-Clean,
}

module _ {S D : Type 0} (server : MqttServer S D) (laws : RedisLaws server.env.auth.redis.client)
    (Source : Text → Text → Type 0) where
  Dispatched-Step :
      (d : D) (pk : Publication) (w : World S D) {r : World S D × Answer}
      → DrawsFor server laws Source (auth_uuid pk.topic) pk
      → PlainKeys server.env.auth d
      → Clean server laws Source d w
      → Dispatched server pk w r
      → Step server laws Source d pk (auth_uuid pk.topic) r
  unfolding published_jwt
  Dispatched-Step d pk w random keys c ignored =
      silent server laws Source d pk (auth_uuid pk.topic) (w, none) c refl
  Dispatched-Step d pk w random keys c authenticates =
      handle_auth-Step server laws Source d pk (auth_uuid pk.topic) w random keys c
  Dispatched-Step d pk w random keys c (beats uuid) =
      handle_heartbeat-Step server laws Source d pk (auth_uuid pk.topic) uuid w c
  Dispatched-Step d pk w random keys c (messages uuid) =
      silent server laws Source d pk (auth_uuid pk.topic) (handle_message server uuid pk w, none)
        (handle_message-Clean server laws Source d pk uuid w c) refl

  hooks-Step :
      (d : D) (pk : Publication) (w : World S D)
      → DrawsFor server laws Source (auth_uuid pk.topic) pk
      → PlainKeys server.env.auth d
      → Clean server laws Source d w
      → Step server laws Source d pk (auth_uuid pk.topic) (hooks server pk w)
  unfolding hooks
  hooks-Step d pk w random keys c =
      let w' = bridge server pk w in
      Dispatched-Step d pk w' random keys (bridge-Clean server laws Source d pk w c)
        (on_published-Dispatched server pk w')

  after_messages-Clean :
      (d : D) (pks : List Publication) (w : World S D)
      → ((pk : Publication) → Memᴰ pk pks → DrawsFor server laws Source (auth_uuid pk.topic) pk)
      → PlainKeys server.env.auth d
      → Clean server laws Source d w
      → Clean server laws Source d (after_messages server pks w)
  unfolding after_messages
  after_messages-Clean d [] w random keys c = c
  after_messages-Clean d (pk ∷ before) w random keys c =
      let s =
        hooks-Step d pk (after_messages server before w) (random pk (head refl)) keys
          (after_messages-Clean d before w (λ p m. random p (tail m)) keys c) in
      s.clean

  -- The request that a token answers, and for whom the token was made: the robot of the topic.
  abbrev pub Granting : D → Publication → Text → Type 0
  Granting d pk token =
      (req : AuthRequest) × (g : Granted) × (server.parse_auth pk.payload ≡ some req)
      × (g.jwt ≡ token)
      × Proven server.env.auth Source d (auth_uuid pk.topic) req.signature pk.remote
          pk.draws.issued_at g

module _ {S D : Type 0} (server : MqttServer S D) where
  -- One of the messages asked for a nonce of this robot, for which these bytes were drawn.
  pub record Requested (pks : List Publication) (uuid bytes : Text) : Type 0 where
    pub message : Publication
    pub request : AuthRequest
    pub sent : Memᴰ message pks
    pub parsed : server.parse_auth message.payload ≡ some request
    pub unsigned : is_empty request.signature ≡ true
    pub named : auth_uuid message.topic ≡ uuid
    pub random : message.draws.nonce_bytes ≡ some bytes

  requested :
      (laws : RedisLaws server.env.auth.redis.client) (pks : List Publication) (pk : Publication)
      → All (λ p. Random p.draws.nonce_bytes) pks
      → Memᴰ pk pks
      → DrawsFor server laws (Requested pks) (auth_uuid pk.topic) pk
  requested laws pks pk random m req e s =
      Random-Drawn (Requested pks (auth_uuid pk.topic)) pk.draws.nonce_bytes
        (All-Memᴰ (λ p. Random p.draws.nonce_bytes) pks random m)
        (λ b n. record {
          message = pk;
          request = req;
          sent = m;
          parsed = e;
          unsigned = s;
          named = refl;
          random = n;
        })

  -- After any messages of clients to a broker whose Redis had no nonce of the MQTT server, a token is
  -- only published in answer to a request whose signature fits: the robot that the topic names is
  -- registered and not blacklisted, its registered key signed a nonce, which is made of the random
  -- bytes that were drawn for an unsigned request of one of these messages under the topic of this
  -- robot, and the token is for this robot and its registered type. No registered key has a vertical
  -- bar, Redis keeps its documented laws, and nothing but these messages changes the state in between.
  pub messages-Granting :
      (laws : RedisLaws server.env.auth.redis.client) (pks : List Publication) (pk : Publication)
      (w : World S D) {token : Text}
      → All (λ pk. Random pk.draws.nonce_bytes) (pk ∷ pks)
      → PlainKeys server.env.auth w.pg
      → ((uuid : Text) → laws.contents w.redis (mqtt_nonce_key uuid) ≡ none)
      → published_jwt (hooks server pk (after_messages server pks w)).1 ≡ some token
      → Granting server laws (Requested (pk ∷ pks)) w.pg pk token
  messages-Granting laws pks pk w {token = token} random keys fresh h =
      let Source = Requested (pk ∷ pks) in
      let draws =
        λ (p : Publication) (m : Memᴰ p (pk ∷ pks)). requested laws (pk ∷ pks) p random m in
      let start : Clean server laws Source w.pg w =
        (refl, λ uuid value e. absurd (none≢some (sym (fresh uuid) ∙ e))) in
      let before =
        after_messages-Clean server laws Source w.pg pks w (λ p m. draws p (tail m)) keys start in
      let s =
        hooks-Step server laws Source w.pg pk (after_messages server pks w) (draws pk (head refl))
          keys before in
      s.granted token h
