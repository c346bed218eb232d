-- ===== src/Transport/Mqtt/Protocol/Dispatched.antt =====
-- roboserver/mqtt_server/mqtt_server.go: the cases of OnPublished of protocolHook.
use robomesh.Prelude.{none, inl, inr, Bool-cases, Text, codes}
use robomesh.Prelude.Bytes.{has_prefix, trim_prefix, trim_suffix}
use robomesh.Transport.World.{World}
use robomesh.Transport.Mqtt.Protocol.{
  Publication, MqttServer, Answer, handle_auth, handle_heartbeat, handle_message, plain,
  on_published,
}

-- The robot that an authentication topic names.
abbrev pub auth_uuid : Text → Text
auth_uuid topic = trim_suffix (trim_prefix topic (codes "robomesh/auth/")) (codes "/request")

module _ {S D : Type 0} (server : MqttServer S D) where
  -- A message is ignored or goes to one handler.
  pub data Dispatched (pk : Publication) (w : World S D) : World S D × Answer → Type 0 where
    ignored : Dispatched pk w (w, none)
    authenticates : Dispatched pk w (handle_auth server (auth_uuid pk.topic) pk w)
    beats : (uuid : Text) → Dispatched pk w (handle_heartbeat server uuid pk w)
    messages : (uuid : Text) → Dispatched pk w (handle_message server uuid pk w, none)

  pub on_published-Dispatched :
      (pk : Publication) (w : World S D) → Dispatched pk w (on_published server pk w)
  unfolding on_published
  on_published-Dispatched pk w = elim (Bool-cases (has_prefix pk.topic (codes "robomesh/auth/"))) [
    | inl a ↦ elim (Bool-cases (plain server (auth_uuid pk.topic))) [
      | inl p ↦ rw (on_published, a, p) authenticates
      | inr p ↦ rw (on_published, a, p) ignored
    ]
    | inr a ↦ elim (Bool-cases (has_prefix pk.topic (codes "robomesh/heartbeat/"))) [
      | inl b ↦
          let uuid = trim_prefix pk.topic (codes "robomesh/heartbeat/") in
          elim (Bool-cases (plain server uuid)) [
            | inl p ↦ rw (on_published, a, b, p) (beats uuid)
            | inr p ↦ rw (on_published, a, b, p) ignored
          ]
      | inr b ↦ elim (Bool-cases (has_prefix pk.topic (codes "robomesh/message/"))) [
        | inr m ↦ rw (on_published, a, b, m) ignored
        | inl m ↦
            let uuid = trim_prefix pk.topic (codes "robomesh/message/") in
            elim (Bool-cases (plain server uuid)) [
              | inl p ↦ rw (on_published, a, b, m, p) (messages uuid)
              | inr p ↦ rw (on_published, a, b, m, p) ignored
            ]
      ]
    ]
  ]
