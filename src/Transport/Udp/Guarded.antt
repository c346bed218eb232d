-- ===== src/Transport/Udp/Guarded.antt =====
-- roboserver/udp_server/udp_server.go: who is given a session, after any datagrams.
use mathlib.Core.List.{Memᴰ}
use mathlib.Core.List.Memᴰ.{head, tail}
use robomesh.Prelude.{
  false, Option, some, List, [], ◌∷◌, ◌||◌, ◌≡◌, refl, ◌∙◌, inl, inr, Bool-cases, Option-cases,
  Text, text_eq, text_eq_iff, codes, arith, true,
}
use robomesh.Prelude.Bytes.{is_empty}
use robomesh.Prelude.Results.{Result, ok, err}
use robomesh.Database.Client.{RedisLaws}
use robomesh.Database.Keys.{udp_nonce_key}
use robomesh.Database.Keys.Schema.{render, render_ne, udp_nonce}
use robomesh.HandlerEngine.Process.{udp_link}
use robomesh.Auth.Heartbeat.{HeartbeatError, HeartbeatResult, process_heartbeat}
use robomesh.Transport.World.{
  World, Attachment, attached, spawn_failed, unavailable, shutting_down, attach,
}
use robomesh.Transport.Kept.{
  udp_nonce_key-Foreign, attach-Kept, remove_active_robot-other, process_heartbeat-other,
}
use robomesh.Transport.Challenge.{Granted, redeem}
use robomesh.Transport.Challenge.Pending.{Drawn}
use robomesh.Transport.Challenge.Guarded.{
  NonceKeys, Guarded, same-Guarded, issue_nonce-Guarded, redeem-Guarded,
}
use robomesh.Transport.Udp.Forwarded.{MessageOutcome, refused, forwarded, handle_message-Outcome}
use robomesh.Transport.Udp.{
  UdpPacket, UdpResponse, UdpServer, Arrival, drop_session, heartbeat_env, attach_answer,
  heartbeat_answer, start_session, handle_auth, handle_heartbeat, handle_packet, after_packets,
}

pub udp_nonce_key-NonceKeys : NonceKeys udp_nonce_key
unfolding render
udp_nonce_key-NonceKeys = record {
  apart = λ u v n. render_ne (udp_nonce u) (udp_nonce v) (λ e. differ u v n (name_inj u v e));
  foreign = udp_nonce_key-Foreign;
}
  where
    name_inj : (u v : Text) → udp_nonce u ≡ udp_nonce v → u ≡ v
    name_inj u v e = cc

    differ : (u v : Text) → text_eq u v ≡ false → u ≡ v → ⊥
    differ u v n e = ground (arith, text_eq_iff u v)

module _ {S D : Type 0} (server : UdpServer S D) (laws : RedisLaws server.env.auth.redis.client)
    (Source : Text → Text → Type 0) where
  -- The registry is still this one, and every nonce of the UDP server waits for its robot.
  abbrev pub Clean : D → World S D → Type 0
  Clean d w = (w.pg ≡ d) × Guarded server.env.auth laws Source udp_nonce_key w.pg w.redis

  drop_session-Clean :
      (d : D) (uuid : Text) (w : World S D) → Clean d w → Clean d (drop_session server uuid w)
  drop_session-Clean d uuid w g = (
    g.0,
    same-Guarded server.env.auth laws Source udp_nonce_key w.pg w.pg w.redis
        (drop_session server uuid w).redis refl
        (λ u.
          remove_active_robot-other server.env.auth.redis laws (udp_nonce_key u)
            (udp_nonce_key-Foreign u) w.redis uuid)
        g.1,
  )

  attach_answer-Clean :
      (d : D) (uuid jwt : Text) (p : World S D × Attachment)
      → Clean d p.0
      → Clean d (attach_answer server uuid jwt p).0
  attach_answer-Clean d uuid jwt (w, attached a) g = g
  attach_answer-Clean d uuid jwt (w, spawn_failed) g = drop_session-Clean d uuid w g
  attach_answer-Clean d uuid jwt (w, unavailable) g = drop_session-Clean d uuid w g
  attach_answer-Clean d uuid jwt (w, shutting_down) g = g

  start_session-Clean :
      (d : D) (uuid : Text) (at : Arrival) (r : S × Result (Option Text) Granted) (w : World S D)
      → Clean d (record w { redis = r.0 })
      → Clean d (start_session server uuid at r w).0
  unfolding start_session
  start_session-Clean d uuid at (s, err e) w g = g
  start_session-Clean d uuid at (s, ok granted) w g =
      let w' : World S D = record w { redis = s } in
      let kept = λ (u : Text).
        attach-Kept server.env laws (udp_nonce_key u) (udp_nonce_key-Foreign u) uuid
          granted.device_type at.ip granted.session_id (some (udp_link at.addr)) at.wait w' in
      let p =
        attach server.env uuid granted.device_type at.ip granted.session_id
          (some (udp_link at.addr)) at.wait w' in
      attach_answer-Clean d uuid granted.jwt p (
        (kept uuid).0 ∙ g.0,
        same-Guarded server.env.auth laws Source udp_nonce_key w'.pg p.0.pg w'.redis p.0.redis
            (kept uuid).0 (λ u. (kept u).1) g.1,
      )

  handle_auth-Clean :
      (d : D) (at : Arrival) (pkt : UdpPacket) (w : World S D)
      → (is_empty pkt.signature ≡ true → Drawn (Source pkt.uuid) at.draws.nonce_bytes)
      → Clean d w
      → Clean d (handle_auth server at pkt w).0
  unfolding handle_auth
  handle_auth-Clean d at pkt w r g = elim (Bool-cases (is_empty pkt.uuid)) [
    | inl e ↦ rw (handle_auth, e) g
    | inr e ↦ elim (Bool-cases (is_empty pkt.signature)) [
      | inl s ↦
          rw (handle_auth, e, s)
            (
              g.0,
              issue_nonce-Guarded server.env.auth laws Source udp_nonce_key udp_nonce_key-NonceKeys
                  pkt.uuid at.draws.nonce_bytes w.pg w.redis (r s) g.1,
            )
      | inr s ↦
          rw (handle_auth, e, s)
            (start_session-Clean d pkt.uuid at
              (redeem server.env.auth (udp_nonce_key pkt.uuid) pkt.uuid pkt.signature at.ip at.draws
                w.redis)
              w
              (
                g.0,
                redeem-Guarded server.env.auth laws Source udp_nonce_key udp_nonce_key-NonceKeys
                    pkt.uuid pkt.signature at.ip at.draws w.pg w.redis g.1,
              ))
    ]
  ]

  heartbeat_answer-Clean :
      (d : D) (r : S × Result HeartbeatError HeartbeatResult) (w : World S D)
      → Clean d (record w { redis = r.0 })
      → Clean d (heartbeat_answer server r w).0
  heartbeat_answer-Clean d (s, ok x) w g = g
  heartbeat_answer-Clean d (s, err e) w g = g

  handle_heartbeat-Clean :
      (d : D) (at : Arrival) (pkt : UdpPacket) (w : World S D)
      → Clean d w
      → Clean d (handle_heartbeat server at pkt w).0
  unfolding handle_heartbeat
  handle_heartbeat-Clean d at pkt w g =
      elim (Bool-cases (is_empty pkt.uuid || (is_empty pkt.signature || is_empty pkt.payload))) [
        | inl e ↦ rw (handle_heartbeat, e) g
        | inr e ↦
            let henv = heartbeat_env server in
            let r =
              process_heartbeat henv w.pg w.redis pkt.uuid pkt.payload pkt.signature at.ip at.now in
            rw (handle_heartbeat, e)
              (heartbeat_answer-Clean d r w (
                g.0,
                same-Guarded server.env.auth laws Source udp_nonce_key w.pg w.pg w.redis r.0 refl
                    (λ u.
                      process_heartbeat-other henv laws (udp_nonce_key u) (udp_nonce_key-Foreign u)
                        w.pg w.redis pkt.uuid pkt.payload pkt.signature at.ip at.now)
                    g.1,
              ))
      ]

  MessageOutcome-Clean :
      {d : D} {at : Arrival} {pkt : UdpPacket} {w : World S D} {r : World S D × Option UdpResponse}
      → MessageOutcome server at pkt w r
      → Clean d w
      → Clean d r.0
  MessageOutcome-Clean (refused e) g = g
  MessageOutcome-Clean (forwarded hp claims a b c d) g = g

  -- Where a datagram asks for a nonce, the bytes are drawn for the robot that it names.
  abbrev pub DrawsFor : Arrival × Text → Type 0
  DrawsFor (at, packet) =
      (pkt : UdpPacket)
      → server.parse_packet packet ≡ some pkt
      → text_eq pkt.packet_type (codes "auth") ≡ true
      → is_empty pkt.signature ≡ true
      → Drawn (Source pkt.uuid) at.draws.nonce_bytes

  handle_packet-Clean :
      (d : D) (at : Arrival) (packet : Text) (w : World S D)
      → DrawsFor (at, packet)
      → Clean d w
      → Clean d (handle_packet server at packet w).0
  unfolding handle_packet
  handle_packet-Clean d at packet w r g = elim (Option-cases (server.parse_packet packet)) [
    | inl e ↦ rw (handle_packet, e) g
    | inr (pkt, e) ↦ elim (Bool-cases (text_eq pkt.packet_type (codes "auth"))) [
      | inl a ↦ rw (handle_packet, e, a) (handle_auth-Clean d at pkt w (r pkt e a) g)
      | inr a ↦ elim (Bool-cases (text_eq pkt.packet_type (codes "heartbeat"))) [
        | inl b ↦ rw (handle_packet, e, a, b) (handle_heartbeat-Clean d at pkt w g)
        | inr b ↦ elim (Bool-cases (text_eq pkt.packet_type (codes "message"))) [
          | inl c ↦
              rw (handle_packet, e, a, b, c)
                (MessageOutcome-Clean (handle_message-Outcome server at pkt w) g)
          | inr c ↦ rw (handle_packet, e, a, b, c) g
        ]
      ]
    ]
  ]

  pub after_packets-Clean :
      (d : D) (packets : List (Arrival × Text)) (w : World S D)
      → ((p : Arrival × Text) → Memᴰ p packets → DrawsFor p)
      → Clean d w
      → Clean d (after_packets server packets w)
  unfolding after_packets
  after_packets-Clean d [] w r g = g
  after_packets-Clean d ((at, packet) ∷ before) w r g =
      handle_packet-Clean d at packet (after_packets server before w) (r (at, packet) (head refl))
        (after_packets-Clean d before w (λ p m. r p (tail m)) g)
