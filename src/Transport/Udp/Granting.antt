-- ===== src/Transport/Udp/Granting.antt =====
-- roboserver/udp_server/udp_server.go: what stands behind a session token that is sent to a robot.
use mathlib.Core.Path.{subst}
use mathlib.Core.List.{Memᴰ}
use robomesh.Prelude.{
  true, ◌&&◌, ◌||◌, Option, none, some, List, ◌≡◌, refl, sym, ◌∙◌, inl, inr, Bool-cases,
  Option-cases, some_inj, none≢some, Text, codes, All, if◌then◌else◌,
}
use robomesh.Prelude.Bytes.{is_empty, text_eq}
use robomesh.Prelude.Members.{All-Memᴰ}
use robomesh.Prelude.Results.{Result, ok, err}
use robomesh.Database.Client.{RedisLaws}
use robomesh.Database.Keys.{udp_nonce_key}
use robomesh.HandlerEngine.Process.{udp_link}
use robomesh.Auth.Heartbeat.{HeartbeatError, HeartbeatResult, process_heartbeat}
use robomesh.Transport.World.{
  World, Attachment, attached, spawn_failed, unavailable, shutting_down, attach,
}
use robomesh.Transport.Challenge.{Granted, issue_nonce, redeem}
use robomesh.Transport.Challenge.Pending.{Pending, Random, Random-Drawn}
use robomesh.Transport.Challenge.Redeemed.{PlainKeys, Proven, redeem-Proven}
use robomesh.Transport.Udp.{
  UdpPacket, UdpResponse, UdpServer, Arrival, auth_error, nonce_answer, heartbeat_env,
  attach_answer, heartbeat_answer, start_session, handle_auth, handle_heartbeat, handle_message,
  handle_packet, after_packets,
}
use robomesh.Transport.Udp.Forwarded.{MessageOutcome, refused, forwarded, handle_message-Outcome}
use robomesh.Transport.Udp.Guarded.{Clean, DrawsFor, after_packets-Clean}

-- The token of an answer to an authentication that says ok.
unfoldable pub granted_jwt : Option UdpResponse → Option Text
granted_jwt none = none
granted_jwt (some r) =
    if text_eq r.response_type (codes "auth_response") && text_eq r.status (codes "ok")
    then some r.jwt
    else none

auth_error-none : (e : Option Text) → granted_jwt (auth_error e) ≡ none
unfolding granted_jwt text_eq
auth_error-none none = refl
auth_error-none (some e) = refl

nonce_answer-none : (r : Result (Option Text) Text) → granted_jwt (nonce_answer r) ≡ none
unfolding granted_jwt text_eq
nonce_answer-none (ok n) = refl
nonce_answer-none (err e) = auth_error-none e

module _ {S D : Type 0} (server : UdpServer S D) where
  attach_answer-jwt :
      (uuid jwt : Text) (p : World S D × Attachment) {token : Text}
      → granted_jwt (attach_answer server uuid jwt p).1 ≡ some token
      → jwt ≡ token
  unfolding granted_jwt text_eq
  attach_answer-jwt uuid jwt (w, attached a) h = some_inj h
  attach_answer-jwt uuid jwt (w, spawn_failed) h = cc
  attach_answer-jwt uuid jwt (w, unavailable) h = cc
  attach_answer-jwt uuid jwt (w, shutting_down) h = cc

  start_session-granted :
      (uuid : Text) (at : Arrival) (r : S × Result (Option Text) Granted) (w : World S D)
      {token : Text}
      → granted_jwt (start_session server uuid at r w).1 ≡ some token
      → (g : Granted) × (r.1 ≡ ok g) × (g.jwt ≡ token)
  unfolding start_session
  start_session-granted uuid at (s, err e) w h = absurd (none≢some (sym (auth_error-none e) ∙ h))
  start_session-granted uuid at (s, ok g) w h =
      let w' : World S D = record w { redis = s } in
      let p =
        attach server.env uuid g.device_type at.ip g.session_id (some (udp_link at.addr)) at.wait
          w' in
      (g, refl, attach_answer-jwt uuid g.jwt p h)

  module _ (laws : RedisLaws server.env.auth.redis.client) (Source : Text → Text → Type 0) where
    -- The token was made for a robot that proved its identity.
    abbrev pub GrantedTo : D → UdpPacket → Arrival → Text → Type 0
    GrantedTo d pkt at token =
        (g : Granted) × (g.jwt ≡ token)
        × Proven server.env.auth Source d pkt.uuid pkt.signature at.ip at.draws.issued_at g

    handle_auth-granted :
        (d : D) (at : Arrival) (pkt : UdpPacket) (w : World S D) {token : Text}
        → PlainKeys server.env.auth d
        → Clean server laws Source d w
        → granted_jwt (handle_auth server at pkt w).1 ≡ some token
        → GrantedTo d pkt at token
    unfolding handle_auth
    handle_auth-granted d at pkt w {token = token} plain clean h =
        elim (Bool-cases (is_empty pkt.uuid)) [
          | inl e ↦
              let answer : granted_jwt (auth_error (some (codes "uuid required"))) ≡ some token =
                rw (handle_auth, e) at h in
              absurd (none≢some (sym (auth_error-none (some (codes "uuid required"))) ∙ answer))
          | inr e ↦ elim (Bool-cases (is_empty pkt.signature)) [
            | inl s ↦
                let r =
                  issue_nonce server.env.auth (udp_nonce_key pkt.uuid) pkt.uuid at.draws.nonce_bytes
                    w.pg w.redis in
                let answer : granted_jwt (nonce_answer r.1) ≡ some token =
                  rw (handle_auth, e, s) at h in
                absurd (none≢some (sym (nonce_answer-none r.1) ∙ answer))
            | inr s ↦
                let key = udp_nonce_key pkt.uuid in
                let r = redeem server.env.auth key pkt.uuid pkt.signature at.ip at.draws w.redis in
                let answer : granted_jwt (start_session server pkt.uuid at r w).1 ≡ some token =
                  rw (handle_auth, e, s) at h in
                let (g, redeemed, token) = start_session-granted pkt.uuid at r w answer in
                (
                  g,
                  token,
                  redeem-Proven server.env.auth laws Source key pkt.uuid pkt.signature at.ip
                      at.draws d w.redis g plain
                      (subst (λ x. Pending server.env.auth laws Source key pkt.uuid x w.redis)
                        clean.0 (clean.1 pkt.uuid))
                      redeemed,
                )
          ]
        ]

    heartbeat_answer-none :
        (r : S × Result HeartbeatError HeartbeatResult) (w : World S D)
        → granted_jwt (heartbeat_answer server r w).1 ≡ none
    unfolding granted_jwt text_eq
    heartbeat_answer-none (s, ok x) w = refl
    heartbeat_answer-none (s, err e) w = refl

    handle_heartbeat-none :
        (at : Arrival) (pkt : UdpPacket) (w : World S D)
        → granted_jwt (handle_heartbeat server at pkt w).1 ≡ none
    unfolding handle_heartbeat granted_jwt text_eq
    handle_heartbeat-none at pkt w =
        elim (Bool-cases (is_empty pkt.uuid || (is_empty pkt.signature || is_empty pkt.payload))) [
          | inl e ↦ rw (handle_heartbeat, e) refl
          | inr e ↦
              rw (handle_heartbeat, e)
                (heartbeat_answer-none
                  (process_heartbeat (heartbeat_env server) w.pg w.redis pkt.uuid pkt.payload
                    pkt.signature at.ip at.now)
                  w)
        ]

    MessageOutcome-none :
        {at : Arrival} {pkt : UdpPacket} {w : World S D} {r : World S D × Option UdpResponse}
        → MessageOutcome server at pkt w r
        → granted_jwt r.1 ≡ none
    unfolding granted_jwt text_eq
    MessageOutcome-none (refused e) = refl
    MessageOutcome-none (forwarded hp claims a b c d) = refl

    -- The packet that a token answers, and for whom the token was made.
    abbrev pub Granting : D → Arrival → Text → Text → Type 0
    Granting d at packet token =
        (pkt : UdpPacket) × (server.parse_packet packet ≡ some pkt) × GrantedTo d pkt at token

    handle_packet-Granting :
        (d : D) (at : Arrival) (packet : Text) (w : World S D) {token : Text}
        → PlainKeys server.env.auth d
        → Clean server laws Source d w
        → granted_jwt (handle_packet server at packet w).1 ≡ some token
        → Granting d at packet token
    unfolding handle_packet granted_jwt text_eq
    handle_packet-Granting d at packet w {token = token} plain clean h =
        elim (Option-cases (server.parse_packet packet)) [
          | inl e ↦
              let none_sent : none ≡ some token = rw (handle_packet, e) at h in
              absurd (none≢some none_sent)
          | inr (pkt, e) ↦ elim (Bool-cases (text_eq pkt.packet_type (codes "auth"))) [
            | inl a ↦
                (pkt, e, handle_auth-granted d at pkt w plain clean (rw (handle_packet, e, a) at h))
            | inr a ↦ elim (Bool-cases (text_eq pkt.packet_type (codes "heartbeat"))) [
              | inl b ↦
                  let sent : granted_jwt (handle_heartbeat server at pkt w).1 ≡ some token =
                    rw (handle_packet, e, a, b) at h in
                  absurd (none≢some (sym (handle_heartbeat-none at pkt w) ∙ sent))
              | inr b ↦ elim (Bool-cases (text_eq pkt.packet_type (codes "message"))) [
                | inl c ↦
                    let sent : granted_jwt (handle_message server at pkt w).1 ≡ some token =
                      rw (handle_packet, e, a, b, c) at h in
                    absurd (
                      none≢some
                        (sym (MessageOutcome-none (handle_message-Outcome server at pkt w)) ∙ sent))
                | inr c ↦
                    let none_sent : none ≡ some token = rw (handle_packet, e, a, b, c) at h in
                    absurd (none≢some none_sent)
              ]
            ]
          ]
        ]

  -- An earlier datagram that asked for a nonce of this robot, for which these bytes were drawn.
  pub record Requested (packets : List (Arrival × Text)) (uuid bytes : Text) : Type 0 where
    pub at : Arrival
    pub packet : Text
    pub request : UdpPacket
    pub earlier : Memᴰ (at, packet) packets
    pub parsed : server.parse_packet packet ≡ some request
    pub authenticates : text_eq request.packet_type (codes "auth") ≡ true
    pub unsigned : is_empty request.signature ≡ true
    pub named : request.uuid ≡ uuid
    pub random : at.draws.nonce_bytes ≡ some bytes

  requested :
      (laws : RedisLaws server.env.auth.redis.client) (packets : List (Arrival × Text))
      (p : Arrival × Text)
      → All (λ q. Random q.0.draws.nonce_bytes) packets
      → Memᴰ p packets
      → DrawsFor server laws (Requested packets) p
  requested laws packets (at, packet) random m pkt e a s =
      Random-Drawn (Requested packets pkt.uuid) at.draws.nonce_bytes
        (All-Memᴰ (λ q. Random q.0.draws.nonce_bytes) packets random m)
        (λ b n. record {
          at = at;
          packet = packet;
          request = pkt;
          earlier = m;
          parsed = e;
          authenticates = a;
          unsigned = s;
          named = refl;
          random = n;
        })

  -- After any datagrams on a server whose Redis had no nonce of the UDP server, a token is only sent
  -- in answer to a packet whose signature fits: the robot that it names is registered and not
  -- blacklisted, its registered key signed a nonce, which is made of the random bytes that were drawn
  -- for an earlier datagram that asked for a nonce of this robot, and the token is for this robot and
  -- its registered type. No registered key has a vertical bar, Redis keeps its documented laws, and
  -- nothing but these datagrams changes the state in between.
  pub packets-Granting :
      (laws : RedisLaws server.env.auth.redis.client) (packets : List (Arrival × Text))
      (at : Arrival) (packet : Text) (w : World S D) {token : Text}
      → All (λ p. Random p.0.draws.nonce_bytes) packets
      → PlainKeys server.env.auth w.pg
      → ((uuid : Text) → laws.contents w.redis (udp_nonce_key uuid) ≡ none)
      → granted_jwt (handle_packet server at packet (after_packets server packets w)).1 ≡ some token
      → Granting laws (Requested packets) w.pg at packet token
  packets-Granting laws packets at packet w random plain fresh h =
      let start : Clean server laws (Requested packets) w.pg w =
        (refl, λ uuid value e. absurd (none≢some (sym (fresh uuid) ∙ e))) in
      handle_packet-Granting laws (Requested packets) w.pg at packet
        (after_packets server packets w) plain
        (after_packets-Clean server laws (Requested packets) w.pg packets w
          (λ p m. requested laws packets p random m) start)
        h
