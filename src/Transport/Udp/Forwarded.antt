-- ===== src/Transport/Udp/Forwarded.antt =====
-- roboserver/udp_server/udp_server.go: which messages reach a handler script.

use robomesh.Prelude.{
  ℕ, true, ◌||◌, Option, some, ◌≡◌, refl, inl, inr, Bool-cases, Option-cases, Text, text_eq_iff,
  codes,
}
use robomesh.Prelude.Bytes.{is_empty}
use robomesh.Prelude.Int.{pos, ◌≤ℤ◌}
use robomesh.Prelude.Results.{Result, ok, err}
use robomesh.HandlerEngine.Manager.{get}
use robomesh.HandlerEngine.Process.{send_incoming}
use robomesh.HandlerEngine.Heap.{modify}
use robomesh.Auth.Jwt.{JwtClaims, JwtError, validate_session_jwt}
use robomesh.Auth.Jwt.Tokens.{Signed, validate_session_jwt-Signed}
use robomesh.Transport.World.{World}
use robomesh.Transport.Udp.{
  UdpPacket, UdpResponse, UdpServer, Arrival, respond, refuse, names, handle_message,
}

module _ {S D : Type 0} (server : UdpServer S D) where
  -- Nothing happens but for an error, or the handler of the robot is told of the payload, for a token
  -- of this server that names the robot and has not expired.
  pub data MessageOutcome (at : Arrival) (pkt : UdpPacket) (w : World S D)
      : World S D × Option UdpResponse → Type 0 where
    refused : (e : Text) → MessageOutcome at pkt w (w, some (refuse (codes "message_response") e))
    forwarded :
        (hp : ℕ) (claims : JwtClaims)
        → get w.engine.manager pkt.uuid ≡ some hp
        → claims.sub ≡ pkt.uuid
        → Signed server.env.auth.jwt_lib server.env.auth.jwt_config.jwt_secret pkt.jwt
        → pos at.now ≤ℤ claims.exp
        → MessageOutcome at pkt w (
          record w { engine = modify (send_incoming pkt.payload) hp w.engine },
          some (respond (codes "message_response") (codes "ok")),
        )

  names-ok :
      (uuid : Text) (r : Result JwtError JwtClaims)
      → names server uuid r ≡ true
      → (claims : JwtClaims) × (r ≡ ok claims) × (claims.sub ≡ uuid)
  names-ok uuid (ok claims) h = (claims, refl, (text_eq_iff claims.sub uuid).0 h)
  names-ok uuid (err e) h = cc

  -- A message over UDP is refused without any effect, or its payload is queued for the running
  -- handler of the robot that it names, once: then its token ends with the server's HMAC, names that
  -- robot and has not expired.
  pub handle_message-Outcome :
      (at : Arrival) (pkt : UdpPacket) (w : World S D)
      → MessageOutcome at pkt w (handle_message server at pkt w)
  unfolding handle_message
  handle_message-Outcome at pkt w =
      let lib = server.env.auth.jwt_lib in
      let cfg = server.env.auth.jwt_config in
      let token = validate_session_jwt lib cfg at.now pkt.jwt in
      elim (Bool-cases (is_empty pkt.uuid || is_empty pkt.jwt)) [
        | inl e ↦ rw (handle_message, e) (refused _)
        | inr e ↦ elim (Bool-cases (names server pkt.uuid token)) [
          | inr n ↦ rw (handle_message, e, n) (refused _)
          | inl n ↦ elim (Option-cases (get w.engine.manager pkt.uuid)) [
            | inl g ↦ rw (handle_message, e, n, g) (refused _)
            | inr (hp, g) ↦
                let (claims, valid, sub) = names-ok pkt.uuid token n in
                let (signed, fresh) =
                  validate_session_jwt-Signed lib cfg at.now pkt.jwt claims valid in
                rw (handle_message, e, n, g) (forwarded hp claims g sub signed fresh)
          ]
        ]
      ]
