-- ===== src/HandlerEngine/Route/Answered.antt =====
-- Every request of a script (routeEnvelope of roboserver/handler_engine/process.go) is answered once,
-- under its own id, or is handed to a reverse connection that will answer it.
use robomesh.Prelude.{
  true, false, some, ◌≡◌, refl, Text, codes, text_eq, inl, inr, Bool-cases, if◌then◌else◌, ◌||◌,
}
use robomesh.Prelude.Bytes.{is_empty}
use robomesh.Prelude.Int.{ℤ, pos, leb_ℤ}
use robomesh.HandlerEngine.Message.{Envelope}
use robomesh.HandlerEngine.Route.{
  Context, RouteEnv, Dial, Protocol, tcp, udp, ConnectRequest, resolve_robot_ip, dial,
  handle_connect_robot_request, route_envelope,
}
use robomesh.HandlerEngine.Route.Outcome.{
  IsLive, Outcome, dialled, Answers, if-Answers, if_true-Answers, send_response-Answers,
  option-Outcome, if-Outcome,
}
use robomesh.HandlerEngine.Route.Handled.{
  handle_database_request-Answers, handle_robot_request-Answers, handle_event_bus_request-Answers,
  handle_config_request-Answers,
}

module _ {S D : Type 0} (env : RouteEnv S D) where
  -- The protocol that a request names, TCP where it names none.
  pub data Names (protocol : Text) : Protocol → Type 0 where
    names_tcp : (is_empty protocol || text_eq protocol (codes "tcp")) ≡ true → Names protocol tcp
    names_udp : text_eq protocol (codes "udp") ≡ true → Names protocol udp

  -- A valid request for a reverse connection: it can be read, its port is positive, its protocol is
  -- known, and there is an address, which it names or which is the last one known of the robot.
  pub record Connects (e : Envelope) (c : Context S) (x : Dial) : Type 0 where
    pub target : text_eq e.target (codes "connect_robot") ≡ true
    pub text : Text
    pub marshalled : env.json.marshal e.content ≡ some text
    pub request : ConnectRequest
    pub parsed : env.parse_connect text ≡ some request
    pub positive : leb_ℤ request.port (pos 0) ≡ false
    pub port : x.port ≡ request.port
    pub address : x.ip ≡ (if is_empty request.ip then resolve_robot_ip env c else request.ip)
    pub addressed : is_empty x.ip ≡ false
    pub protocol : Names request.protocol x.protocol

  dial-Outcome :
      {P : Context S → Dial → Type 0} (id protocol ip : Text) (port : ℤ) (c : Context S)
      → IsLive c
      → ((p : Protocol)
          → Names protocol p
          → P c (record { protocol = p; request_id = id; ip = ip; port = port }))
      → Outcome P id c (dial env id protocol ip port c)
  unfolding dial
  dial-Outcome id protocol ip port c l valid =
      elim (Bool-cases (is_empty protocol || text_eq protocol (codes "tcp"))) [
        | inl t ↦ rw (dial, t) (dialled _ (valid tcp (names_tcp t)) refl refl refl)
        | inr t ↦ elim (Bool-cases (text_eq protocol (codes "udp"))) [
          | inl u ↦ rw (dial, t, u) (dialled _ (valid udp (names_udp u)) refl refl refl)
          | inr u ↦ rw (dial, t, u) ((send_response-Answers id _ _).at c l)
        ]
      ]

  handle_connect_robot_request-Answers :
      (e : Envelope)
      → text_eq e.target (codes "connect_robot") ≡ true
      → Answers (Connects e) e.id (handle_connect_robot_request env e)
  unfolding handle_connect_robot_request
  handle_connect_robot_request-Answers e named = record {
    at = λ c l.
        option-Outcome e.id c (env.json.marshal e.content) ((send_response-Answers e.id _ _).at c l)
          λ text m.
            option-Outcome e.id c (env.parse_connect text) ((send_response-Answers e.id _ _).at c l)
              λ req p.
                if-Outcome e.id c (leb_ℤ req.port (pos 0))
                  (λ _. (send_response-Answers e.id _ _).at c l)
                  (λ q.
                    if-Outcome e.id c (is_empty _) (λ _. (send_response-Answers e.id _ _).at c l)
                      (λ a. dial-Outcome e.id req.protocol _ req.port c l (λ protocol n. record {
                        target = named;
                        text = text;
                        marshalled = m;
                        request = req;
                        parsed = p;
                        positive = q;
                        port = refl;
                        address = refl;
                        addressed = a;
                        protocol = n;
                      })));
  }

  -- Whatever a script asks for, while its process runs and its queue has room, it gets one response
  -- with the id of its request and no other message; only a valid request for a reverse connection,
  -- with a positive port, a known protocol and an address, is left to the connection that is started
  -- for it instead, which carries the id and dials that address and port.
  pub route_envelope-Answers :
      (d : D) (e : Envelope) (c : Context S)
      → IsLive c
      → Outcome (Connects e) e.id c (route_envelope env d e c)
  unfolding route_envelope
  route_envelope-Answers d e =
      (if-Answers e.id (text_eq e.target (codes "database"))
        (handle_database_request-Answers env d e)
        (if-Answers e.id (text_eq e.target (codes "robot")) (handle_robot_request-Answers env e) (
          if-Answers e.id (text_eq e.target (codes "event_bus"))
            (handle_event_bus_request-Answers env e)
            (if-Answers e.id (text_eq e.target (codes "config"))
              (handle_config_request-Answers env e)
              (if_true-Answers e.id (text_eq e.target (codes "connect_robot"))
                (handle_connect_robot_request-Answers e) (send_response-Answers e.id _ _)))))).at
