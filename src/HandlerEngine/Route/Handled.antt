-- ===== src/HandlerEngine/Route/Handled.antt =====
-- The requests of a script for the databases, the robot, the event bus and the configuration
-- (roboserver/handler_engine/process.go): each handler answers.
use robomesh.Prelude.{
  Bool, true, false, Option, none, some, [], ◌∷◌, ◌++◌, ◌≡◌, refl, Text, codes, text_eq, arith,
  if◌then◌else◌,
}
use robomesh.Prelude.Bytes.{is_empty}
use robomesh.HandlerEngine.Message.{Fields, Envelope}
use robomesh.HandlerEngine.Process.{HandlerProcess, Link, robot_link}
use robomesh.HandlerEngine.Route.{
  Context, RouteEnv, Dial, store_value, load_value, delete_value, store_data,
  handle_database_request, send_to_robot, handle_robot_request, handle_event_bus_request,
  set_forwarding, forward_heartbeats, subscribe_topic, handle_config_request,
  enable_heartbeat_forwarding,
}
use robomesh.HandlerEngine.Route.Outcome.{
  Answers, if-Answers, send_response-Answers, need-Answers, attempt-Answers, after-Answers,
  attempt_write-Answers, option-Outcome, answer_data-Answers,
}

module _ {S D : Type 0} (env : RouteEnv S D) where
  pub set_forwarding_queue :
      (b : Bool) (hp : HandlerProcess)
      → ((set_forwarding env b hp).write_ch ≡ hp.write_ch)
        × ((set_forwarding env b hp).closed ≡ hp.closed)
  unfolding set_forwarding enable_heartbeat_forwarding
  set_forwarding_queue true hp = ground arith
  set_forwarding_queue false hp = (refl, refl)

module _ {S D : Type 0} (env : RouteEnv S D) {P : Context S → Dial → Type 0} where
  pub store_value-Answers : (id key text : Text) → Answers P id (store_value env id key text)
  unfolding store_value
  store_value-Answers id key text = record {
    at = λ c l.
        option-Outcome id c env.rds ((send_response-Answers id _ _).at c l)
          (λ r _. (attempt_write-Answers id _ _ _).at c l);
  }

  pub load_value-Answers : (id key : Text) → Answers P id (load_value env id key)
  unfolding load_value
  load_value-Answers id key = record {
    at = λ c l.
        option-Outcome id c env.rds ((send_response-Answers id _ _).at c l)
          (λ r _. (answer_data-Answers id env.json _).at c l);
  }

  pub delete_value-Answers : (id key : Text) → Answers P id (delete_value env id key)
  unfolding delete_value
  delete_value-Answers id key = record {
    at = λ c l.
        option-Outcome id c env.rds ((send_response-Answers id _ _).at c l)
          (λ r _. (attempt_write-Answers id _ _ _).at c l);
  }

  pub store_data-Answers : (id : Text) (params : Fields) → Answers P id (store_data env id params)
  unfolding store_data
  store_data-Answers id params =
      if-Answers id (is_empty _) (send_response-Answers id _ _)
        (need-Answers id _ _ _ (store_value-Answers id _))

  pub handle_database_request-Answers :
      (d : D) (e : Envelope) → Answers P e.id (handle_database_request env d e)
  unfolding handle_database_request
  handle_database_request-Answers d e =
      if-Answers e.id (text_eq e.method (codes "get_robot"))
        (need-Answers e.id _ _ _
          λ uuid. attempt-Answers e.id _ _ λ r. send_response-Answers e.id _ _)
        (if-Answers e.id (text_eq e.method (codes "list_robots"))
          (attempt-Answers e.id _ _ λ rs. send_response-Answers e.id _ _)
          (if-Answers e.id (text_eq e.method (codes "get_robots_by_type"))
            (need-Answers e.id _ _ _
              λ t. attempt-Answers e.id _ _ λ rs. send_response-Answers e.id _ _)
            (if-Answers e.id (text_eq e.method (codes "store_data"))
              (need-Answers e.id _ _ _ (store_data-Answers e.id))
              (if-Answers e.id (text_eq e.method (codes "get_data"))
                (need-Answers e.id _ _ _ (load_value-Answers e.id))
                (if-Answers e.id (text_eq e.method (codes "delete_data"))
                  (need-Answers e.id _ _ _ (delete_value-Answers e.id))
                  (send_response-Answers e.id _ _))))))

  pub send_to_robot-Answers :
      (id payload : Text) (link : Option Link) → Answers P id (send_to_robot env id payload link)
  unfolding send_to_robot
  send_to_robot-Answers id payload none = send_response-Answers id _ _
  send_to_robot-Answers id payload (some link) =
      if-Answers id (env.deliver link payload)
        (record {
          at = λ c l.
              after-Answers id (λ x. record x { robot_out = x.robot_out ++ (link, payload) ∷ [] }) _
                _ c l refl refl refl;
        })
        (send_response-Answers id _ _)

  pub handle_robot_request-Answers : (e : Envelope) → Answers P e.id (handle_robot_request env e)
  unfolding handle_robot_request
  handle_robot_request-Answers e = record {
    at = λ c l.
        (need-Answers e.id _ (env.json.marshal e.content) _
            λ payload. send_to_robot-Answers e.id payload (robot_link c.hp)).at
          c l;
  }

  pub handle_event_bus_request-Answers :
      (e : Envelope) → Answers P e.id (handle_event_bus_request env e)
  unfolding handle_event_bus_request
  handle_event_bus_request-Answers e =
      if-Answers e.id env.has_bus
        (record {
          at = λ c l.
              after-Answers e.id
                (λ x. record x {
                  published =
                      x.published
                      ++ (if is_empty e.method then codes "handler_event" else e.method, e.content)
                        ∷ [];
                })
                _ _ c l refl refl refl;
        })
        (send_response-Answers e.id _ _)

  pub forward_heartbeats-Answers :
      (id : Text) (b : Bool) → Answers P id (forward_heartbeats env id b)
  unfolding forward_heartbeats
  forward_heartbeats-Answers id b = record {
    at = λ c l.
        let (q, o) = set_forwarding_queue env b c.hp in
        after-Answers id (λ x. record x { hp = set_forwarding env b x.hp }) _ _ c l q o refl;
  }

  pub subscribe_topic-Answers : (id topic : Text) → Answers P id (subscribe_topic env id topic)
  unfolding subscribe_topic
  subscribe_topic-Answers id topic =
      if-Answers id env.has_bus
        (attempt-Answers id (env.subscribe topic) _ λ s. record {
          at = λ c l.
              after-Answers id
                (λ x. record x {
                  hp = record x.hp { subscriptions = x.hp.subscriptions ++ s ∷ [] };
                })
                _ _ c l refl refl refl;
        })
        (send_response-Answers id _ _)

  pub handle_config_request-Answers : (e : Envelope) → Answers P e.id (handle_config_request env e)
  unfolding handle_config_request
  handle_config_request-Answers e =
      if-Answers e.id (text_eq e.method (codes "forward_heartbeats"))
        (need-Answers e.id _ _ _ (forward_heartbeats-Answers e.id))
        (if-Answers e.id (text_eq e.method (codes "subscribe"))
          (need-Answers e.id _ _ _ (subscribe_topic-Answers e.id)) (send_response-Answers e.id _ _))
