-- ===== src/Transport/Tcp/Session.antt =====
-- The session of roboserver/tcp_server/tcp_server.go: enterSessionMode and handlePersist. Whether the
-- context of the server is done when a line has been read is an argument, by the number of the line.
pub mod Forwarded
pub mod Persisted
use robomesh.Prelude.{
  ℕ, suc, Bool, true, false, not, ◌&&◌, Option, none, some, List, [], ◌∷◌, ◌++◌, Text, codes,
  text_eq, if◌then◌else◌,
}
use robomesh.Prelude.Bytes.{is_empty, trim_space}
use robomesh.Prelude.Results.{Result, ok, err}
use robomesh.Conn.{Conn}
use robomesh.Database.Redis.{get_robot_public_key, remove_active_robot}
use robomesh.HandlerEngine.Process.{Link, send_incoming, send_disconnect}
use robomesh.HandlerEngine.Heap.{Engine, modify, stop}
use robomesh.Auth.Handshake.{HandshakeResult}
use robomesh.Transport.World.{
  World, ServerEnv, Wait, Attachment, attached, spawn_failed, unavailable, shutting_down, attach,
}

module _ {S D : Type 0} (env : ServerEnv S D) where
  abbrev pub say : Text → Conn (World S D) → Conn (World S D)
  say line c = record c { output = c.output ++ line ∷ [] }

  abbrev pub set_pg : Conn (World S D) → D → Conn (World S D)
  set_pg c d = record c { world = record c.world { pg = d } }

  -- RegisterRobot and its two outcomes.
  unfoldable pub persist_key : HandshakeResult → Text → Conn (World S D) → Conn (World S D)
  persist_key result public_key c =
      let (d', done) =
        env.auth.pg.register_robot c.world.pg result.uuid public_key result.device_type in
      if done
      then say (codes "PERSIST_OK") (set_pg c d')
      else say (codes "ERROR PERSIST_FAILED") (set_pg c d')

  unfoldable pub handle_persist : HandshakeResult → Conn (World S D) → Conn (World S D)
  unfolding persist_key
  handle_persist result c = elim (env.auth.pg.get_robot_by_uuid c.world.pg result.uuid) [
    | some existing ↦ say (codes "PERSIST_OK ALREADY_PERSISTED") c
    | none ↦ elim (get_robot_public_key env.auth.redis c.world.redis result.uuid) [
      | err e ↦ say (codes "ERROR NO_PUBLIC_KEY") c
      | ok public_key ↦
          if is_empty public_key
          then say (codes "ERROR NO_PUBLIC_KEY") c
          else persist_key result public_key c
    ]
  ]

  -- A method call on the handler at an address.
  abbrev pub at_engine : (Engine → Engine) → Conn (World S D) → Conn (World S D)
  at_engine f c = record c { world = record c.world { engine = f c.world.engine } }

  -- The body of the loop after the test of the context: the connection and `persisted`.
  unfoldable pub session_line :
      HandshakeResult → ℕ → Text → Conn (World S D) × Bool → Conn (World S D) × Bool
  unfolding handle_persist
  session_line result hp line (c, persisted) =
      if is_empty line
      then (c, persisted)
      else (if text_eq line (codes "PERSIST") && not persisted
          then (handle_persist result c, true)
          else (at_engine (modify (send_incoming line) hp) c, persisted))

  unfoldable pub session_loop :
      HandshakeResult → ℕ → (ℕ → Bool) → ℕ → List Text → Conn (World S D) × Bool → Conn (World S D)
  unfolding session_line
  session_loop result hp done n [] (c, persisted) =
      at_engine (modify (send_disconnect (codes "tcp_closed")) hp) (record c { input = [] })
  session_loop result hp done n (line ∷ rest) (c, persisted) =
      let next =
        session_loop result hp done (suc n) rest
          (session_line result hp (trim_space line) (c, persisted)) in
      if done n
      then at_engine (λ e. (stop (codes "server_shutdown") hp e).0) (record c { input = rest })
      else next

  -- From the outcome of the attachment on.
  unfoldable pub run_session :
      HandshakeResult → Bool → (ℕ → Bool) → Attachment → Conn (World S D) → Conn (World S D)
  unfolding session_loop
  run_session result persisted done (attached hp) c =
      session_loop result hp done 0 c.input (c, persisted)
  run_session result persisted done spawn_failed c =
      let s' = (remove_active_robot env.auth.redis c.world.redis result.uuid).0 in
      say (codes "ERROR HANDLER_SPAWN_FAILED") (record c { world = record c.world { redis = s' } })
  run_session result persisted done unavailable c = say (codes "ERROR HANDLER_UNAVAILABLE") c
  run_session result persisted done shutting_down c = say (codes "ERROR SERVER_SHUTTING_DOWN") c

  unfoldable pub enter_session_mode :
      HandshakeResult → Bool → Link → Wait → (ℕ → Bool) → Conn (World S D) → Conn (World S D)
  unfolding run_session
  enter_session_mode result persisted link wait done c =
      let (w, a) =
        attach env result.uuid result.device_type result.ip result.session_id (some link) wait
          c.world in
      run_session result persisted done a (record c { world = w })
