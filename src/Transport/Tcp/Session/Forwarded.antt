-- ===== src/Transport/Tcp/Session/Forwarded.antt =====
-- What the handler process of a session is given, over the session loop of
-- roboserver/tcp_server/tcp_server.go.
use robomesh.Prelude.{
  ℕ, zero, suc, Bool, true, false, not, ◌&&◌, List, [], ◌∷◌, ◌≡◌, refl, ap, ◌∙◌, Text, codes,
  text_eq, arith, if◌then◌else◌, Bool-cases, inl, inr,
}
use robomesh.Prelude.Bytes.{is_empty, trim_space}
use robomesh.Conn.{Conn}
use robomesh.HandlerEngine.Process.{HandlerProcess, send_incoming, send_disconnect}
use robomesh.HandlerEngine.Heap.{Engine, modify, modify_at}
use robomesh.Auth.Handshake.{HandshakeResult}
use robomesh.Transport.World.{World, ServerEnv}
use robomesh.Transport.Tcp.Session.{
  at_engine, persist_key, handle_persist, session_line, session_loop,
}

-- The lines that are meant for the handler: not the blank ones, and not the first PERSIST of a robot
-- that is not persisted.
unfoldable pub payloads : Bool → List Text → List Text
payloads persisted [] = []
payloads persisted (line ∷ rest) =
    let text = trim_space line in
    let kept = payloads persisted rest in
    let seen = payloads true rest in
    if is_empty text
    then kept
    else (if text_eq text (codes "PERSIST") && not persisted then seen else text ∷ kept)

-- Sent one after the other.
unfoldable pub deliver : List Text → HandlerProcess → HandlerProcess
deliver [] hp = hp
deliver (text ∷ rest) hp = deliver rest (send_incoming text hp)

modify_at-modify_at :
    (f g : HandlerProcess → HandlerProcess) (ps : List HandlerProcess) (a : ℕ)
    → modify_at f (modify_at g ps a) a ≡ modify_at (λ p. f (g p)) ps a
unfolding modify_at
modify_at-modify_at f g [] a = refl
modify_at-modify_at f g (p ∷ ps) zero = refl
modify_at-modify_at f g (p ∷ ps) (suc a) = ap (◌∷◌ p) (modify_at-modify_at f g ps a)

modify-modify :
    (f g : HandlerProcess → HandlerProcess) (a : ℕ) (e : Engine)
    → modify f a (modify g a e) ≡ modify (λ p. f (g p)) a e
unfolding modify
modify-modify f g a e = ap (λ ps. record e { procs = ps }) (modify_at-modify_at f g e.procs a)

module _ {S D : Type 0} (env : ServerEnv S D) (result : HandshakeResult) (hp : ℕ) where
  handle_persist_engine :
      (c : Conn (World S D)) → (handle_persist env result c).world.engine ≡ c.world.engine
  unfolding handle_persist persist_key
  handle_persist_engine c = ground arith

  session_loop-step :
      (done : ℕ → Bool) (n : ℕ) (line : Text) (rest : List Text) (c : Conn (World S D))
      (persisted : Bool)
      → done n ≡ false
      → session_loop env result hp done n (line ∷ rest) (c, persisted)
        ≡ session_loop env result hp done
            (suc n)
            rest
            (session_line env result hp (trim_space line) (c, persisted))
  unfolding session_loop
  session_loop-step done n line rest c persisted h = rw (h, session_loop)

  -- While the server runs on, a session hands every line that is meant for the handler to it, once and
  -- in the order of arrival, and then tells it of the disconnection; nothing else happens to the
  -- handlers. A second PERSIST counts as meant for the handler, whether or not the first succeeded.
  pub session_loop-payloads :
      (done : ℕ → Bool) (n : ℕ) (lines : List Text) (c : Conn (World S D)) (persisted : Bool)
      → ((i : ℕ) → done i ≡ false)
      → (session_loop env result hp done n lines (c, persisted)).world.engine
        ≡ modify
            (λ p. send_disconnect (codes "tcp_closed") (deliver (payloads persisted lines) p))
            hp
            c.world.engine
  unfolding session_loop session_line payloads deliver
  session_loop-payloads done n [] c persisted running = refl
  session_loop-payloads done n (line ∷ rest) c persisted running =
      ap (λ x. x.world.engine) (session_loop-step done n line rest c persisted (running n))
      ∙ elim (Bool-cases (is_empty (trim_space line))) [
        | inl e ↦
            rw (e, session_line, payloads)
              (session_loop-payloads done (suc n) rest c persisted running)
        | inr e ↦ elim (Bool-cases (text_eq (trim_space line) (codes "PERSIST") && not persisted)) [
          | inl p ↦
              rw (e, p, session_line, payloads)
                (session_loop-payloads done (suc n) rest (handle_persist env result c) true running
                  ∙ ap
                      (modify
                        (λ q. send_disconnect (codes "tcp_closed") (deliver (payloads true rest) q))
                        hp)
                      (handle_persist_engine c))
          | inr p ↦
              rw (e, p, session_line, payloads)
                (session_loop-payloads done (suc n) rest
                    (at_engine env (modify (send_incoming (trim_space line)) hp) c) persisted
                    running
                  ∙ modify-modify _ _ hp c.world.engine)
        ]
      ]
