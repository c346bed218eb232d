-- ===== src/Transport/Tcp/Register/Accepted.antt =====
-- What a registration has established when it gives a session, over
-- roboserver/tcp_server/tcp_server.go.

use robomesh.Prelude.{
  ℕ, Bool, true, false, Option, none, some, [], ◌∷◌, ◌++◌, ◌≡◌, refl, sym, ap, ◌∙◌, Text, codes,
  Option-cases, inl, inr,
}
use robomesh.Prelude.Bytes.{trim_space}
use robomesh.Prelude.Results.{ok, err≢ok}
use robomesh.Conn.{Conn, Handler, ◌>>=◌, ◌>>◌, require, expect, bind-ok}
use robomesh.Database.Redis.{PendingRobot, set_pending_robot, remove_pending_robot}
use robomesh.HandlerEngine.Registry.{is_valid_device_type}
use robomesh.Auth.Handshake.{HandshakeResult, Draws}
use robomesh.Transport.World.{World, ServerEnv}
use robomesh.Transport.Tcp.Register.{
  RegisterError, Approval, pending_ttl, Request, collect_request, store_pending, wait_for_answer,
  check_answer, register,
}
use robomesh.Transport.Tcp.Register.Collected.{Unused, asked, Collected, collect_request-Collected}
use robomesh.Transport.Tcp.Register.Activated.{Activated, activate-Activated}

-- The entry of a registration that waits.
abbrev pub pending_of : Text → ℕ → Request → PendingRobot
pending_of ip now request = record {
  uuid = request.uuid;
  ip = ip;
  device_type = request.device_type;
  public_key = request.public_key;
  requested_at = now;
}

module _ {S D : Type 0} (env : ServerEnv S D) where
  -- The state while the registration waits, with the pending entry and the event.
  abbrev pub awaiting : Text → ℕ → Request → World S D → World S D
  awaiting ip now request w = record w {
    redis = (set_pending_robot env.auth.redis w.redis (pending_of ip now request) pending_ttl).0;
    published =
        w.published
        ++ record { event_type = codes "robot.registering"; subject = request.uuid } ∷ [];
  }

  -- The state after the answer, without the pending entry.
  abbrev pub answered : Text → Approval S D → Request → World S D → World S D
  answered ip approval request w =
      let later = approval.meanwhile (awaiting ip approval.requested_at request w) in
      record later { redis = (remove_pending_robot env.auth.redis later.redis request.uuid).0 }

  -- The dialogue of a registration that ends well: the robot sends three lines; its UUID is in no
  -- registry, has no session and is not pending; its device type is well formed; the pending entry was
  -- stored; a person accepted it; and only then is a token issued and a session stored for it.
  pub record Registered (ip : Text) (draws : Draws) (approval : Approval S D)
      (c c' : Conn (World S D)) (r : HandshakeResult) : Type 0 where
    pub request : Request
    pub uuid_line : Text
    pub type_line : Text
    pub key_line : Text
    pub received : c.input ≡ uuid_line ∷ type_line ∷ key_line ∷ c'.input
    pub named : trim_space uuid_line ≡ request.uuid
    pub typed : trim_space type_line ≡ request.device_type
    pub keyed : trim_space key_line ≡ request.public_key
    pub unused : Unused env c.world request.uuid
    pub valid : is_valid_device_type request.device_type ≡ true
    pub pending :
        (set_pending_robot env.auth.redis c.world.redis
          (pending_of ip approval.requested_at request)
          pending_ttl).1
        ≡ none
    pub accepted : approval.answer ≡ some true
    pub before : Conn (World S D)
    pub waited : before.world ≡ answered ip approval request c.world
    pub prompted : before.output ≡ asked env c.output ++ codes "REGISTER_PENDING" ∷ []
    pub activated : Activated env ip draws request before c' r

  store_pending-ok :
      {B : Type 0} (ip : Text) (now : ℕ) (request : Request)
      (m : Handler (World S D) RegisterError B) (c : Conn (World S D)) {r : B}
      {c' : Conn (World S D)}
      → (store_pending env ip now request >> m) c ≡ (ok r, c')
      → let s =
          set_pending_robot env.auth.redis c.world.redis (pending_of ip now request) pending_ttl in
        (s.1 ≡ none) × (m (record c { world = record c.world { redis = s.0 } }) ≡ (ok r, c'))
  unfolding store_pending ◌>>=◌ require
  store_pending-ok ip now request m c h =
      elim (Option-cases
        (set_pending_robot env.auth.redis c.world.redis (pending_of ip now request)
          pending_ttl).1) [
            | inl e ↦ (e, rw (e, store_pending) at h)
            | inr (x, e) ↦ absurd (err≢ok (ap (λ p. p.0) (rw (e, store_pending) at h)))
          ]

  check_answer-ok :
      {B : Type 0} (answer : Option Bool) (m : Handler (World S D) RegisterError B)
      (c : Conn (World S D)) {r : B} {c' : Conn (World S D)}
      → (check_answer env answer >> m) c ≡ (ok r, c')
      → (answer ≡ some true) × (m c ≡ (ok r, c'))
  unfolding check_answer ◌>>=◌ expect require
  check_answer-ok (some true) m c h = (refl, h)
  check_answer-ok (some false) m c h = absurd (err≢ok (ap (λ p. p.0) h))
  check_answer-ok none m c h = absurd (err≢ok (ap (λ p. p.0) h))

  -- A registration gives a session only for three lines from the robot, a UUID that is not registered,
  -- not active and not pending as far as the databases answer, a well-formed device type, a pending
  -- entry that was stored and an answer that accepts it. The token is issued for that UUID, device type
  -- and address; the state at the end is the one after the wait, with the pending entry removed and
  -- then the session and the public key stored; and the robot is sent the prompts and the token.
  pub register-Registered :
      (ip : Text) (draws : Draws) (approval : Approval S D) (c : Conn (World S D))
      (r : HandshakeResult) (c' : Conn (World S D))
      → register env ip draws approval c ≡ (ok r, c')
      → Registered ip draws approval c c' r
  unfolding register wait_for_answer
  register-Registered ip draws approval c r c' h =
      let (request, c₁, e₁, h₁) = bind-ok (collect_request env) _ c h in
      let k : Collected env c c₁ request = collect_request-Collected env c request c₁ e₁ in
      let (e₂, h₂) = store_pending-ok ip approval.requested_at request _ c₁ h₁ in
      let (u, c₃, e₃, h₃) = bind-ok (wait_for_answer env request.uuid approval) _ _ h₂ in
      let (e₄, h₄) = check_answer-ok approval.answer _ c₃ h₃ in
      let a : Activated env ip draws request c₃ c' r =
        activate-Activated env ip draws request c₃ r c' h₄ in
      record {
        request = request;
        uuid_line = k.uuid_line;
        type_line = k.type_line;
        key_line = k.key_line;
        received =
            k.received
            ∙ ap (λ i. k.uuid_line ∷ k.type_line ∷ k.key_line ∷ i)
                (sym (a.input_kept ∙ sym (ap (λ p. p.1.input) e₃)));
        named = k.named;
        typed = k.typed;
        keyed = k.keyed;
        unused = k.unused;
        valid = k.valid;
        pending =
            ap
              (λ x.
                (set_pending_robot env.auth.redis x.redis
                  (pending_of ip approval.requested_at request) pending_ttl).1)
              (sym k.unchanged)
            ∙ e₂;
        accepted = e₄;
        before = c₃;
        waited = sym (ap (λ p. p.1.world) e₃) ∙ ap (answered ip approval request) k.unchanged;
        prompted =
            sym (ap (λ p. p.1.output) e₃) ∙ ap (λ x. x ++ codes "REGISTER_PENDING" ∷ []) k.prompted;
        activated = a;
      }
