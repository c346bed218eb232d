-- ===== src/Transport/Tcp/Register/Collected.antt =====
-- What the first half of a registration has established: steps 1 to 3 of handleRegisterAndSession in
-- roboserver/tcp_server/tcp_server.go.
use mathlib.Core.Path.{subst, subst₂}
use robomesh.Prelude.{
  Bool, true, false, not, Option, none, some, List, [], ◌∷◌, ◌++◌, codes, ◌≡◌, refl, sym, ap, ◌∙◌,
  Text, arith,
}
use robomesh.Prelude.Bytes.{is_empty, trim_space}
use robomesh.Prelude.Results.{ok, ok_inj}
use robomesh.Conn.{Conn, Handler, ◌>>=◌, ◌>>◌, require-ok, scan-ok, write-ok, bind-ok}
use robomesh.Database.Redis.{get_active_robot, get_pending_robot}
use robomesh.HandlerEngine.Registry.{is_valid_device_type}
use robomesh.Auth.Handshake.{is_ok, is_none}
use robomesh.Transport.World.{World, ServerEnv}
use robomesh.Transport.Tcp.Register.{
  RegisterError, Request, read_handshake_input, check_unused, collect_request,
}

not-true : (b : Bool) → not b ≡ true → b ≡ false
not-true b h = ground arith

is_none-eq : {A : Type 0} (o : Option A) → is_none o ≡ true → o ≡ none
is_none-eq none h = refl
is_none-eq (some a) h = cc

module _ {S D : Type 0} (env : ServerEnv S D) where
  read_handshake_input_line :
      (prompt empty_error : Text) (c : Conn (World S D)) (v : Text) (c₁ : Conn (World S D))
      → read_handshake_input env prompt empty_error c ≡ (ok v, c₁)
      → (line : Text) × (c.input ≡ line ∷ c₁.input)
        × (c₁.world ≡ c.world)
        × (c₁.output ≡ c.output ++ prompt ∷ [])
        × (trim_space line ≡ v)
  unfolding read_handshake_input
  read_handshake_input_line prompt empty_error c v c₁ e =
      let h₁ = write-ok _ _ c e in
      let (line, rest, e₂, h₂) = scan-ok _ _ _ h₁ in
      let (e₃, h₃) = require-ok (not (is_empty (trim_space line))) _ _ _ _ h₂ in
      (
        line,
        e₂ ∙ ap (λ p. line ∷ p.1.input) h₃,
        sym (ap (λ p. p.1.world) h₃),
        sym (ap (λ p. p.1.output) h₃),
        ok_inj (ap (λ p. p.0) h₃),
      )

  read_handshake_input-ok :
      {B : Type 0} (prompt empty_error : Text) (f : Text → Handler (World S D) RegisterError B)
      (c : Conn (World S D)) {r : B} {c' : Conn (World S D)}
      → (read_handshake_input env prompt empty_error >>= f) c ≡ (ok r, c')
      → (line : Text) × (c₁ : Conn (World S D)) × (c.input ≡ line ∷ c₁.input)
        × (c₁.world ≡ c.world)
        × (c₁.output ≡ c.output ++ prompt ∷ [])
        × (f (trim_space line) c₁ ≡ (ok r, c'))
  read_handshake_input-ok prompt empty_error f c h =
      let (v, c₁, e, h₁) = bind-ok (read_handshake_input env prompt empty_error) f c h in
      let (line, e₂, e₃, o, e₄) = read_handshake_input_line prompt empty_error c v c₁ e in
      (line, c₁, e₂, e₃, o, ap (λ x. f x c₁) e₄ ∙ h₁)

  -- The three tests that a UUID passes: it is not in the registry, has no session and is not pending.
  pub record Unused (w : World S D) (uuid : Text) : Type 0 where
    pub unregistered : env.auth.pg.get_robot_by_uuid w.pg uuid ≡ none
    pub inactive : is_ok (get_active_robot env.auth.redis w.redis uuid) ≡ false
    pub not_pending : is_ok (get_pending_robot env.auth.redis w.redis uuid) ≡ false

  check_unused-Unused :
      (uuid : Text) (c : Conn (World S D)) (u : Unit {0}) (c₁ : Conn (World S D))
      → check_unused env uuid c ≡ (ok u, c₁)
      → Unused c.world uuid × (c ≡ c₁)
  unfolding check_unused
  check_unused-Unused uuid c u c₁ e =
      let (e₁, h₁) =
        require-ok (is_none (env.auth.pg.get_robot_by_uuid c.world.pg uuid)) _ _ _ c e in
      let (e₂, h₂) =
        require-ok (not (is_ok (get_active_robot env.auth.redis c.world.redis uuid))) _ _ _ c h₁ in
      let (e₃, h₃) =
        require-ok (not (is_ok (get_pending_robot env.auth.redis c.world.redis uuid))) _ _ _ c h₂ in
      (
        record {
          unregistered = is_none-eq _ e₁;
          inactive = not-true _ e₂;
          not_pending = not-true _ e₃;
        },
        ap (λ p. p.1) h₃,
      )

  check_unused-ok :
      {B : Type 0} (uuid : Text) (m : Handler (World S D) RegisterError B) (c : Conn (World S D))
      {r : B} {c' : Conn (World S D)}
      → (check_unused env uuid >> m) c ≡ (ok r, c')
      → Unused c.world uuid × (m c ≡ (ok r, c'))
  check_unused-ok uuid m c h =
      let (u, c₁, e, h₁) = bind-ok (check_unused env uuid) (λ _. m) c h in
      let (unused, same) = check_unused-Unused uuid c u c₁ e in (unused, ap m same ∙ h₁)

  -- The three prompts.
  abbrev pub asked : List Text → List Text
  asked out =
      ((out ++ codes "REGISTER_CHALLENGE" ∷ []) ++ codes "SEND_DEVICE_TYPE" ∷ [])
      ++ codes "SEND_PUBLIC_KEY" ∷ []

  -- What the robot said, line by line, where the server took it up.
  pub record Collected (c c' : Conn (World S D)) (request : Request) : Type 0 where
    pub uuid_line : Text
    pub type_line : Text
    pub key_line : Text
    pub received : c.input ≡ uuid_line ∷ type_line ∷ key_line ∷ c'.input
    pub unchanged : c'.world ≡ c.world
    pub prompted : c'.output ≡ asked c.output
    pub named : trim_space uuid_line ≡ request.uuid
    pub typed : trim_space type_line ≡ request.device_type
    pub keyed : trim_space key_line ≡ request.public_key
    pub unused : Unused c.world request.uuid
    pub valid : is_valid_device_type request.device_type ≡ true

  pub collect_request-Collected :
      (c : Conn (World S D)) (request : Request) (c' : Conn (World S D))
      → collect_request env c ≡ (ok request, c')
      → Collected c c' request
  unfolding collect_request
  collect_request-Collected c request c' h =
      let (l₁, c₁, e₁, w₁, o₁, h₁) = read_handshake_input-ok _ _ _ c h in
      let (unused, h₂) = check_unused-ok (trim_space l₁) _ c₁ h₁ in
      let (l₂, c₂, e₂, w₂, o₂, h₃) = read_handshake_input-ok _ _ _ c₁ h₂ in
      let (valid, h₄) = require-ok (is_valid_device_type (trim_space l₂)) _ _ _ c₂ h₃ in
      let (l₃, c₃, e₃, w₃, o₃, h₅) = read_handshake_input-ok _ _ _ c₂ h₄ in
      subst₂ (λ x y. Collected c y x) (ok_inj (ap (λ p. p.0) h₅)) (ap (λ p. p.1) h₅)
        (record {
          uuid_line = l₁;
          type_line = l₂;
          key_line = l₃;
          received = e₁ ∙ ap (◌∷◌ l₁) (e₂ ∙ ap (◌∷◌ l₂) e₃);
          prompted =
              o₃
              ∙ ap (λ x. x ++ codes "SEND_PUBLIC_KEY" ∷ [])
                  (o₂ ∙ ap (λ x. x ++ codes "SEND_DEVICE_TYPE" ∷ []) o₁);
          unchanged = w₃ ∙ (w₂ ∙ w₁);
          named = refl;
          typed = refl;
          keyed = refl;
          unused = subst (λ w. Unused w (trim_space l₁)) w₁ unused;
          valid = valid;
        })
