-- ===== src/Transport/Tcp/Dispatch/Commands.antt =====
-- What the first lines of a connection do, over roboserver/tcp_server/tcp_server.go.
use mathlib.Core.List.{append-nil, append_assoc}
use robomesh.Prelude.{
  ℕ, suc, Bool, false, ◌||◌, Option, none, some, List, [], ◌∷◌, ◌++◌, ◌≡◌, refl, sym, ap, ◌∙◌, Text,
  codes, text_eq, arith, if◌then◌else◌, Bool-cases, inl, inr, All,
}
use robomesh.Prelude.Bytes.{is_empty, trim_space, has_prefix, contains, split3-append, cut_last}
use robomesh.Conn.{Conn}
use robomesh.Auth.Heartbeat.{HeartbeatPayload}
use robomesh.Transport.World.{World, ServerEnv}
use robomesh.Transport.Tcp.Session.{say}
use robomesh.Transport.Tcp.Dispatch.{
  Circumstances, split_heartbeat, refuse, connection_loop, handle_connection,
}

cut_last-none : (c : ℕ) (t : Text) → contains c t ≡ false → cut_last c t ≡ none
unfolding cut_last contains
cut_last-none c [] h = refl
cut_last-none c (x ∷ t) h = ground (arith, cut_last-none c t)

cut_last-append :
    (c : ℕ) (s t : Text) → contains c t ≡ false → cut_last c (s ++ c ∷ t) ≡ some (s, t)
unfolding cut_last
cut_last-append c [] t h = ground (arith, cut_last-none c t h)
cut_last-append c (x ∷ s) t h = rw (cut_last-append c s t h, cut_last)

-- A heartbeat message is taken apart into the UUID, payload and signature it was put together
-- from, where the UUID and the signature have no space, whatever the payload holds.
pub split_heartbeat_round_trip :
    (uuid payload signature : Text)
    → contains b' ' uuid ≡ false
    → contains b' ' signature ≡ false
    → split_heartbeat (codes "HEARTBEAT" ++ b' ' ∷ (uuid ++ b' ' ∷ (payload ++ b' ' ∷ signature)))
      ≡ some (uuid, payload, signature)
unfolding split_heartbeat contains
split_heartbeat_round_trip uuid payload signature hu hs =
    rw (split3-append b' ' (codes "HEARTBEAT") uuid (payload ++ b' ' ∷ signature) refl hu)
      (rw (cut_last-append b' ' payload signature hs))

-- The three commands.
abbrev pub is_command : Text → Bool
is_command message =
    text_eq message (codes "AUTH")
    || text_eq message (codes "REGISTER")
    || has_prefix message (codes "HEARTBEAT ")

-- The refusals that lines get which are not commands: one for each that is not blank.
unfoldable pub refusals : List Text → List Text
refusals [] = []
refusals (line ∷ rest) =
    let more = refusals rest in
    if is_empty (trim_space line) then more else codes "ERROR EXPECTED_AUTH_OR_REGISTER" ∷ more

module _ {S D : Type 0} (env : ServerEnv S D) (parse_payload : Text → Option HeartbeatPayload) where
  connection_loop-skip :
      (x : Circumstances S D) (n : ℕ) (line : Text) (rest : List Text) (c : Conn (World S D))
      → is_command (trim_space line) ≡ false
      → connection_loop env parse_payload x n (line ∷ rest) c
        ≡ connection_loop env parse_payload x
            (suc n)
            rest
            (refuse env parse_payload (trim_space line) c)
  unfolding connection_loop
  connection_loop-skip x n line rest c h =
      let a : text_eq (trim_space line) (codes "AUTH") ≡ false = ground arith in
      let r : text_eq (trim_space line) (codes "REGISTER") ≡ false = ground arith in
      let b : has_prefix (trim_space line) (codes "HEARTBEAT ") ≡ false = ground arith in
      elim (Bool-cases (is_empty (trim_space line))) [
        | inl e ↦ rw (e, connection_loop) refl
        | inr e ↦ rw (e, a, r, b, connection_loop) refl
      ]

  connection_loop-refusals :
      (x : Circumstances S D) (n : ℕ) (lines : List Text) (c : Conn (World S D))
      → All (λ l. is_command (trim_space l) ≡ false) lines
      → connection_loop env parse_payload x n lines c
        ≡ record c { input = []; output = c.output ++ refusals lines }
  unfolding connection_loop refusals refuse
  connection_loop-refusals x n [] c h =
      ap (λ o. record c { input = []; output = o }) (sym (append-nil c.output))
  connection_loop-refusals x n (line ∷ rest) c (h, hs) =
      connection_loop-skip x n line rest c h ∙ elim (Bool-cases (is_empty (trim_space line))) [
        | inl e ↦ rw (e, refuse, refusals) (connection_loop-refusals x (suc n) rest c hs)
        | inr e ↦
            rw (e, refuse, refusals)
              (connection_loop-refusals x (suc n) rest
                  (say env (codes "ERROR EXPECTED_AUTH_OR_REGISTER") c) hs
                ∙ ap (λ o. record c { input = []; output = o })
                    (append_assoc c.output (codes "ERROR EXPECTED_AUTH_OR_REGISTER" ∷ [])
                      (refusals rest)))
      ]

  -- A connection whose lines are all no commands changes nothing in the server, and each line that
  -- is not blank is refused.
  pub handle_connection-refusals :
      (x : Circumstances S D) (c : Conn (World S D))
      → All (λ l. is_command (trim_space l) ≡ false) c.input
      → handle_connection env parse_payload x c
        ≡ record c { input = []; output = c.output ++ refusals c.input }
  unfolding handle_connection
  handle_connection-refusals x c h = connection_loop-refusals x 0 c.input c h
